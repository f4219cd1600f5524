-- ===== src/Lifecycle/Rollouts.antt =====
-- The jobs under the requests to update agents.
use nginx_atlas.Commands.{
  Candidate, UpdateBatch, batch_run, candidate, commit_node_atlas, is_up_to_date,
  normalize_node_arch, offer_update, offer_updates, queue_atlas_update, skips, take_candidate,
  takes, update_all_nodes_atlas, update_node_atlas,
}
use nginx_atlas.Effects.{
  Env, Result, World, add_audit, bind-ok, enqueue_job, err, not_found, ok, ok_inj, other_error,
}
use nginx_atlas.Jobs.Queries.{has_active_node_job}
use nginx_atlas.Lifecycle.Adds.{AddsAt-ExtendsAt, Sound, Sound-later, enqueue_job-Adds}
use nginx_atlas.Lifecycle.Extends.{
  Distinct, Extends, ExtendsAt-later, ExtendsAt-refl, ExtendsAt-trans,
}
use nginx_atlas.Lifecycle.Maintenance.{ExtendsAt-Sound}
use nginx_atlas.Model.{Job, Node, State, is_revoked, update_atlas, zero_node}
use nginx_atlas.Prelude.{
  Bool-cases, List, Option, Text, [], arith, bytes, if◌then◌else◌, inl, inr, le_refl, leb, length,
  lookup, none, some, subst, value_or, ℕ, ◌+◌, ◌∷◌, ◌≡◌,
}
use nginx_atlas.Release.{ReleaseAsset, ReleaseBundle}
use nginx_atlas.Removal.{is_live_node}
use nginx_atlas.Scheduler.{Config}

module _ (to_lower : Text → Text) (env : Env) (release : ReleaseBundle) where
  queue_atlas_update-Extends :
      (asset : ReleaseAsset) (node_id : Text) (w w' : World) (job : Job)
      → Sound env w.jobs w.reads
      → queue_atlas_update to_lower env release asset node_id w ≡ ok (job, w')
      → Extends env w w'
  unfolding queue_atlas_update add_audit
  queue_atlas_update-Extends asset node_id w w' job sound e =
      let (sent, f, g) = bind-ok (enqueue_job env node_id [] update_atlas _ w) _ e in
      let (added, gone, there) =
        enqueue_job-Adds env node_id [] update_atlas _ w sent.1 sent.0 sound f in
      subst (λ (q : Job × World). Extends env w q.1) (ok_inj g)
        (ExtendsAt-later (AddsAt-ExtendsAt added) (omega arith))

  commit_node_atlas-Extends :
      (asset : ReleaseAsset) (node_id : Text) (w w' : World) (job : Job)
      → Sound env w.jobs w.reads
      → commit_node_atlas to_lower env release asset node_id w ≡ ok (job, w')
      → Extends env w w'
  unfolding commit_node_atlas
  commit_node_atlas-Extends asset node_id w w' job sound e =
      elim (Bool-cases (is_live_node node_id w)) [
        | inr n ↦ absurd (cc (rw (n, commit_node_atlas) at e))
        | inl t ↦ elim (Bool-cases (has_active_node_job w.jobs node_id update_atlas)) [
          | inl busy ↦ absurd (cc (rw (t, busy, commit_node_atlas) at e))
          | inr idle ↦
              queue_atlas_update-Extends asset node_id w w' job sound
                (rw (t, idle, commit_node_atlas) at e)
        ]
      ]

  pub update_node_atlas-Extends :
      (node_id : Text) (snapshot : State) (w w' : World) (job : Job)
      → Sound env w.jobs w.reads
      → update_node_atlas to_lower env release node_id snapshot w ≡ ok (job, w')
      → Extends env w w'
  unfolding update_node_atlas
  update_node_atlas-Extends node_id snapshot w w' job sound e = go (lookup node_id snapshot.nodes) e
    where
      with_asset :
          (o : Option ReleaseAsset)
          → elim o as (λ x. Result (Job × World)) [
            | none ↦ err (other_error (bytes "unsupported_arch"))
            | some asset ↦ commit_node_atlas to_lower env release asset node_id w
          ]
            ≡ ok (job, w')
          → Extends env w w'
      with_asset none h = absurd (cc)
      with_asset (some asset) h = commit_node_atlas-Extends asset node_id w w' job sound h

      go :
          (o : Option Node)
          → elim o as (λ x. Result (Job × World)) [
            | none ↦ err not_found
            | some node ↦
                if is_revoked node.status
                then err not_found
                else if is_up_to_date release.version node
                then err (other_error (bytes "already_up_to_date"))
                else elim (lookup (normalize_node_arch to_lower node.arch) release.assets)
                    as (λ x. Result (Job × World)) [
                      | none ↦ err (other_error (bytes "unsupported_arch"))
                      | some asset ↦ commit_node_atlas to_lower env release asset node_id w
                    ]
          ]
            ≡ ok (job, w')
          → Extends env w w'
      go none h = absurd (cc)
      go (some node) h = elim (Bool-cases (is_revoked node.status)) [
        | inl t ↦ absurd (cc (rw t at h))
        | inr f ↦ elim (Bool-cases (is_up_to_date release.version node)) [
          | inl t ↦ absurd (cc (rw (f, t) at h))
          | inr g ↦
              with_asset (lookup (normalize_node_arch to_lower node.arch) release.assets)
                (rw (f, g) at h)
        ]
      ]

module _ (to_lower : Text → Text) (env : Env) (apart : Distinct env) (release : ReleaseBundle)
    (freshness limit : ℕ) where
  take_candidate-Extends :
      (node_id : Text) (node : Node) (b b' : UpdateBatch) (w w' : World) (c : Candidate)
      → Sound env w.jobs w.reads
      → take_candidate to_lower env release limit node_id node b w c ≡ ok (b', w')
      → Extends env w w'
  unfolding take_candidate
  take_candidate-Extends node_id node b b' w w' (skips reason) sound e =
      subst (λ (q : UpdateBatch × World). Extends env w q.1) (ok_inj e)
        (ExtendsAt-refl env w.jobs w.reads w.reads sound.keyed (le_refl w.reads))
  take_candidate-Extends node_id node b b' w w' (takes asset) sound e =
      elim (Bool-cases (leb limit (length b.queued_jobs))) [
        | inl full ↦
            subst (λ (q : UpdateBatch × World). Extends env w q.1)
              (ok_inj (rw (full, take_candidate) at e))
              (ExtendsAt-refl env w.jobs w.reads w.reads sound.keyed (le_refl w.reads))
        | inr room ↦
            let (sent, f, g) =
              bind-ok (queue_atlas_update to_lower env release asset node_id w) _
                (rw (room, take_candidate) at e) in
            subst (λ (q : UpdateBatch × World). Extends env w q.1) (ok_inj g)
              (queue_atlas_update-Extends to_lower env release asset node_id w sent.1 sent.0 sound
                f)
      ]

  offer_updates-Extends :
      (node_ids : List Text) (b b' : UpdateBatch) (w w' : World)
      → Sound env w.jobs w.reads
      → offer_updates to_lower env release freshness limit node_ids (b, w) ≡ ok (b', w')
      → Extends env w w'
  unfolding offer_updates offer_update
  offer_updates-Extends [] b b' w w' sound e =
      subst (λ (q : UpdateBatch × World). Extends env w q.1) (ok_inj e)
        (ExtendsAt-refl env w.jobs w.reads w.reads sound.keyed (le_refl w.reads))
  offer_updates-Extends (node_id ∷ rest) b b' w w' sound e =
      let (mid, f, g) =
        bind-ok (offer_update to_lower env release freshness limit node_id (b, w)) _ e in
      let node = value_or zero_node (lookup node_id w.nodes) in
      let w1 = record w { reads = w.reads + 1 } in
      let start = ExtendsAt-refl env w.jobs w.reads (w.reads + 1) sound.keyed (omega arith) in
      let one = ExtendsAt-trans start (
        take_candidate-Extends node_id node b mid.0 w1 mid.1
          (candidate to_lower env release freshness (env.clock w.reads) node_id node w)
          (Sound-later sound (omega arith)) f) in
      ExtendsAt-trans one
        (offer_updates-Extends rest mid.0 b' mid.1 w' (ExtendsAt-Sound apart sound one) g)

pub update_all_nodes_atlas-Extends :
    (to_lower : Text → Text) (env : Env) (apart : Distinct env) (config : Config)
    (release : ReleaseBundle) (w w' : World) (batch : UpdateBatch)
    → Sound env w.jobs w.reads
    → update_all_nodes_atlas to_lower env config release w ≡ ok (batch, w')
    → Extends env w w'
update_all_nodes_atlas-Extends to_lower env apart config release w w' batch sound e =
    offer_updates-Extends to_lower env apart release _ _ _ _ batch w w' sound
      (batch_run to_lower env config release w w' batch e)
