-- ===== src/Commands/Batch.antt =====
-- A request to update all nodes: how many jobs it queues, for which nodes, and that no other
-- request comes through while they are under way.
use nginx_atlas.Commands.Defs.{latest_atlas_update_jobs, latest_updates}
use nginx_atlas.Commands.Single.{any-values}
use nginx_atlas.Commands.Updates.{
  Candidate, SkippedNodeUpdate, UpdateBatch, any_update, canary_succeeded, candidate,
  candidate_freshness, is_failed_update, is_up_to_date, live_nodes, offer_update, offer_updates,
  queue_atlas_update, skips, sort_nodes, take_candidate, takes, update_all_nodes_atlas,
}
use nginx_atlas.Effects.{
  Env, World, add_audit, bind-ok, conflict, enqueue_job, err, fresh_job, ok, ok_inj,
}
use nginx_atlas.Model.{
  Job, Node, State, Time, is_active, is_online, is_update_atlas, queued, update_atlas, zero_node,
}
use nginx_atlas.Prelude.{
  ==_refl, Bool, Bool-cases, Dict, List, Option, Option-cases, Text, [], any, ap, arith, bytes,
  false, if◌then◌else◌, inl, inr, leb, leb→le, leb→lt, length, lookup, lookup-insert, none, refl,
  some, subst, sym, true, value_or, values, ℕ, ◌&&◌, ◌++◌, ◌+◌, ◌<◌, ◌||◌, ◌∙◌, ◌∷◌, ◌≡◌, ◌≤◌,
}
use nginx_atlas.Protocol.{atlas_spec}
use nginx_atlas.Release.{ReleaseAsset, ReleaseBundle}
use nginx_atlas.Scheduler.{Config}

-- Some update is queued or running.
abbrev pub IsUpdating : World → Type 0
IsUpdating w =
    (k : Text) × (job : Job) × (lookup k w.jobs ≡ some job)
    × (is_update_atlas job.type ≡ true)
    × (is_active job.status ≡ true)

-- A node that may be updated: it is there and online, nginx is well, and it does not run the
-- version, or a later one, yet.
abbrev pub IsCandidate : ReleaseBundle → Text → World → Type 0
IsCandidate release node_id w =
    (node : Node) × (lookup node_id w.nodes ≡ some node)
    × (is_online node.status ≡ true)
    × (node.nginx_healthy ≡ true)
    × (is_up_to_date release.version node ≡ false)

or_assoc : (a b c : Bool) → ((a || b) || c) ≡ (a || (b || c))
or_assoc true b c = refl
or_assoc false b c = refl

-- What queueing the update of a node yields.
pub record Sent (node_id : Text) (w : World) (job : Job) (w' : World) : Type 0 where
  pub at_node : job.node_id ≡ node_id
  pub of_type : job.type ≡ update_atlas
  pub is_new : job.status ≡ queued
  pub nodes : w'.nodes ≡ w.nodes
  pub updating : IsUpdating w'

module _ (to_lower : Text → Text) (env : Env) (release : ReleaseBundle) where
  queue_atlas_update-Sent :
      (asset : ReleaseAsset) (node_id : Text) (w : World) (job : Job) (w' : World)
      → queue_atlas_update to_lower env release asset node_id w ≡ ok (job, w')
      → Sent node_id w job w'
  unfolding queue_atlas_update enqueue_job add_audit
  queue_atlas_update-Sent asset node_id w job w' e =
      let spec = atlas_spec (record {
        download_url = asset.download_url;
        sha256 = asset.sha256;
        expected_version = release.version;
      }) in
      elim (Option-cases (env.fresh_id w.reads (bytes "job"))) [
        | inl n ↦ absurd (cc (rw (n, queue_atlas_update, enqueue_job) at e))
        | inr (id, f) ↦ elim (Option-cases (env.encode spec)) [
          | inl n ↦ absurd (cc (rw (f, n, queue_atlas_update, enqueue_job) at e))
          | inr (payload, g) ↦
              let made = fresh_job id node_id [] update_atlas payload (env.clock (w.reads + 1)) in
              subst (λ (q : Job × World). Sent node_id w q.0 q.1)
                (ok_inj (rw (f, g, queue_atlas_update, enqueue_job) at e))
                (record {
                  at_node = refl;
                  of_type = refl;
                  is_new = refl;
                  nodes = refl;
                  updating =
                      (id, made, rw (lookup-insert id id made w.jobs, ==_refl id) refl, refl, refl);
                })
        ]
      ]

module _ (to_lower : Text → Text) (env : Env) (release : ReleaseBundle) (freshness limit : ℕ) where
  -- What the loop does with a node.
  pub data Offered (node_id : Text) (b : UpdateBatch) (w : World) (b' : UpdateBatch) (w' : World)
      : Type 0 where
    passed_over :
        (skip : SkippedNodeUpdate)
        → b'.queued_jobs ≡ b.queued_jobs
        → b'.skipped ≡ b.skipped ++ skip ∷ []
        → b'.deferred ≡ b.deferred
        → w'.state ≡ w.state
        → Offered node_id b w b' w'
    put_off :
        limit ≤ length b.queued_jobs
        → b'.queued_jobs ≡ b.queued_jobs
        → b'.skipped ≡ b.skipped
        → b'.deferred ≡ b.deferred + 1
        → w'.state ≡ w.state
        → Offered node_id b w b' w'
    sent_to :
        (job : Job)
        → length b.queued_jobs < limit
        → IsCandidate release node_id w
        → Sent node_id w job w'
        → b'.queued_jobs ≡ b.queued_jobs ++ job ∷ []
        → b'.skipped ≡ b.skipped
        → b'.deferred ≡ b.deferred
        → Offered node_id b w b' w'

  candidate_sound :
      (now : Time) (node_id : Text) (w : World) (asset : ReleaseAsset)
      → candidate to_lower env release freshness now node_id
          (value_or zero_node (lookup node_id w.nodes))
          w
        ≡ takes asset
      → IsCandidate release node_id w
  unfolding candidate
  candidate_sound now node_id w asset e = go (lookup node_id w.nodes) refl e
    where
      go :
          (o : Option Node)
          → lookup node_id w.nodes ≡ o
          → candidate to_lower env release freshness now node_id (value_or zero_node o) w
            ≡ takes asset
          → IsCandidate release node_id w
      go none f h = ground arith
      go (some node) f h = (node, f, ground arith, ground arith, ground arith)

  take_candidate-Offered :
      (node_id : Text) (node : Node) (b b' : UpdateBatch) (w w1 w' : World) (c : Candidate)
      → w1.state ≡ w.state
      → ((asset : ReleaseAsset) → c ≡ takes asset → IsCandidate release node_id w)
      → take_candidate to_lower env release limit node_id node b w1 c ≡ ok (b', w')
      → Offered node_id b w b' w'
  unfolding take_candidate
  take_candidate-Offered node_id node b b' w w1 w' (skips reason) same good e =
      let skip : SkippedNodeUpdate = record {
        node_id = node_id;
        name = node.name;
        reason = reason;
      } in
      let done = ok_inj e in
      passed_over skip (ap (λ (q : UpdateBatch × World). q.0.queued_jobs) (sym done))
        (ap (λ (q : UpdateBatch × World). q.0.skipped) (sym done))
        (ap (λ (q : UpdateBatch × World). q.0.deferred) (sym done))
        (ap (λ (q : UpdateBatch × World). q.1.state) (sym done) ∙ same)
  take_candidate-Offered node_id node b b' w w1 w' (takes asset) same good e =
      elim (Bool-cases (leb limit (length b.queued_jobs))) [
        | inl full ↦
            let done = ok_inj (rw (full, take_candidate) at e) in
            put_off (leb→le limit (length b.queued_jobs) full)
              (ap (λ (q : UpdateBatch × World). q.0.queued_jobs) (sym done))
              (ap (λ (q : UpdateBatch × World). q.0.skipped) (sym done))
              (ap (λ (q : UpdateBatch × World). q.0.deferred) (sym done))
              (ap (λ (q : UpdateBatch × World). q.1.state) (sym done) ∙ same)
        | inr room ↦
            let (sent, f, g) =
              bind-ok (queue_atlas_update to_lower env release asset node_id w1) _
                (rw (room, take_candidate) at e) in
            let made =
              queue_atlas_update-Sent to_lower env release asset node_id w1 sent.0 sent.1 f in
            let done = ok_inj g in
            sent_to sent.0 (leb→lt limit (length b.queued_jobs) room) (good asset refl)
              (subst (Sent node_id w sent.0) (ap (λ (q : UpdateBatch × World). q.1) done) (record {
                at_node = made.at_node;
                of_type = made.of_type;
                is_new = made.is_new;
                nodes = made.nodes ∙ ap (λ (t : State). t.nodes) same;
                updating = made.updating;
              }))
              (ap (λ (q : UpdateBatch × World). q.0.queued_jobs) (sym done))
              (ap (λ (q : UpdateBatch × World). q.0.skipped) (sym done))
              (ap (λ (q : UpdateBatch × World). q.0.deferred) (sym done))
      ]

  pub offer_update-Offered :
      (node_id : Text) (b b' : UpdateBatch) (w w' : World)
      → offer_update to_lower env release freshness limit node_id (b, w) ≡ ok (b', w')
      → Offered node_id b w b' w'
  unfolding offer_update
  offer_update-Offered node_id b b' w w' e =
      take_candidate-Offered node_id (value_or zero_node (lookup node_id w.nodes)) b b' w
        (record w { reads = w.reads + 1 }) w' _ refl
        (λ asset f. candidate_sound (env.clock w.reads) node_id w asset f) e

  -- What every node keeps, the loop keeps.
  pub offer_updates_invariant :
      (P : UpdateBatch → World → Type 0)
      → ((node_id : Text) (b b' : UpdateBatch) (w w' : World)
          → Offered node_id b w b' w'
          → P b w
          → P b' w')
      → (node_ids : List Text) (b b' : UpdateBatch) (w w' : World) → P b w
      → offer_updates to_lower env release freshness limit node_ids (b, w) ≡ ok (b', w')
      → P b' w'
  unfolding offer_updates
  offer_updates_invariant P stay [] b b' w w' h e =
      subst (λ (q : UpdateBatch × World). P q.0 q.1) (ok_inj e) h
  offer_updates_invariant P stay (node_id ∷ rest) b b' w w' h e =
      let (mid, f, g) =
        bind-ok (offer_update to_lower env release freshness limit node_id (b, w)) _ e in
      offer_updates_invariant P stay rest mid.0 b' mid.1 w'
        (stay node_id b mid.0 w mid.1 (offer_update-Offered node_id b mid.0 w mid.1 f) h) g

module _ (to_lower : Text → Text) (env : Env) (release : ReleaseBundle) where
  latest_updates-active :
      (version : Text) (jobs : List Job) (latest : Dict Job) (active : Bool)
      → (latest_updates env version jobs latest active).1
        ≡ (active || any (λ job. is_update_atlas job.type && is_active job.status) jobs)
  unfolding latest_updates
  latest_updates-active version [] latest active = ground arith
  latest_updates-active version (job ∷ rest) latest active =
      elim (Bool-cases (is_update_atlas job.type)) [
        | inl t ↦ rw t (
            latest_updates-active version rest _ (active || is_active job.status)
            ∙ or_assoc active (is_active job.status) _)
        | inr f ↦ rw f (latest_updates-active version rest latest active)
      ]

  -- While an update of some node is queued or running, the request is refused as a conflict.
  pub update_all_refused :
      (config : Config) (w : World)
      → IsUpdating w
      → update_all_nodes_atlas to_lower env config release w ≡ err conflict
  unfolding update_all_nodes_atlas latest_atlas_update_jobs
  update_all_refused config w (k, job, e, u, a) =
      let busy : (latest_atlas_update_jobs env w release.version).1 ≡ true =
        latest_updates-active release.version (values w.jobs) [] false
        ∙ any-values (λ job. is_update_atlas job.type && is_active job.status) w.jobs k job e
            (rw (u, a) refl) in
      rw busy refl

module _ (to_lower : Text → Text) (env : Env) (config : Config) (release : ReleaseBundle) where
  pub batch_run :
      (w w' : World) (batch : UpdateBatch)
      → update_all_nodes_atlas to_lower env config release w ≡ ok (batch, w')
      → offer_updates to_lower env release
          (candidate_freshness config w.state)
          (if canary_succeeded to_lower env release.version w then 5 else 1)
          (sort_nodes to_lower w (live_nodes w))
          (record { queued_jobs = []; skipped = []; deferred = 0 }, w)
        ≡ ok (batch, w')
  unfolding update_all_nodes_atlas
  batch_run w w' batch e = elim (Bool-cases ((latest_atlas_update_jobs env w release.version).1)) [
    | inl t ↦ absurd (cc (rw t at e))
    | inr f ↦
        elim (Bool-cases (
          any_update (is_failed_update w release.version)
            (latest_atlas_update_jobs env w release.version).0)) [
              | inl t ↦ absurd (cc (rw (f, t) at e))
              | inr g ↦ rw (f, g) at e
            ]
  ]
