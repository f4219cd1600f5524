-- ===== src/Lifecycle/Requests.antt =====
-- The jobs under the requests of the administrator, and under what agents ask for but jobs.
use nginx_atlas.Agents.{agent_enroll, find, is_usable, matches_token}
use nginx_atlas.Commands.{check_system_update, queue_system_update, rename_node, update_node_system}
use nginx_atlas.Effects.{Env, World, add_audit, bind-ok, enqueue_job, ok, ok_inj}
use nginx_atlas.Lifecycle.Adds.{AddsAt-ExtendsAt, Sound, enqueue_job-Adds}
use nginx_atlas.Lifecycle.Advance.{Keeps, KeepsAt-later, Keyed}
use nginx_atlas.Lifecycle.Extends.{
  Extends, ExtendsAt-later, ExtendsAt-refl, ExtendsAt-trans, KeepsAt-ExtendsAt,
}
use nginx_atlas.Lifecycle.Rounds.{revoke_node_state-Keeps}
use nginx_atlas.Model.{Job, Node, Time, update_system}
use nginx_atlas.Prelude.{
  Bool-cases, List, Option, Option-cases, Text, [], all, arith, inl, inr, le_refl, lookup, refl,
  subst, values_at, ◌+◌, ◌∷◌, ◌≡◌, ◌≤◌,
}
use nginx_atlas.Protocol.{NodeReport}
use nginx_atlas.Removal.{
  agent_unregister, is_live_node, revoke_each, revoke_node, revoke_node_state, revoke_nodes,
  revoke_noted,
}

module _ (env : Env) where
  kept_by :
      (w w' w'' : World)
      → Keyed w.jobs
      → Keeps w w'
      → w''.jobs ≡ w'.jobs
      → w'.reads ≤ w''.reads
      → Extends env w w''
  kept_by w w' w'' keyed p e l = rw e (KeepsAt-ExtendsAt env (KeepsAt-later p l))

  revoke_noted-Extends :
      (node_id : Text) (now : Time) (w : World)
      → Keyed w.jobs
      → Extends env w (revoke_noted env node_id now w)
  unfolding revoke_noted add_audit
  revoke_noted-Extends node_id now w keyed =
      kept_by w (revoke_node_state node_id now w) (revoke_noted env node_id now w) keyed
        (revoke_node_state-Keeps node_id now w keyed) refl (omega arith)

  pub revoke_node-Extends :
      (node_id : Text) (now : Time) (w w' : World)
      → Keyed w.jobs
      → revoke_node env node_id now w ≡ ok w'
      → Extends env w w'
  unfolding revoke_node
  revoke_node-Extends node_id now w w' keyed e = elim (Bool-cases (is_live_node node_id w)) [
    | inr n ↦ absurd (cc (rw (n, revoke_node) at e))
    | inl t ↦
        subst (Extends env w) (ok_inj (rw (t, revoke_node) at e))
          (revoke_noted-Extends node_id now w keyed)
  ]

  revoke_each-Extends :
      (node_ids : List Text) (now : Time) (w : World)
      → Keyed w.jobs
      → Extends env w (revoke_each env node_ids now w)
  unfolding revoke_each
  revoke_each-Extends [] now w keyed =
      ExtendsAt-refl env w.jobs w.reads w.reads keyed (le_refl w.reads)
  revoke_each-Extends (node_id ∷ rest) now w keyed =
      let one = revoke_noted-Extends node_id now w keyed in
      ExtendsAt-trans one (revoke_each-Extends rest now (revoke_noted env node_id now w) one.keyed)

  pub revoke_nodes-Extends :
      (node_ids : List Text) (now : Time) (w w' : World)
      → Keyed w.jobs
      → revoke_nodes env node_ids now w ≡ ok w'
      → Extends env w w'
  unfolding revoke_nodes
  revoke_nodes-Extends node_ids now w w' keyed e =
      elim (Bool-cases (all (λ node_id. is_live_node node_id w) node_ids)) [
        | inr n ↦ absurd (cc (rw (n, revoke_nodes) at e))
        | inl t ↦
            subst (Extends env w) (ok_inj (rw (t, revoke_nodes) at e))
              (revoke_each-Extends node_ids now w keyed)
      ]

  pub agent_unregister-Extends :
      (node_id : Text) (now : Time) (w w' : World)
      → Keyed w.jobs
      → agent_unregister env node_id now w ≡ ok w'
      → Extends env w w'
  unfolding agent_unregister add_audit
  agent_unregister-Extends node_id now w w' keyed e = elim (Option-cases (lookup node_id w.nodes)) [
    | inl n ↦ absurd (cc (rw (n, agent_unregister) at e))
    | inr (node, f) ↦ subst (Extends env w) (ok_inj (rw (f, agent_unregister) at e)) (
        ExtendsAt-later (KeepsAt-ExtendsAt env (revoke_node_state-Keeps node_id now w keyed))
          (omega arith))
  ]

  pub agent_enroll-Extends :
      (decode_hash : Text → Option Text) (order : List Text) (token_hash node_id secret_hash : Text)
      (report : NodeReport) (now : Time) (w w' : World) (node : Node)
      → Keyed w.jobs
      → agent_enroll decode_hash env order token_hash node_id secret_hash report now w
        ≡ ok (w', node)
      → Extends env w w'
  unfolding agent_enroll add_audit
  agent_enroll-Extends decode_hash order token_hash node_id secret_hash report now w w' node keyed
        e =
      elim (Option-cases
        (find (matches_token decode_hash token_hash) (values_at order w.enrollments))) [
          | inl n ↦ absurd (cc (rw (n, agent_enroll) at e))
          | inr (enrollment, f) ↦ elim (Bool-cases (is_usable decode_hash now enrollment)) [
            | inr n ↦ absurd (cc (rw (f, n, agent_enroll) at e))
            | inl t ↦
                subst (λ (q : World × Node). Extends env w q.0)
                  (ok_inj (rw (f, t, agent_enroll) at e))
                  (ExtendsAt-refl env w.jobs w.reads (w.reads + 2) keyed (omega arith))
          ]
        ]

  pub rename_node-Extends :
      (node_id name : Text) (w w' : World)
      → Keyed w.jobs
      → rename_node env node_id name w ≡ ok w'
      → Extends env w w'
  unfolding rename_node add_audit
  rename_node-Extends node_id name w w' keyed e = elim (Option-cases (lookup node_id w.nodes)) [
    | inl n ↦ absurd (cc (rw (n, rename_node) at e))
    | inr (node, f) ↦
        subst (Extends env w) (ok_inj (rw (f, rename_node) at e))
          (ExtendsAt-refl env w.jobs w.reads (w.reads + 2) keyed (omega arith))
  ]

  pub update_node_system-Extends :
      (node_id : Text) (w w' : World) (job : Job)
      → Sound env w.jobs w.reads
      → update_node_system env node_id w ≡ ok (job, w')
      → Extends env w w'
  unfolding update_node_system queue_system_update add_audit
  update_node_system-Extends node_id w w' job sound e =
      elim (Option-cases (check_system_update node_id w (lookup node_id w.nodes))) [
        | inr (reason, h) ↦ absurd (cc (rw (h, update_node_system) at e))
        | inl h ↦
            let (sent, f, g) =
              bind-ok (enqueue_job env node_id [] update_system _ w) _
                (rw (h, update_node_system, queue_system_update) at e) in
            let (added, gone, there) =
              enqueue_job-Adds env node_id [] update_system _ w sent.1 sent.0 sound f in
            subst (λ (q : Job × World). Extends env w q.1) (ok_inj g)
              (ExtendsAt-later (AddsAt-ExtendsAt added) (omega arith))
      ]
