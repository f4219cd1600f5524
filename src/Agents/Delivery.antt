-- ===== src/Agents/Delivery.antt =====
-- A poll selects a job whenever there is one that the node may execute.
use nginx_atlas.Agents.Dispatch.{
  awaiting_job, first, insert_by_created, is_agent_job_of, oldest_queued, oldest_running,
  redelivered, sort_by_created, started,
}
use nginx_atlas.Agents.Poll.{
  agent_poll, hand_out, poll_found, poll_node, resume_any, resume_known, resume_orphan, seen_node,
  select_job, start_queued,
}
use nginx_atlas.Effects.{Env, World, ok}
use nginx_atlas.Model.{Job, Node, Time, is_active, is_issue, is_queued, is_revoked, is_running}
use nginx_atlas.Prelude.{
  All, All-lookup, Bool, Bool-cases, Dict, List, Option, Option-cases, Text, [], ap, arith, false,
  inl, inr, keep, lookup, non_empty, none, not, refl, some, true, values, ◌&&◌, ◌∷◌, ◌≡◌, ◌≢◌,
}
use nginx_atlas.Protocol.{NodeReport}

inserted : (job : Job) (xs : List Job) → first (insert_by_created job xs) ≢ none
unfolding insert_by_created
inserted job [] e = absurd (cc (e))
inserted job (y ∷ ys) e = absurd (ground (arith, e))

nothing_kept :
    (p : Job → Bool) (xs : List Job)
    → first (sort_by_created (keep p xs)) ≡ none
    → All (λ x. p x ≡ false) xs
unfolding sort_by_created
nothing_kept p [] e = tt
nothing_kept p (x ∷ xs) e = elim (Bool-cases (p x)) [
  | inl t ↦ absurd (inserted x (sort_by_created (keep p xs)) (rw t at e))
  | inr f ↦ (f, nothing_kept p xs (rw f at e))
]

-- Some of the jobs pass the test, so there is a first one of those that do.
chosen :
    (p : Job → Bool) (m : Dict Job) (k : Text) (job : Job)
    → lookup k m ≡ some job
    → p job ≡ true
    → (found : Job) × (first (sort_by_created (keep p (values m))) ≡ some found)
chosen p m k job e h = elim (Option-cases (first (sort_by_created (keep p (values m))))) [
  | inr q ↦ q
  | inl n ↦ absurd (cc (All-lookup (λ x. p x ≡ false) m k job (nothing_kept p (values m) n) e, h))
]

module _ (node_id : Text) (now : Time) (w : World) (k : Text) (job : Job)
    (held : lookup k w.jobs ≡ some job) (mine : is_agent_job_of node_id job ≡ true)
    (active : is_active job.status ≡ true) where
  start_queued-delivers :
      (node : Node)
      → oldest_running node_id w ≡ none
      → (out : Job) × ((start_queued node_id node now w (oldest_queued node_id w)).1 ≡ some out)
  unfolding oldest_running oldest_queued start_queued hand_out
  start_queued-delivers node idle = elim (Bool-cases (is_running job.status)) [
    | inl t ↦
        let (found, e) =
          chosen (λ j. is_agent_job_of node_id j && is_running j.status) w.jobs k job held
            (rw (mine, t) refl) in
        absurd (cc (e, idle))
    | inr f ↦
        let (found, e) =
          chosen (λ j. is_agent_job_of node_id j && is_queued j.status) w.jobs k job held
            (ground (arith, mine, active, f)) in
        rw e (started now found, refl)
  ]

  resume_any-delivers : (node : Node) → (out : Job) × ((resume_any node_id node now w).1 ≡ some out)
  unfolding resume_any resume_orphan hand_out
  resume_any-delivers node = go (oldest_running node_id w) refl
    where
      go :
          (o : Option Job)
          → oldest_running node_id w ≡ o
          → (out : Job) × ((resume_orphan node_id node now w o).1 ≡ some out)
      go none e = start_queued-delivers node e
      go (some found) e = (redelivered now found, refl)

  select_job-delivers : (node : Node) → (out : Job) × ((select_job node_id node now w).1 ≡ some out)
  unfolding select_job resume_known hand_out
  select_job-delivers node = elim (Bool-cases (non_empty node.running_job_id)) [
    | inr f ↦ rw f (resume_any-delivers node)
    | inl t ↦ rw t (go (lookup node.running_job_id w.jobs))
  ]
    where
      go : (o : Option Job) → (out : Job) × ((resume_known node_id node now w o).1 ≡ some out)
      go none = resume_any-delivers (record node { running_job_id = [] })
      go (some known) = elim (Bool-cases (is_running known.status && not (is_issue known.type))) [
        | inl t ↦ rw t (redelivered now known, refl)
        | inr f ↦ rw f (resume_any-delivers (record node { running_job_id = [] }))
      ]

-- If the node is there and not revoked, no update of it waits for its confirmation, and a job of
-- it that agents execute is queued or running: the transaction of the poll succeeds and selects a
-- job to hand out. Its payload, which is built afterwards, is not part of this.
pub agent_poll_delivers :
    (env : Env) (node_id : Text) (report : Option NodeReport) (now : Time) (w : World) (node : Node)
    (k : Text) (job : Job)
    → lookup node_id w.nodes ≡ some node
    → is_revoked node.status ≡ false
    → awaiting_job node_id w ≡ none
    → lookup k w.jobs ≡ some job
    → is_agent_job_of node_id job ≡ true
    → is_active job.status ≡ true
    → (w' : World) × (out : Job) × (agent_poll env node_id report now w ≡ ok (w', some out))
unfolding agent_poll poll_found poll_node
agent_poll_delivers env node_id report now w node k job there live calm held mine active =
    let (out, e) =
      select_job-delivers node_id now w k job held mine active (seen_node report now node) in
    (
      (select_job node_id (seen_node report now node) now w).0,
      out,
      rw (there, live, calm)
          (ap (λ o. ok ((select_job node_id (seen_node report now node) now w).0, o)) e),
    )
