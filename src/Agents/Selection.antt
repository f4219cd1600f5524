-- ===== src/Agents/Selection.antt =====
-- What holds of the job that a poll hands out.
use nginx_atlas.Agents.Choose.{oldest_queued-Held, oldest_running-Held}
use nginx_atlas.Agents.Dispatch.{
  awaiting_job, find, is_agent_job_of, oldest_queued, oldest_running, redelivered, started,
}
use nginx_atlas.Agents.Poll.{
  Polled, agent_poll, hand_out, poll_found, poll_node, resume_any, resume_known, resume_orphan,
  seen_node, select_job, start_queued,
}
use nginx_atlas.Effects.{Env, World, guarded-ok, not_found, ok}
use nginx_atlas.Jobs.Queries.{awaiting_update_confirmation}
use nginx_atlas.Model.{Job, Node, Time, is_issue, is_revoked, is_running, running}
use nginx_atlas.Prelude.{
  ==_iff, ==_refl, All, All-lookup, Bool, Bool-cases, Dict, List, Option, Text, [], arith, false,
  inl, inr, insert, lookup, lookup-insert, non_empty, none, not, refl, some, subst, true, values,
  ◌&&◌, ◌==◌, ◌∷◌, ◌≡◌, ◌≢◌,
}
use nginx_atlas.Protocol.{NodeReport}
use nginx_atlas.Reports.{append_status_sample, apply_node_report}

-- The node's own entry names a job of the node, if it names one at all.
abbrev pub OwnsRunning : Text → Node → Dict Job → Type 0
OwnsRunning node_id node m =
    (job : Job) → lookup node.running_job_id m ≡ some job → job.node_id ≡ node_id

-- A job that may go out to a node: it is the node's, an agent can execute it, it runs, and the
-- state holds it as it goes out.
pub record GoesOut (node_id : Text) (job : Job) (w : World) : Type 0 where
  pub of_node : job.node_id ≡ node_id
  pub for_agents : is_issue job.type ≡ false
  pub runs : job.status ≡ running
  pub counted : job.started_at ≢ none
  pub stored : lookup job.id w.jobs ≡ some job

abbrev Selects : Text → Polled → Type 0
Selects node_id (w, none) = Unit
Selects node_id (w, some job) = GoesOut node_id job w

is_agent_job_of_sound :
    (node_id : Text) (job : Job)
    → is_agent_job_of node_id job ≡ true
    → (job.node_id ≡ node_id) × (is_issue job.type ≡ false)
unfolding is_agent_job_of
is_agent_job_of_sound node_id job h = ground (arith, ==_iff job.node_id node_id)

lookup_self : (job : Job) (m : Dict Job) → lookup job.id (insert job.id job m) ≡ some job
lookup_self job m = rw (lookup-insert job.id job.id job m, ==_refl job.id)

module _ (node_id : Text) (node : Node) (now : Time) (w : World) where
  start_queued-Selects :
      (o : Option Job)
      → oldest_queued node_id w ≡ o
      → Selects node_id (start_queued node_id node now w o)
  unfolding start_queued hand_out started
  start_queued-Selects none e = tt
  start_queued-Selects (some job) e =
      let (held, test) = oldest_queued-Held node_id w e in
      let (mine, plain) = is_agent_job_of_sound node_id job (ground arith) in
      record {
        of_node = mine;
        for_agents = plain;
        runs = refl;
        counted = λ h. cc;
        stored = lookup_self (started now job) w.jobs;
      }

  resume_orphan-Selects :
      (o : Option Job)
      → oldest_running node_id w ≡ o
      → Selects node_id (resume_orphan node_id node now w o)
  unfolding resume_orphan hand_out redelivered
  resume_orphan-Selects none e = start_queued-Selects (oldest_queued node_id w) refl
  resume_orphan-Selects (some job) e =
      let (held, test) = oldest_running-Held node_id w e in
      let (mine, plain) = is_agent_job_of_sound node_id job (ground arith) in
      record {
        of_node = mine;
        for_agents = plain;
        runs = ground arith;
        counted = λ h. cc;
        stored = lookup_self (redelivered now job) w.jobs;
      }

  resume_any-Selects : Selects node_id (resume_any node_id node now w)
  unfolding resume_any
  resume_any-Selects = resume_orphan-Selects (oldest_running node_id w) refl

module _ (node_id : Text) (node : Node) (now : Time) (w : World) where
  resume_known-Selects :
      (o : Option Job)
      → lookup node.running_job_id w.jobs ≡ o
      → OwnsRunning node_id node w.jobs
      → Selects node_id (resume_known node_id node now w o)
  unfolding resume_known redelivered
  resume_known-Selects none e own =
      resume_any-Selects node_id (record node { running_job_id = [] }) now w
  resume_known-Selects (some job) e own =
      elim (Bool-cases (is_running job.status && not (is_issue job.type))) [
        | inl t ↦ rw t (record {
          of_node = own job e;
          for_agents = ground arith;
          runs = ground arith;
          counted = λ h. cc;
          stored = lookup_self (redelivered now job) w.jobs;
        })
        | inr f ↦ rw f (resume_any-Selects node_id (record node { running_job_id = [] }) now w)
      ]

  select_job-Selects :
      OwnsRunning node_id node w.jobs → Selects node_id (select_job node_id node now w)
  unfolding select_job
  select_job-Selects own = elim (Bool-cases (non_empty node.running_job_id)) [
    | inl t ↦ rw t (resume_known-Selects (lookup node.running_job_id w.jobs) refl own)
    | inr f ↦ rw f (resume_any-Selects node_id node now w)
  ]

seen_node-running :
    (report : Option NodeReport) (now : Time) (node : Node)
    → (seen_node report now node).running_job_id ≡ node.running_job_id
unfolding seen_node append_status_sample apply_node_report
seen_node-running report now node = ground arith

module _ (env : Env) (node_id : Text) (report : Option NodeReport) (now : Time) (w : World) where
  poll_node-Selects :
      (node : Node) (o : Option Job)
      → OwnsRunning node_id node w.jobs
      → Selects node_id (poll_node env node_id report now node w o)
  unfolding poll_node
  poll_node-Selects node none own = select_job-Selects node_id node now w own
  poll_node-Selects node (some job) own = tt

  poll_found-Selects :
      (o : Option Node) (p : Polled)
      → ((node : Node) → o ≡ some node → OwnsRunning node_id node w.jobs)
      → poll_found env node_id report now w o ≡ ok p
      → Selects node_id p
  unfolding poll_found
  poll_found-Selects none p own e = absurd (cc)
  poll_found-Selects (some node) p own e =
      let seen = seen_node report now node in
      subst (Selects node_id) (guarded-ok (is_revoked node.status) not_found _ e).1 (
        poll_node-Selects seen (awaiting_job node_id w)
          (λ job h. own node refl job (rw (seen_node-running report now node) at h)))

-- If the entry of the node names no job of another node, the job that a poll hands out is a job
-- of that node which agents execute; it is running, with a time of its start, and the state holds
-- it just as it goes out.
pub agent_poll-GoesOut :
    (env : Env) (node_id : Text) (report : Option NodeReport) (now : Time) (w w' : World)
    (job : Job)
    → ((node : Node) → lookup node_id w.nodes ≡ some node → OwnsRunning node_id node w.jobs)
    → agent_poll env node_id report now w ≡ ok (w', some job)
    → GoesOut node_id job w'
unfolding agent_poll
agent_poll-GoesOut env node_id report now w w' job own e =
    poll_found-Selects env node_id report now w (lookup node_id w.nodes) (w', some job) own e

find-none : (p : Job → Bool) (xs : List Job) → find p xs ≡ none → All (λ x. p x ≡ false) xs
unfolding find
find-none p [] e = tt
find-none p (x ∷ xs) e = elim (Bool-cases (p x)) [
  | inl t ↦ absurd (cc (rw t at e))
  | inr f ↦ (f, find-none p xs (rw f at e))
]

awaiting_job-some :
    (node_id : Text) (w : World) (k : Text) (job : Job) (o : Option Job)
    → lookup k w.jobs ≡ some job
    → job.node_id ≡ node_id
    → awaiting_update_confirmation job ≡ true
    → awaiting_job node_id w ≡ o
    → o ≢ none
unfolding awaiting_job
awaiting_job-some node_id w k job (some other) e mine waits f = λ h. cc
awaiting_job-some node_id w k job none e mine waits f = absurd (
    cc (
      All-lookup (λ x. (x.node_id == node_id && awaiting_update_confirmation x) ≡ false) w.jobs k
          job (find-none _ (values w.jobs) f) e,
      mine,
      waits,
      ==_refl node_id,
    ))

module _ (env : Env) (node_id : Text) (report : Option NodeReport) (now : Time) (w : World) where
  poll_found-quiet :
      (o : Option Node) (p : Polled) (a : Option Job)
      → awaiting_job node_id w ≡ a
      → a ≢ none
      → poll_found env node_id report now w o ≡ ok p
      → p.1 ≡ none
  unfolding poll_found poll_node
  poll_found-quiet none p a f waits e = absurd (cc)
  poll_found-quiet (some node) p none f waits e = absurd (waits refl)
  poll_found-quiet (some node) p (some job) f waits e =
      let (live, same) = guarded-ok (is_revoked node.status) not_found _ (rw f at e) in cc same

-- While an accepted update of a node waits for its confirmation, a poll of the node hands out no
-- job at all.
pub agent_poll-awaiting :
    (env : Env) (node_id : Text) (report : Option NodeReport) (now : Time) (w : World) (p : Polled)
    (k : Text) (job : Job)
    → lookup k w.jobs ≡ some job
    → job.node_id ≡ node_id
    → awaiting_update_confirmation job ≡ true
    → agent_poll env node_id report now w ≡ ok p
    → p.1 ≡ none
unfolding agent_poll
agent_poll-awaiting env node_id report now w p k job e mine waits f =
    poll_found-quiet env node_id report now w (lookup node_id w.nodes) p (awaiting_job node_id w)
      refl (awaiting_job-some node_id w k job (awaiting_job node_id w) e mine waits refl) f
