-- ===== src/Lifecycle/Polls.antt =====
-- The jobs under handleAgentPoll.
use nginx_atlas.Agents.{
  agent_poll, awaiting_job, awaiting_job-Held, hand_out, oldest_queued, oldest_queued-Held,
  oldest_running, oldest_running-Held, poll_found, poll_node, redelivered, resume_any, resume_known,
  resume_orphan, seen_node, select_job, start_queued, started,
}
use nginx_atlas.Effects.{Env, World, add_audit, guarded-ok, not_found, ok}
use nginx_atlas.Jobs.Queries.{awaiting_update_confirmation, since}
use nginx_atlas.Lifecycle.Advance.{
  Advances, Keeps, KeepsAt, KeepsAt-advance, KeepsAt-later, KeepsAt-refl, Keyed, MayBecome-refl,
}
use nginx_atlas.Model.{
  Job, JobStatus, Node, Time, failed, is_issue, is_queued, is_revoked, is_running, queued, running,
  succeeded,
}
use nginx_atlas.Prelude.{
  Bool, Bool-cases, Held, Option, Text, [], arith, false, inl, inr, insert, leb, lookup, non_empty,
  none, not, refl, some, subst, true, ◌&&◌, ◌-◌, ◌≡◌, ◌⊎◌,
}
use nginx_atlas.Protocol.{NodeReport}
use nginx_atlas.Updates.{
  finish_update_confirmation, observe_update, reports_expected, unconfirmed_error,
  update_confirmation_timeout, update_observation_delay, update_stable_duration, version_seen_since,
}
use native.Mathlib.Nat.{le_refl}

pub redelivered-Advances :
    (now : Time) (a : Job) → a.status ≡ running → Advances a (redelivered now a)
unfolding redelivered
redelivered-Advances now a r = ground arith

pub started-Advances : (now : Time) (a : Job) → a.status ≡ queued → Advances a (started now a)
unfolding started
started-Advances now a q = ground arith

pub is_running_sound : (s : JobStatus) → is_running s ≡ true → s ≡ running
is_running_sound s h = ground arith

pub is_queued_sound : (s : JobStatus) → is_queued s ≡ true → s ≡ queued
is_queued_sound s h = ground arith

module _ (node_id : Text) (node : Node) (now : Time) (w : World) (keyed : Keyed w.jobs) where
  start_queued-Keeps :
      (o : Option Job) → oldest_queued node_id w ≡ o → Keeps w (start_queued node_id node now w o).0
  unfolding start_queued hand_out
  start_queued-Keeps none e = KeepsAt-refl w.jobs w.reads w.reads keyed (le_refl w.reads)
  start_queued-Keeps (some job) e =
      let (held, test) = oldest_queued-Held node_id w e in
      KeepsAt-advance w.reads job (started now job) keyed held
        (started-Advances now job (is_queued_sound job.status (ground arith)))

  resume_orphan-Keeps :
      (o : Option Job)
      → oldest_running node_id w ≡ o
      → Keeps w (resume_orphan node_id node now w o).0
  unfolding resume_orphan hand_out
  resume_orphan-Keeps none e = start_queued-Keeps (oldest_queued node_id w) refl
  resume_orphan-Keeps (some job) e =
      let (held, test) = oldest_running-Held node_id w e in
      KeepsAt-advance w.reads job (redelivered now job) keyed held
        (redelivered-Advances now job (is_running_sound job.status (ground arith)))

  resume_any-Keeps : Keeps w (resume_any node_id node now w).0
  unfolding resume_any
  resume_any-Keeps = resume_orphan-Keeps (oldest_running node_id w) refl

module _ (node_id : Text) (node : Node) (now : Time) (w : World) (keyed : Keyed w.jobs) where
  resume_known-Keeps :
      (o : Option Job)
      → lookup node.running_job_id w.jobs ≡ o
      → Keeps w (resume_known node_id node now w o).0
  unfolding resume_known
  resume_known-Keeps none e =
      resume_any-Keeps node_id (record node { running_job_id = [] }) now w keyed
  resume_known-Keeps (some job) e =
      elim (Bool-cases (is_running job.status && not (is_issue job.type))) [
        | inl t ↦ rw t (
            KeepsAt-advance w.reads job (redelivered now job) keyed (node.running_job_id, e)
              (redelivered-Advances now job (is_running_sound job.status (ground arith))))
        | inr f ↦ rw f (resume_any-Keeps node_id (record node { running_job_id = [] }) now w keyed)
      ]

  select_job-Keeps : Keeps w (select_job node_id node now w).0
  unfolding select_job
  select_job-Keeps = elim (Bool-cases (non_empty node.running_job_id)) [
    | inl t ↦ rw t (resume_known-Keeps (lookup node.running_job_id w.jobs) refl)
    | inr f ↦ rw f (resume_any-Keeps node_id node now w keyed)
  ]

-- A running job that ends.
ended-Advances :
    (a : Job) (status : JobStatus) (error : Text) (at : Time) (seen : Option Time)
    → a.status ≡ running
    → (status ≡ succeeded) ⊎ (status ≡ failed)
    → Advances a (record a {
      finished_at = some at;
      status = status;
      error = error;
      update_version_seen_at = seen;
    })
ended-Advances a status error at seen live done = ground arith

-- An update that is observed; the job is given with what was seen of its version.
module _ (env : Env) (w : World) (keyed : Keyed w.jobs) (a : Job) (held : Held w.jobs a) where
  finish_seen-Keeps :
      (node : Node) (seen : Option Time) (success : Bool) (now : Time)
      → a.status ≡ running
      → Keeps w
          (finish_update_confirmation env node
            (record a { update_version_seen_at = seen })
            success
            now
            w).0
  unfolding finish_update_confirmation add_audit
  finish_seen-Keeps node seen true now live =
      KeepsAt-later
        (KeepsAt-advance w.reads a
          (record a {
            finished_at = some now;
            status = succeeded;
            error = [];
            update_version_seen_at = seen;
          })
          keyed held (ended-Advances a succeeded [] now seen live (inl refl)))
        (omega arith)
  finish_seen-Keeps node seen false now live =
      let job = record a { update_version_seen_at = seen } in
      KeepsAt-later
        (KeepsAt-advance w.reads a
          (record a {
            finished_at = some now;
            status = failed;
            error = unconfirmed_error env job node;
            update_version_seen_at = seen;
          })
          keyed held
          (ended-Advances a failed (unconfirmed_error env job node) now seen live (inr refl)))
        (omega arith)

  pub finish_update_confirmation-Keeps :
      (node : Node) (success : Bool) (now : Time)
      → a.status ≡ running
      → Keeps w (finish_update_confirmation env node a success now w).0
  finish_update_confirmation-Keeps node success now live =
      finish_seen-Keeps node a.update_version_seen_at success now live

  -- Only what was seen of the version is written.
  noted-Keeps :
      (seen last : Option Time)
      → KeepsAt w.jobs w.reads
          (insert a.id
            (record a { update_version_seen_at = seen; update_last_report_at = last })
            w.jobs)
          w.reads
  noted-Keeps seen last =
      KeepsAt-advance w.reads a
        (record a { update_version_seen_at = seen; update_last_report_at = last }) keyed held
        (ground (arith, MayBecome-refl a.status))

  pub observe_update-Keeps :
      (node : Node) (report : Option NodeReport) (now : Time)
      → a.status ≡ running
      → Keeps w (observe_update env node a report now w).0
  unfolding observe_update
  observe_update-Keeps node none now live =
      elim (Bool-cases (leb update_confirmation_timeout (since now a.update_accepted_at))) [
        | inl t ↦ rw t (
            finish_update_confirmation-Keeps (record node { running_job_id = a.id }) false now live)
        | inr f ↦ rw f (KeepsAt-refl w.jobs w.reads w.reads keyed (le_refl w.reads))
      ]
  observe_update-Keeps node (some r) now live =
      elim (Bool-cases (leb update_confirmation_timeout (since now a.update_accepted_at))) [
        | inl t ↦ rw t (
            finish_update_confirmation-Keeps (record node { running_job_id = a.id }) false now live)
        | inr f ↦ elim (Bool-cases (reports_expected env a r)) [
          | inr wrong ↦ rw (f, wrong) (noted-Keeps none (some now))
          | inl right ↦
              elim (Bool-cases (
                leb update_observation_delay (since now a.update_accepted_at)
                && leb update_stable_duration (now - version_seen_since env a now))) [
                  | inl steady ↦
                      rw (f, right, steady)
                        (finish_seen-Keeps (record node { running_job_id = a.id })
                          (some (version_seen_since env a now)) true now live)
                  | inr unsteady ↦
                      rw (f, right, unsteady)
                        (noted-Keeps (some (version_seen_since env a now)) (some now))
                ]
        ]
      ]

pub awaiting-running : (job : Job) → awaiting_update_confirmation job ≡ true → job.status ≡ running
unfolding awaiting_update_confirmation
awaiting-running job h = ground arith

module _ (env : Env) (node_id : Text) (report : Option NodeReport) (now : Time) (w : World) where
  poll_node-Keeps :
      (node : Node) (o : Option Job)
      → Keyed w.jobs
      → awaiting_job node_id w ≡ o
      → Keeps w (poll_node env node_id report now node w o).0
  unfolding poll_node
  poll_node-Keeps node none keyed e = select_job-Keeps node_id node now w keyed
  poll_node-Keeps node (some job) keyed e =
      let (held, test) = awaiting_job-Held node_id w e in
      observe_update-Keeps env w keyed job held node report now
        (awaiting-running job (ground arith))

  poll_found-Keeps :
      (o : Option Node) (p : World × Option Job)
      → Keyed w.jobs
      → poll_found env node_id report now w o ≡ ok p
      → Keeps w p.0
  unfolding agent_poll
  poll_found-Keeps none p keyed e = cc
  poll_found-Keeps (some node) p keyed e =
      let seen = seen_node report now node in
      subst (λ (q : World × Option Job). Keeps w q.0)
        (guarded-ok (is_revoked node.status) not_found _ e).1
        (poll_node-Keeps seen (awaiting_job node_id w) keyed refl)

-- If every job stands under its id: a poll that is answered adds and loses no job, and each keeps
-- its id, node, domain, type, payload and budget of attempts; a job that is neither queued nor
-- running keeps its status; the attempts do not fall, and stay within the budget, with one left for
-- a queued job, where they were so before.
pub agent_poll-Keeps :
    (env : Env) (node_id : Text) (report : Option NodeReport) (now : Time) (w : World)
    (p : World × Option Job)
    → Keyed w.jobs
    → agent_poll env node_id report now w ≡ ok p
    → Keeps w p.0
unfolding agent_poll
agent_poll-Keeps env node_id report now w p keyed e =
    poll_found-Keeps env node_id report now w (lookup node_id w.nodes) p keyed e
