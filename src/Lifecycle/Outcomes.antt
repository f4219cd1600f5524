-- ===== src/Lifecycle/Outcomes.antt =====
-- The jobs under the result of a job, with the jobs that its completion adds.
use nginx_atlas.Agents.{
  accept_update, agent_job_result, complete_successful_job, fail, failed_job,
  note_domain_error-jobs, note_domain_error-reads, restore_failed_domain_deletion,
  restore_failed_domain_deletion-jobs, restore_failed_domain_deletion-reads, succeed,
}
use nginx_atlas.Effects.{Env, World, add_audit, bind-ok, ok, ok_inj}
use nginx_atlas.Lifecycle.Adds.{AddsAt, AddsAt-ExtendsAt, AddsAt-refl, Sound}
use nginx_atlas.Lifecycle.Advance.{Advances, KeepsAt-advance, Keyed}
use nginx_atlas.Lifecycle.Completion.{complete_successful_job-Adds}
use nginx_atlas.Lifecycle.Extends.{
  Distinct, Extends, ExtendsAt, ExtendsAt-later, ExtendsAt-refl, ExtendsAt-trans, KeepsAt-ExtendsAt,
}
use nginx_atlas.Lifecycle.Results.{Taken, accepts, fails, result_found, succeeds, waits}
use nginx_atlas.Model.{Certificate, Job, Node, Time, is_queued, is_running, succeeded}
use nginx_atlas.Prelude.{
  Bool-cases, Dict, Option, Text, [], ap, arith, inl, inr, insert, le_refl, lookup, some, subst,
  true, ℕ, ◌+◌, ◌∙◌, ◌≡◌, ◌≤◌,
}
use nginx_atlas.Protocol.{JobResultRequest}

module _ (env : Env) (apart : Distinct env) where
  -- A write of the next state of a job over jobs that were added.
  advance_after :
      {m m' : Dict Job} {r r' : ℕ} (r'' : ℕ) (k : Text) (a b : Job)
      → AddsAt env m r m' r'
      → lookup k m ≡ some a
      → a.id ≡ k
      → Advances a b
      → r' ≤ r''
      → ExtendsAt env m r (insert b.id b m') r''
  advance_after {m} {m'} {r} {r'} r'' k a b added e same step l =
      ExtendsAt-later
        (ExtendsAt-trans (AddsAt-ExtendsAt added)
          (KeepsAt-ExtendsAt env (KeepsAt-advance r' a b added.keyed (k, added.same k a e) step)))
        l

  accept_update-jobs :
      (node_id : Text) (current : Job) (node : Node) (now : Time) (w w' : World)
      → accept_update env node_id current node now w ≡ ok w'
      → let job = record current { update_accepted_at = some now; error = [] } in
        (insert job.id job w.jobs ≡ w'.jobs) × (w.reads + 2 ≡ w'.reads)
  unfolding accept_update add_audit
  accept_update-jobs node_id current node now w w' e = (ground (arith, e), ground (arith, e))

  accept_update-Extends :
      (node_id k : Text) (current : Job) (node : Node) (now : Time) (w w' : World)
      → Keyed w.jobs
      → lookup k w.jobs ≡ some current
      → is_running current.status ≡ true
      → accept_update env node_id current node now w ≡ ok w'
      → Extends env w w'
  accept_update-Extends node_id k current node now w w' keyed f live e =
      let job = record current { update_accepted_at = some now; error = [] } in
      let (jobs, reads) = accept_update-jobs node_id current node now w w' e in
      rw (← jobs, ← reads)
        (advance_after (w.reads + 2) k current job
          (AddsAt-refl env w.jobs w.reads w.reads keyed (le_refl w.reads)) f (keyed k current f)
          (ground arith) (omega arith))

  succeed-Extends :
      (node_id k : Text) (current : Job) (node : Node) (request : JobResultRequest)
      (prepared : Option Certificate) (now : Time) (w w' : World)
      → Sound env w.jobs w.reads
      → lookup k w.jobs ≡ some current
      → is_running current.status ≡ true
      → succeed env node_id current node request prepared now w ≡ ok w'
      → Extends env w w'
  unfolding succeed add_audit
  succeed-Extends node_id k current node request prepared now w w' sound f live e =
      let done = record current { status = succeeded; error = []; finished_at = some now } in
      let (mid, h, g) = bind-ok (complete_successful_job env done prepared w) _ e in
      let added = complete_successful_job-Adds env apart done prepared w mid sound h in
      subst (Extends env w) (ok_inj g) (
        advance_after (mid.reads + 2) k current done added f (sound.keyed k current f)
          (ground arith) (omega arith))

  failed_job-Advances :
      (current : Job) (message : Text) (now : Time)
      → is_running current.status ≡ true
      → Advances current (failed_job current message now)
  unfolding failed_job
  failed_job-Advances current message now live = ground arith

  fail-jobs :
      (node_id : Text) (current : Job) (node : Node) (message : Text) (now : Time) (w : World)
      → ((fail env node_id current node message now w).jobs
          ≡ insert (failed_job current message now).id (failed_job current message now) w.jobs)
        × ((fail env node_id current node message now w).reads ≡ w.reads + 2)
  unfolding fail add_audit
  fail-jobs node_id current node message now w =
      let job = failed_job current message now in
      let restored = restore_failed_domain_deletion job job.error now w in
      elim (Bool-cases (is_queued job.status)) [
        | inl t ↦ (
          rw t (ap (insert job.id job) (note_domain_error-jobs job now _)),
          rw t (note_domain_error-reads job now _),
        )
        | inr n ↦ (
          rw n (
              ap (insert job.id job) (
                note_domain_error-jobs job now _
                ∙ restore_failed_domain_deletion-jobs job job.error now w)),
          rw n (
              note_domain_error-reads job now _
              ∙ ap (λ r. r + 2) (restore_failed_domain_deletion-reads job job.error now w)),
        )
      ]

  fail-Extends :
      (node_id k : Text) (current : Job) (node : Node) (message : Text) (now : Time) (w : World)
      → Keyed w.jobs
      → lookup k w.jobs ≡ some current
      → is_running current.status ≡ true
      → Extends env w (fail env node_id current node message now w)
  fail-Extends node_id k current node message now w keyed f live =
      let (jobs, reads) = fail-jobs node_id current node message now w in
      rw (jobs, reads)
        (advance_after (w.reads + 2) k current (failed_job current message now)
          (AddsAt-refl env w.jobs w.reads w.reads keyed (le_refl w.reads)) f (keyed k current f)
          (failed_job-Advances current message now live) (omega arith))

  Taken-Extends :
      (node_id k : Text) (request : JobResultRequest) (prepared : Option Certificate) (now : Time)
      (w w' : World) (current : Job)
      → Sound env w.jobs w.reads
      → lookup k w.jobs ≡ some current
      → Taken env node_id request prepared now w w' current
      → Extends env w w'
  Taken-Extends node_id k request prepared now w w' current sound f (waits a e) =
      subst (Extends env w) e
        (ExtendsAt-refl env w.jobs w.reads w.reads sound.keyed (le_refl w.reads))
  Taken-Extends node_id k request prepared now w w' current sound f (accepts node live u e) =
      accept_update-Extends node_id k current node now w w' sound.keyed f live e
  Taken-Extends node_id k request prepared now w w' current sound f (succeeds node live e) =
      succeed-Extends node_id k current node request prepared now w w' sound f live e
  Taken-Extends node_id k request prepared now w w' current sound f (fails node live s e) =
      subst (Extends env w) e
        (fail-Extends node_id k current node request.error now w sound.keyed f live)

  pub agent_job_result-Extends :
      (node_id job_id : Text) (request : JobResultRequest) (prepared : Option Certificate)
      (now : Time) (w w' : World)
      → Sound env w.jobs w.reads
      → agent_job_result env node_id job_id request prepared now w ≡ ok w'
      → Extends env w w'
  agent_job_result-Extends node_id job_id request prepared now w w' sound e =
      let (current, f, taken) = result_found env node_id job_id request prepared now w w' e in
      Taken-Extends node_id job_id request prepared now w w' current sound f taken
