-- ===== src/Lifecycle/Rounds.antt =====
-- The jobs under revokeNodeState, and under the loops of runMaintenance that end jobs.
use nginx_atlas.Agents.{
  note_domain_error-jobs, note_domain_error-reads, restore_failed_domain_deletion,
  restore_failed_domain_deletion-jobs, restore_failed_domain_deletion-reads,
}
use nginx_atlas.Effects.{
  Env, World, add_audit, put_certificate, put_domain, put_node, range, range_invariant,
}
use nginx_atlas.Jobs.Queries.{
  awaiting_update_confirmation, job_queue_time, queued_job_timeout, since, timeout_for_job,
}
use nginx_atlas.Lifecycle.Advance.{
  Advances, Keeps, KeepsAt, KeepsAt-insert, KeepsAt-later, KeepsAt-refl, KeepsAt-trans, Keyed,
}
use nginx_atlas.Lifecycle.Polls.{awaiting-running, finish_update_confirmation-Keeps}
use nginx_atlas.Model.{
  Enrollment, Job, Node, Time, failed, hour, is_active, is_issue, is_queued, is_revoked, is_running,
  running, zero_node,
}
use nginx_atlas.Prelude.{
  Bool-cases, Dict, List, Text, ap, arith, contains, false, inl, inr, insert, is_some, keys,
  le_refl, leb, lookup, ltb, not, some, subst, sym, true, value_or, ◌&&◌, ◌*◌, ◌-◌, ◌==◌, ◌||◌, ◌∙◌,
  ◌≡◌, ◌≤◌,
}
use nginx_atlas.Removal.{
  detach_certificate, detach_certificates, detach_domain, detach_domains, detach_job,
  detach_job-jobs, detach_job-reads, detach_jobs, is_live_node, lost_job, node_removed_job_error,
  revoke_node_state, revoked_node,
}
use nginx_atlas.Scheduler.{
  Config, expire_all, expire_enrollment, expire_job, expire_node, expire_queued, expire_running,
  expire_update, is_silent, node_offline_after, queue_timeout_error, release_node, running_nodes,
  timed_out_job,
}
use nginx_atlas.Updates.{update_confirmation_timeout}

module _ (k : Text) (job : Job) (w : World) (keyed : Keyed w.jobs)
    (e : lookup k w.jobs ≡ some job) where
  -- A round that leaves the jobs alone, and one that writes the next state of its own job.
  same-Keeps : (u : World) → u.jobs ≡ w.jobs → w.reads ≤ u.reads → Keeps w u
  same-Keeps u f l =
      subst (λ m. KeepsAt w.jobs w.reads m u.reads) (sym f)
        (KeepsAt-refl w.jobs w.reads u.reads keyed l)

  write-Keeps :
      (b : Job) (u : World)
      → Advances job b
      → u.jobs ≡ insert k b w.jobs
      → w.reads ≤ u.reads
      → Keeps w u
  write-Keeps b u step f l =
      subst (λ m. KeepsAt w.jobs w.reads m u.reads) (sym f)
        (KeepsAt-later (KeepsAt-insert w.reads k job b keyed e step) l)

  lost-Advances :
      (error : Text) (at : Time)
      → is_active job.status ≡ true
      → Advances job (record job { status = failed; error = error; finished_at = some at })
  lost-Advances error at h = ground arith

  detach_job-Keeps : (node_id : Text) (now : Time) → Keeps w (detach_job node_id now k job w)
  detach_job-Keeps node_id now =
      elim (Bool-cases (job.node_id == node_id && is_active job.status)) [
        | inl t ↦
            write-Keeps (lost_job node_id now job) (detach_job node_id now k job w)
              (lost-Advances node_removed_job_error now (ground arith))
              (rw t at (detach_job-jobs node_id now k job w))
              (omega (arith, detach_job-reads node_id now k job w))
        | inr f ↦
            same-Keeps (detach_job node_id now k job w)
              (rw f at (detach_job-jobs node_id now k job w))
              (omega (arith, detach_job-reads node_id now k job w))
      ]

  timed_out_job-Advances :
      (now : Time) → job.status ≡ running → Advances job (timed_out_job now job)
  unfolding timed_out_job
  timed_out_job-Advances now live = ground arith

  release_node-jobs : (release_node job w).jobs ≡ w.jobs
  unfolding release_node
  release_node-jobs = ground arith

  release_node-reads : (release_node job w).reads ≡ w.reads
  unfolding release_node
  release_node-reads = ground arith

  module _ (env : Env) (now : Time) where
    expire_queued-Keeps :
        (busy : List Text)
        → is_queued job.status ≡ true
        → Keeps w (expire_queued env busy now k job w)
    unfolding expire_queued add_audit
    expire_queued-Keeps busy live =
        let lost = record job {
          status = failed;
          error = queue_timeout_error;
          finished_at = some now;
        } in
        let restored = restore_failed_domain_deletion lost lost.error now w in
        let noted_jobs =
          note_domain_error-jobs lost now restored
          ∙ restore_failed_domain_deletion-jobs lost lost.error now w in
        let noted_reads =
          note_domain_error-reads lost now restored
          ∙ restore_failed_domain_deletion-reads lost lost.error now w in
        elim (Bool-cases (not (is_live_node job.node_id w) || not (contains job.node_id busy))) [
          | inl t ↦
              write-Keeps lost (expire_queued env busy now k job w)
                (lost-Advances queue_timeout_error now (ground arith))
                (rw t (ap (insert k lost) noted_jobs)) (rw t (omega (arith, noted_reads)))
          | inr f ↦ same-Keeps (expire_queued env busy now k job w) (rw f) (rw f (le_refl w.reads))
        ]

    expire_running-Keeps : job.status ≡ running → Keeps w (expire_running env now k job w)
    unfolding expire_running add_audit
    expire_running-Keeps live =
        let late = timed_out_job now job in
        let released = release_node job w in
        let jobs_same =
          restore_failed_domain_deletion-jobs late late.error now released ∙ release_node-jobs in
        let reads_same =
          restore_failed_domain_deletion-reads late late.error now released ∙ release_node-reads in
        elim (Bool-cases (is_queued late.status)) [
          | inl t ↦
              write-Keeps late (expire_running env now k job w) (timed_out_job-Advances now live)
                (rw t (ap (insert k late) release_node-jobs))
                (rw t (omega (arith, release_node-reads)))
          | inr f ↦
              write-Keeps late (expire_running env now k job w) (timed_out_job-Advances now live)
                (rw f (ap (insert k late) jobs_same)) (rw f (omega (arith, reads_same)))
        ]

    expire_update-Keeps :
        awaiting_update_confirmation job ≡ true → Keeps w (expire_update env now job w)
    unfolding expire_update
    expire_update-Keeps waits =
        let node = value_or zero_node (lookup job.node_id w.nodes) in
        let ended =
          finish_update_confirmation-Keeps env w keyed job (k, e) node false now
            (awaiting-running job waits) in
        elim (Bool-cases (leb update_confirmation_timeout (since now job.update_accepted_at))) [
          | inr f ↦ rw f (KeepsAt-refl w.jobs w.reads w.reads keyed (le_refl w.reads))
          | inl t ↦ elim (Bool-cases (is_some (lookup job.node_id w.nodes))) [
            | inl there ↦ rw (t, there) ended
            | inr gone ↦ rw (t, gone) ended
          ]
        ]

    expire_job-Keeps : (busy : List Text) → Keeps w (expire_job env busy now k job w)
    unfolding expire_job
    expire_job-Keeps busy =
        let same = KeepsAt-refl w.jobs w.reads w.reads keyed (le_refl w.reads) in
        elim (Bool-cases (is_issue job.type)) [
          | inl t ↦ rw t same
          | inr f ↦ elim (Bool-cases (awaiting_update_confirmation job)) [
            | inl t ↦ rw (f, t) (expire_update-Keeps t)
            | inr g ↦
                elim (Bool-cases
                  (is_queued job.status && ltb queued_job_timeout (now - job_queue_time job))) [
                    | inl t ↦ rw (f, g, t) (expire_queued-Keeps busy (ground arith))
                    | inr h ↦
                        elim (Bool-cases (
                          is_running job.status
                          && is_some job.started_at
                          && ltb (timeout_for_job job.type) (since now job.started_at))) [
                            | inl t ↦ rw (f, g, h, t) (expire_running-Keeps (ground arith))
                            | inr i ↦ rw (f, g, h, i) same
                          ]
                  ]
          ]
        ]

-- A loop over the jobs whose rounds keep every job keeps every job; so does one over another map
-- whose rounds leave the jobs alone.
range-Keeps :
    {V : Type 0} (field : World → Dict V) (body : Text → V → World → World)
    → ((k : Text) (v : V) (w : World)
        → Keyed w.jobs
        → lookup k (field w) ≡ some v
        → Keeps w (body k v w))
    → (ks : List Text) (w : World) → Keyed w.jobs
    → Keeps w (range field body ks w)
range-Keeps field body step ks w keyed =
    range_invariant field body (Keeps w)
      (λ k v u e kept. KeepsAt-trans kept (step k v u kept.keyed e)) ks w
      (KeepsAt-refl w.jobs w.reads w.reads keyed (le_refl w.reads))

-- If every job stands under its id: the removal of a node adds and loses no job, and each keeps
-- what identifies it; a job that is neither queued nor running keeps its status; the attempts do not
-- fall, and stay within the budget where they were so before.
pub revoke_node_state-Keeps :
    (node_id : Text) (now : Time) (w : World)
    → Keyed w.jobs
    → Keeps w (revoke_node_state node_id now w)
unfolding revoke_node_state detach_jobs detach_certificates detach_domains
revoke_node_state-Keeps node_id now w keyed =
    let node = value_or zero_node (lookup node_id w.nodes) in
    let w1 = put_node node_id (revoked_node now node) w in
    let w2 = detach_domains node_id now w1 in
    let w3 = detach_certificates node_id w2 in
    let domains_kept =
      range-Keeps (λ u. u.domains) (λ k domain. put_domain k (detach_domain node_id now domain))
        (λ k v u h e. KeepsAt-refl u.jobs u.reads u.reads h (le_refl u.reads)) (keys w1.domains) w1
        keyed in
    let certificates_kept =
      range-Keeps (λ u. u.certificates)
        (λ k certificate. put_certificate k (detach_certificate node_id certificate))
        (λ k v u h e. KeepsAt-refl u.jobs u.reads u.reads h (le_refl u.reads))
        (keys w2.certificates) w2 domains_kept.keyed in
    KeepsAt-trans domains_kept (
      KeepsAt-trans certificates_kept (
        range-Keeps (λ u. u.jobs) (detach_job node_id now)
          (λ k job u h e. detach_job-Keeps k job u h e node_id now) (keys w3.jobs) w3
          certificates_kept.keyed))

expire_node-jobs :
    (config : Config) (now : Time) (k : Text) (node : Node) (w : World)
    → Keyed w.jobs
    → Keeps w (expire_node config now k node w)
unfolding expire_node
expire_node-jobs config now k node w keyed =
    let same = KeepsAt-refl w.jobs w.reads w.reads keyed (le_refl w.reads) in
    elim (Bool-cases
      (not (is_revoked node.status) && is_silent (node_offline_after config w.state) now node)) [
        | inl t ↦ rw t same
        | inr f ↦ rw f same
      ]

expire_enrollment-jobs :
    (now : Time) (k : Text) (enrollment : Enrollment) (w : World)
    → Keyed w.jobs
    → Keeps w (expire_enrollment now k enrollment w)
unfolding expire_enrollment
expire_enrollment-jobs now k enrollment w keyed =
    let same = KeepsAt-refl w.jobs w.reads w.reads keyed (le_refl w.reads) in
    elim (Bool-cases (ltb (24 * hour) (now - enrollment.expires_at))) [
      | inl t ↦ rw t same
      | inr f ↦ rw f same
    ]

-- If every job stands under its id: the timeouts of the maintenance add and lose no job, and each
-- keeps what identifies it; a job that is neither queued nor running keeps its status; the attempts
-- do not fall, and stay within the budget, with one left for a job that is queued again, where they
-- were so before.
pub expire_all-Keeps :
    (env : Env) (config : Config) (now : Time) (w : World)
    → Keyed w.jobs
    → Keeps w (expire_all env config now w)
unfolding expire_all
expire_all-Keeps env config now w keyed =
    let w1 = range (λ v. v.nodes) (expire_node config now) (keys w.nodes) w in
    let w2 = range (λ v. v.jobs) (expire_job env (running_nodes w1) now) (keys w1.jobs) w1 in
    let nodes_kept =
      range-Keeps (λ u. u.nodes) (expire_node config now)
        (λ k v u h e. expire_node-jobs config now k v u h) (keys w.nodes) w keyed in
    let jobs_kept =
      range-Keeps (λ u. u.jobs) (expire_job env (running_nodes w1) now)
        (λ k v u h e. expire_job-Keeps k v u h e env now (running_nodes w1)) (keys w1.jobs) w1
        nodes_kept.keyed in
    KeepsAt-trans nodes_kept (
      KeepsAt-trans jobs_kept (
        range-Keeps (λ u. u.enrollments) (expire_enrollment now)
          (λ k v u h e. expire_enrollment-jobs now k v u h) (keys w2.enrollments) w2
          jobs_kept.keyed))
