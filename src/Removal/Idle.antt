-- ===== src/Removal/Idle.antt =====
-- The jobs of a node that was removed.
use nginx_atlas.Agents.{
  note_domain_error-jobs, note_domain_error-reads, restore_failed_domain_deletion,
  restore_failed_domain_deletion-jobs, restore_failed_domain_deletion-reads,
}
use nginx_atlas.Effects.{AllAt, World, not-contains-keys, put_job, put_node, range_all}
use nginx_atlas.Model.{Job, Time, failed, is_active, zero_node}
use nginx_atlas.Prelude.{
  ==_iff, ==_refl, Bool-cases, Text, ap, arith, false, if◌then◌else◌, inl, inr, insert, keys,
  lookup, lookup-insert, some, some_inj, subst, sym, true, value_or, ◌&&◌, ◌==◌, ◌∙◌, ◌≡◌, ◌⊎◌,
}
use nginx_atlas.Removal.Defs.{
  detach_certificates, detach_domains, detach_job, detach_jobs, node_removed_job_error,
  revoke_node_state, revoked_node,
}

-- The job is not a queued or running one of the node.
abbrev pub IsIdleJob : Text → Job → Type 0
IsIdleJob node_id job = (job.node_id == node_id && is_active job.status) ≡ false

module _ (node_id : Text) (now : Time) where
  abbrev pub lost_job : Job → Job
  lost_job job = record job {
    status = failed;
    error = node_removed_job_error;
    finished_at = some now;
  }

  pub detach_job-jobs :
      (k : Text) (job : Job) (w : World)
      → (detach_job node_id now k job w).jobs ≡ (
          if job.node_id == node_id && is_active job.status
          then insert k (lost_job job) w.jobs
          else w.jobs)
  unfolding detach_job
  detach_job-jobs k job w =
      let lost = lost_job job in
      ground (
        arith,
        note_domain_error-jobs lost now
            (restore_failed_domain_deletion lost lost.error now (put_job k lost w)),
        restore_failed_domain_deletion-jobs lost lost.error now (put_job k lost w),
      )

  pub detach_job-reads :
      (k : Text) (job : Job) (w : World) → (detach_job node_id now k job w).reads ≡ w.reads
  unfolding detach_job
  detach_job-reads k job w =
      let lost = lost_job job in
      ground (
        arith,
        note_domain_error-reads lost now
            (restore_failed_domain_deletion lost lost.error now (put_job k lost w)),
        restore_failed_domain_deletion-reads lost lost.error now (put_job k lost w),
      )

  abbrev IdleAt : Text → World → Type 0
  IdleAt j w = (job : Job) → lookup j w.jobs ≡ some job → IsIdleJob node_id job

  lost_job-idle : (job : Job) → IsIdleJob node_id (lost_job job)
  lost_job-idle job = ground arith

  -- What stands at a key after a round.
  detach_job-IdleAt :
      (j k : Text) (v : Job) (w : World)
      → lookup k w.jobs ≡ some v
      → IdleAt j w ⊎ ((k == j) ≡ true)
      → IdleAt j (detach_job node_id now k v w)
  detach_job-IdleAt j k v w e h job f =
      round h (Bool-cases (v.node_id == node_id && is_active v.status)) (Bool-cases (k == j))
        (ap (lookup j) (sym (detach_job-jobs k v w)) ∙ f)
    where
      round :
          IdleAt j w ⊎ ((k == j) ≡ true)
          → ((v.node_id == node_id && is_active v.status) ≡ true)
            ⊎ ((v.node_id == node_id && is_active v.status) ≡ false)
          → ((k == j) ≡ true) ⊎ ((k == j) ≡ false)
          → lookup j (
              if v.node_id == node_id && is_active v.status
              then insert k (lost_job v) w.jobs
              else w.jobs)
            ≡ some job
          → IsIdleJob node_id job
      round h (inl t) (inl same) p =
          subst (IsIdleJob node_id)
            (some_inj (rw (t, lookup-insert k j (lost_job v) w.jobs, same) at p)) (lost_job-idle v)
      round (inl g) (inl t) (inr other) p =
          g job (rw (t, lookup-insert k j (lost_job v) w.jobs, other) at p)
      round (inr same) (inl t) (inr other) p = absurd (cc (same, other))
      round (inl g) (inr n) c p = g job (rw n at p)
      round (inr same) (inr n) c p =
          subst (IsIdleJob node_id)
            (some_inj (sym e ∙ ap (λ x. lookup x w.jobs) ((==_iff k j).0 same) ∙ (rw n at p))) n

  pub detach_jobs-idle : (w : World) → AllAt (IsIdleJob node_id) (detach_jobs node_id now w).jobs
  unfolding detach_jobs
  detach_jobs-idle w k job e =
      range_all (λ u. u.jobs) (detach_job node_id now) IdleAt
        (λ j v u h. detach_job-IdleAt j j v u h (inr (==_refl j))) (λ j u h v g. absurd (cc (h, g)))
        (λ j i v u h g. detach_job-IdleAt j i v u h (inl g)) (keys w.jobs) w
        (λ j h v g. absurd (cc (not-contains-keys j w.jobs h, g))) k job e

-- After the removal of a node none of its jobs is queued or running.
pub revoke_node_state-idle :
    (node_id : Text) (now : Time) (w : World) (k : Text) (job : Job)
    → lookup k (revoke_node_state node_id now w).jobs ≡ some job
    → IsIdleJob node_id job
unfolding revoke_node_state
revoke_node_state-idle node_id now w k job =
    let node = value_or zero_node (lookup node_id w.nodes) in
    detach_jobs-idle node_id now
      (detach_certificates node_id
        (detach_domains node_id now (put_node node_id (revoked_node now node) w)))
      k job
