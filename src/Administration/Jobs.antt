-- ===== src/Administration/Jobs.antt =====
-- The transactions of handleRetryJob and handleClearPendingJobs, and jobNeedsAttention.
use nginx_atlas.Effects.{
  Env, Result, World, add_audit, conflict, err, id_error, not_found, ok, put_domain, put_job,
  put_node, range, require, ◌>>=◌,
}
use nginx_atlas.Model.{Domain, Job, State, Time, is_active, is_delete, is_failed, is_queued, queued}
use nginx_atlas.Prelude.{
  Bool, Dict, List, Option, Text, [], bytes, delete, false, if◌then◌else◌, is_some, keep, keys,
  length, lookup, ltb, non_empty, none, not, some, true, values, ℕ, ◌+◌, ◌==◌, ◌||◌, ◌∷◌,
}
use nginx_atlas.Removal.{is_live_node}
use nginx_atlas.SecureBox.{Box}
use nginx_atlas.Wire.{Coding, build_wire_job}

-- The job that a retry queues, under a new id.
unfoldable pub retried_job : Text → Time → Job → Job
retried_job retry_id now job = record job {
  id = retry_id;
  status = queued;
  attempts = 0;
  max_attempts = if ltb job.max_attempts 1 then 3 else job.max_attempts;
  error = [];
  created_at = now;
  queued_at = some now;
  started_at = none;
  finished_at = none;
  update_accepted_at = none;
  update_version_seen_at = none;
  update_last_report_at = none;
  retry_of_id = job.id;
  retry_job_id = [];
}

unfoldable pub note_retry : Job → Time → World → World
note_retry retried now w = elim (lookup retried.domain_id w.domains) [
  | none ↦ w
  | some found ↦
      let domain = record found { last_job_id = retried.id; last_error = []; updated_at = now } in
      put_domain domain.id
        (if is_delete retried.type
          then record domain { deleting = true; enabled = false }
          else domain)
        w
]

module _ (box : Box) (coding : Coding) (env : Env) where
  unfoldable pub commit_retry : Text → Time → Job → World → Result (Job × World)
  commit_retry retry_id now job w = do
    wired ← build_wire_job box env coding (retried_job retry_id now job) w.state
    let retried = retried_job retry_id now job
    let linked = record job { retry_job_id = retry_id }
    ok (
      retried,
      add_audit env (bytes "warning") (bytes "job.manual-retry") (bytes "失败任务已手动重试")
          (retried.node_id ∷ retried.domain_id ∷ retried.id ∷ [])
          (note_retry retried now (put_job retried.id retried (put_job linked.id linked w))),
    )

  unfoldable pub retry_found : Text → Time → World → Option Job → Result (Job × World)
  retry_found retry_id now w none = err not_found
  retry_found retry_id now w (some job) =
      if not (is_failed job.status) || non_empty job.retry_job_id
      then err conflict
      else if is_live_node job.node_id w
      then commit_retry retry_id now job w
      else err not_found

  -- The id is drawn, and the clock read, before the transaction.
  unfoldable pub retry_job : Text → World → Result (Job × World)
  retry_job job_id w = do
    retry_id ← require id_error (env.fresh_id w.reads (bytes "job"))
    let w1 = record w { reads = w.reads + 2 }
    retry_found retry_id (env.clock (w.reads + 1)) w1 (lookup job_id w.jobs)

unfoldable pub is_pending : Job → Bool
is_pending job = is_queued job.status || is_failed job.status

-- The node no longer runs the job.
unfoldable pub forget_job : Text → Job → World → World
forget_job k job w = elim (lookup job.node_id w.nodes) [
  | none ↦ w
  | some node ↦
      if node.running_job_id == k
      then put_node node.id (record node { running_job_id = [] }) w
      else w
]

abbrev pub remove_job : Text → World → World
remove_job k w = let s = w.state in record w { state = record s { jobs = delete k s.jobs } }

-- The loop over the jobs that are to go, in any order.
unfoldable pub remove_pending : List Text → World → World
remove_pending [] w = w
remove_pending (k ∷ ks) w = remove_pending ks (elim (lookup k w.jobs) [
  | none ↦ w
  | some job ↦ if is_pending job then forget_job k job (remove_job k w) else w
])

-- A domain whose last job was removed. The map holds the jobs as they were.
unfoldable pub release_domain : Dict Job → Time → Domain → Domain
release_domain before now domain = elim (lookup domain.last_job_id before) [
  | none ↦ domain
  | some job ↦
      let released = record domain { last_job_id = []; last_error = []; updated_at = now } in
      if is_pending job
      then (if is_delete job.type
          then record released { deleting = false; enabled = true }
          else released)
      else domain
]

-- How many jobs were removed.
unfoldable pub clear_pending_jobs : Env → Time → World → World × ℕ
clear_pending_jobs env now w =
    let cleared = length (keep is_pending (values w.jobs)) in
    let w1 = remove_pending (keys w.jobs) w in
    let w2 =
      range (λ v. v.domains) (λ k domain. put_domain k (release_domain w.jobs now domain))
        (keys w1.domains) w1 in
    (
      if ltb 0 cleared
          then add_audit env (bytes "warning") (bytes "jobs.cleared") (bytes "排队与失败任务已清除") [] w2
          else w2,
      cleared,
    )

unfoldable pub job_needs_attention : State → Job → Bool
job_needs_attention state job =
    if is_active job.status
    then true
    else if not (is_failed job.status)
    then false
    else if non_empty job.retry_job_id
    then not (is_some (lookup job.retry_job_id state.jobs))
    else true
