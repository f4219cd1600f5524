-- ===== src/Scheduler/Timeouts.antt =====
-- The first loops of runMaintenance: nodes that went silent, jobs that took too long, and
-- enrollments long expired; with nodePollAfter and nodeOfflineAfter of settings.go.
use nginx_atlas.Agents.{note_domain_error, restore_failed_domain_deletion}
use nginx_atlas.Effects.{Env, World, add_audit, put_job, put_node}
use nginx_atlas.Jobs.Queries.{
  awaiting_update_confirmation, job_queue_time, queued_job_timeout, since, timeout_for_job,
}
use nginx_atlas.Model.{
  ControllerSettings, Enrollment, Job, Node, State, Time, failed, hour, is_issue, is_offline,
  is_queued, is_revoked, is_running, node_offline, queued, second, zero_node,
}
use nginx_atlas.Prelude.{
  Bool, List, Text, [], bytes, contains, delete, false, if◌then◌else◌, is_some, keep, leb, lookup,
  ltb, map, none, not, some, true, value_or, values, ℕ, ◌&&◌, ◌*◌, ◌+◌, ◌-◌, ◌/◌, ◌==◌, ◌||◌, ◌∷◌,
}
use nginx_atlas.Removal.{is_live_node}
use nginx_atlas.Reports.{append_status_sample}
use nginx_atlas.Updates.{finish_update_confirmation, update_confirmation_timeout}

-- The part of the configuration of a server that the maintenance reads.
pub record Config : Type 0 where
  pub poll_after : ℕ
  pub offline_after : ℕ

unfoldable pub effective_poll_seconds : Config → ControllerSettings → ℕ
effective_poll_seconds config settings =
    let chosen = settings.node_poll_seconds in
    let seconds = if ltb chosen 10 || ltb 300 chosen then config.poll_after / second else chosen in
    if ltb seconds 10 then 10 else seconds

unfoldable pub node_poll_after : Config → State → ℕ
unfolding effective_poll_seconds
node_poll_after config state = effective_poll_seconds config state.settings * second

unfoldable pub node_offline_after : Config → State → ℕ
unfolding node_poll_after
node_offline_after config state =
    let minimum = 3 * node_poll_after config state + 15 * second in
    if ltb minimum config.offline_after then config.offline_after else minimum

-- Whether a node has been silent for too long.
unfoldable pub is_silent : ℕ → Time → Node → Bool
is_silent limit now node = elim node.last_seen_at [
  | none ↦ true
  | some seen ↦ ltb limit (now - seen)
]

unfoldable pub expire_node : Config → Time → Text → Node → World → World
expire_node config now k node w =
    if not (is_revoked node.status) && is_silent (node_offline_after config w.state) now node
    then put_node k
        (if is_offline node.status
          then node
          else append_status_sample (record node { status = node_offline }) node_offline now)
        w
    else w

-- The nodes that run a job when the loop over the jobs begins.
unfoldable pub running_nodes : World → List Text
running_nodes w =
    map (λ (job : Job). job.node_id)
      (keep (λ job. is_running job.status && not (is_issue job.type)) (values w.jobs))

abbrev pub queue_timeout_error : Text
queue_timeout_error = bytes "node did not pick up the queued task before the timeout"

abbrev pub result_timeout_error : Text
result_timeout_error = bytes "agent did not report a result before the timeout"

-- A job that ran too long: queued again while attempts are left.
unfoldable pub timed_out_job : Time → Job → Job
timed_out_job now job =
    let noted = record job { error = result_timeout_error } in
    if ltb job.attempts job.max_attempts
    then record noted { status = queued; queued_at = some now; started_at = none }
    else record noted { status = failed; finished_at = some now }

-- Its node no longer runs it.
unfoldable pub release_node : Job → World → World
release_node job w = elim (lookup job.node_id w.nodes) [
  | none ↦ w
  | some node ↦
      if node.running_job_id == job.id
      then put_node node.id (record node { running_job_id = [] }) w
      else w
]

module _ (env : Env) where
  -- An update that was accepted fails when its time is up.
  unfoldable pub expire_update : Time → Job → World → World
  expire_update now job w =
      let node = value_or zero_node (lookup job.node_id w.nodes) in
      let (w', node') = finish_update_confirmation env node job false now w in
      if leb update_confirmation_timeout (since now job.update_accepted_at)
      then (if is_some (lookup job.node_id w.nodes) then put_node job.node_id node' w' else w')
      else w

  -- A queued job fails if its node is gone or runs nothing.
  unfoldable pub expire_queued : List Text → Time → Text → Job → World → World
  expire_queued busy now k job w =
      let lost = record job {
        status = failed;
        error = queue_timeout_error;
        finished_at = some now;
      } in
      if not (is_live_node job.node_id w) || not (contains job.node_id busy)
      then add_audit env (bytes "error") (bytes "job.queue.timeout") (bytes "节点未领取任务，排队已结束")
          (job.node_id ∷ job.domain_id ∷ job.id ∷ [])
          (put_job k lost
            (note_domain_error lost now (restore_failed_domain_deletion lost lost.error now w)))
      else w

  unfoldable pub expire_running : Time → Text → Job → World → World
  expire_running now k job w =
      let late = timed_out_job now job in
      let references = job.node_id ∷ job.domain_id ∷ job.id ∷ [] in
      let released = release_node job w in
      let retried =
        add_audit env (bytes "warning") (bytes "job.timeout.retry") (bytes "节点任务超时，已重新排队")
          references released in
      let lost =
        add_audit env (bytes "error") (bytes "job.timeout") (bytes "节点任务多次超时") references
          (restore_failed_domain_deletion late late.error now released) in
      put_job k late (if is_queued late.status then retried else lost)

  -- The body of the loop over the jobs.
  unfoldable pub expire_job : List Text → Time → Text → Job → World → World
  expire_job busy now k job w =
      if is_issue job.type
      then w
      else if awaiting_update_confirmation job
      then expire_update now job w
      else if is_queued job.status && ltb queued_job_timeout (now - job_queue_time job)
      then expire_queued busy now k job w
      else if is_running job.status
          && is_some job.started_at
          && ltb (timeout_for_job job.type) (since now job.started_at)
      then expire_running now k job w
      else w

unfoldable pub expire_enrollment : Time → Text → Enrollment → World → World
expire_enrollment now k enrollment w =
    let s = w.state in
    if ltb (24 * hour) (now - enrollment.expires_at)
    then record w { state = record s { enrollments = delete k s.enrollments } }
    else w
