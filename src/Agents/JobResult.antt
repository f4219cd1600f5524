-- ===== src/Agents/JobResult.antt =====
-- The transaction of handleAgentJobResult. The certificate of the result, if it has one, was
-- prepared before, and request.success is then already false if that failed.
use nginx_atlas.Agents.Complete.{
  complete_successful_job, non_retryable_update_error, note_domain_error,
  restore_failed_domain_deletion,
}
use nginx_atlas.Effects.{
  Env, Result, World, add_audit, conflict, err, ok, other_error, put_job, put_node, ◌>>=◌,
}
use nginx_atlas.Jobs.Queries.{awaiting_update_confirmation}
use nginx_atlas.Model.{
  Certificate, Job, Node, Time, failed, is_queued, is_running, is_update_atlas, queued, succeeded,
  zero_node,
}
use nginx_atlas.Prelude.{
  Option, Text, [], bytes, if◌then◌else◌, lookup, ltb, non_empty, none, not, some, trim_space,
  value_or, ◌&&◌, ◌==◌, ◌||◌, ◌∷◌,
}
use nginx_atlas.Protocol.{JobResultRequest}
use nginx_atlas.Reports.{safe_job_message, truncate}

-- The job of a failed result: queued again while attempts are left.
unfoldable pub failed_job : Job → Text → Time → Job
failed_job current message now =
    let noted = record current { error = truncate message 2048 } in
    if ltb noted.attempts noted.max_attempts && not (non_retryable_update_error noted)
    then record noted { status = queued; queued_at = some now; started_at = none }
    else record noted { status = failed; finished_at = some now }

module _ (env : Env) where
  -- An update was accepted: it stays running until its version is confirmed.
  unfoldable pub accept_update : Text → Job → Node → Time → World → Result World
  accept_update node_id current node now w = elim (env.decode_atlas current.payload) [
    | none ↦ err (other_error (bytes "update job has no expected version"))
    | some payload ↦
        if non_empty (trim_space payload.expected_version)
        then ok (
            add_audit env (bytes "info") (bytes "job.update.pending") (bytes "更新文件已就绪，等待节点版本稳定确认")
              (node_id ∷ current.domain_id ∷ current.id ∷ [])
              (put_node node_id
                (record node { running_job_id = current.id; last_seen_at = some now })
                (put_job current.id (record current { update_accepted_at = some now; error = [] })
                  w)))
        else err (other_error (bytes "update job has no expected version"))
  ]

  -- The job succeeded. The completion sees the job as it is written at the end.
  unfoldable pub succeed :
      Text → Job → Node → JobResultRequest → Option Certificate → Time → World → Result World
  succeed node_id current node request prepared now w =
      let done = record current { status = succeeded; error = []; finished_at = some now } in
      let idle = record node { running_job_id = []; last_seen_at = some now } in
      do
        w' ← complete_successful_job env done prepared w
        ok (
            put_node node_id idle (
              put_job done.id done (
                add_audit env (bytes "success") (bytes "job.succeeded")
                  (safe_job_message request.message) (node_id ∷ done.domain_id ∷ done.id ∷ []) w')))

  unfoldable pub fail : Text → Job → Node → Text → Time → World → World
  unfolding failed_job
  fail node_id current node message now w =
      let job = failed_job current message now in
      let idle = record node {
        running_job_id = [];
        last_seen_at = some now;
        last_error = job.error;
      } in
      let references = node_id ∷ job.domain_id ∷ job.id ∷ [] in
      let retried =
        add_audit env (bytes "warning") (bytes "job.retry") (bytes "任务失败，已安排自动重试") references w in
      let lost =
        add_audit env (bytes "error") (bytes "job.failed")
          (if non_retryable_update_error job then bytes "节点更新校验失败，已停止重试" else bytes "任务重试后仍然失败")
          references (restore_failed_domain_deletion job job.error now w) in
      put_node node_id idle (
        put_job job.id job
          (note_domain_error job now (if is_queued job.status then retried else lost)))

  -- The result of a job that is there.
  unfoldable pub take_result :
      Text → JobResultRequest → Option Certificate → Time → World → Job → Result World
  take_result node_id request prepared now w current =
      let node = value_or zero_node (lookup node_id w.nodes) in
      if not (current.node_id == node_id) || not (is_running current.status)
      then err conflict
      else if awaiting_update_confirmation current
      then ok w
      else if request.success && is_update_atlas current.type
      then accept_update node_id current node now w
      else if request.success
      then succeed node_id current node request prepared now w
      else ok (fail node_id current node request.error now w)

  unfoldable pub agent_job_result :
      Text → Text → JobResultRequest → Option Certificate → Time → World → Result World
  unfolding take_result
  agent_job_result node_id job_id request prepared now w = elim (lookup job_id w.jobs) [
    | none ↦ err conflict
    | some current ↦ take_result node_id request prepared now w current
  ]
