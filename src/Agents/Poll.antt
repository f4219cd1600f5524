-- ===== src/Agents/Poll.antt =====
-- The transaction of handleAgentPoll, and reserveNodePoll.
use nginx_atlas.Agents.Dispatch.{awaiting_job, oldest_queued, oldest_running, redelivered, started}
use nginx_atlas.Effects.{Env, Result, World, err, not_found, ok, put_job, put_node}
use nginx_atlas.Model.{
  Job, Node, Time, is_issue, is_online, is_revoked, is_running, node_online, second,
}
use nginx_atlas.Prelude.{
  Dict, Option, Text, [], if◌then◌else◌, insert, lookup, ltb, non_empty, none, not, some, value_or,
  ℕ, ◌&&◌, ◌*◌, ◌+◌, ◌-◌,
}
use nginx_atlas.Protocol.{NodeReport}
use nginx_atlas.Reports.{append_status_sample, apply_node_report}
use nginx_atlas.Updates.{observe_update}

-- What a poll returns: the state, and the job that was selected.
abbrev pub Polled : Type 0
Polled = World × Option Job

-- A job goes out: it is written, the node remembers it, and it is the answer.
unfoldable pub hand_out : Text → Node → Job → World → Polled
hand_out node_id node job w =
    (put_node node_id (record node { running_job_id = job.id }) (put_job job.id job w), some job)

-- The last part: a queued job is started, if no other is running.
unfoldable pub start_queued : Text → Node → Time → World → Option Job → Polled
start_queued node_id node now w none = (put_node node_id node w, none)
start_queued node_id node now w (some job) = hand_out node_id node (started now job) w

-- A job that runs with no node remembering it is handed out again.
unfoldable pub resume_orphan : Text → Node → Time → World → Option Job → Polled
resume_orphan node_id node now w none = start_queued node_id node now w (oldest_queued node_id w)
resume_orphan node_id node now w (some job) = hand_out node_id node (redelivered now job) w

unfoldable pub resume_any : Text → Node → Time → World → Polled
resume_any node_id node now w = resume_orphan node_id node now w (oldest_running node_id w)

-- The job that the node is known to run is handed out again.
unfoldable pub resume_known : Text → Node → Time → World → Option Job → Polled
resume_known node_id node now w none =
    resume_any node_id (record node { running_job_id = [] }) now w
resume_known node_id node now w (some job) =
    let job' = redelivered now job in
    if is_running job.status && not (is_issue job.type)
    then (put_node node_id node (put_job job'.id job' w), some job')
    else resume_any node_id (record node { running_job_id = [] }) now w

unfoldable pub select_job : Text → Node → Time → World → Polled
select_job node_id node now w =
    if non_empty node.running_job_id
    then resume_known node_id node now w (lookup node.running_job_id w.jobs)
    else resume_any node_id node now w

-- The node after its poll is noted.
unfoldable pub seen_node : Option NodeReport → Time → Node → Node
seen_node report now node =
    let seen = record node { status = node_online; last_seen_at = some now } in
    elim report [
      | some r ↦ append_status_sample (apply_node_report seen r) node_online now
      | none ↦ if is_online node.status then seen else append_status_sample seen node_online now
    ]

module _ (env : Env) where
  unfoldable pub poll_node : Text → Option NodeReport → Time → Node → World → Option Job → Polled
  poll_node node_id report now node w none = select_job node_id node now w
  poll_node node_id report now node w (some job) =
      let (w', node') = observe_update env node job report now w in
      (put_node node_id node' w', none)

  unfoldable pub poll_found : Text → Option NodeReport → Time → World → Option Node → Result Polled
  poll_found node_id report now w none = err not_found
  poll_found node_id report now w (some node) =
      if is_revoked node.status
      then err not_found
      else ok (poll_node node_id report now (seen_node report now node) w (awaiting_job node_id w))

  unfoldable pub agent_poll : Text → Option NodeReport → Time → World → Result Polled
  unfolding poll_found
  agent_poll node_id report now w = poll_found node_id report now w (lookup node_id w.nodes)

-- reserveNodePoll: the time from which each node may poll again, and the answer: the time to
-- wait, if the poll is refused. A node that has never polled reads the zero time.
abbrev pub minimum_node_poll_interval : ℕ
minimum_node_poll_interval = 3 * second

unfoldable pub poll_interval : ℕ → ℕ
poll_interval poll_after =
    let interval =
      if ltb poll_after minimum_node_poll_interval
      then minimum_node_poll_interval
      else poll_after in
    if ltb (30 * second) interval then 30 * second else interval

unfoldable pub reserve_node_poll : ℕ → Text → Time → Dict Time → Dict Time × Option ℕ
reserve_node_poll poll_after node_id now next_poll =
    let next = value_or 0 (lookup node_id next_poll) in
    if ltb now next
    then (next_poll, some (next - now))
    else (insert node_id (now + poll_interval poll_after) next_poll, none)
