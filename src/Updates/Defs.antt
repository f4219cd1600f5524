-- ===== src/Updates/Defs.antt =====
-- finishUpdateConfirmation and observeUpdate. The node is the caller's variable: it is returned
-- beside the state, and the caller writes it.
use nginx_atlas.Effects.{Env, World, add_audit, put_job}
use nginx_atlas.Jobs.Queries.{since}
use nginx_atlas.Model.{Job, Node, Time, failed, minute, second, succeeded}
use nginx_atlas.Prelude.{
  Bool, Option, Text, [], bytes, false, if◌then◌else◌, leb, ltb, non_empty, none, some, trim_prefix,
  trim_space, true, ℕ, ◌&&◌, ◌*◌, ◌++◌, ◌-◌, ◌==◌, ◌∷◌,
}
use nginx_atlas.Protocol.{NodeReport}

abbrev pub update_observation_delay : ℕ
update_observation_delay = 3 * minute

abbrev pub update_stable_duration : ℕ
update_stable_duration = 30 * second

abbrev pub update_max_report_gap : ℕ
update_max_report_gap = 30 * second

abbrev pub update_confirmation_timeout : ℕ
update_confirmation_timeout = 30 * minute

-- TrimPrefix(TrimSpace(version), "v")
unfoldable pub bare_version : Text → Text
bare_version version = trim_prefix (bytes "v") (trim_space version)

module _ (env : Env) where
  unfoldable pub unconfirmed_error : Job → Node → Text
  unconfirmed_error job node = elim (env.decode_atlas job.payload) [
    | none ↦ bytes "update confirmation failed: invalid persisted update payload"
    | some payload ↦
        bytes "update activation was not confirmed before timeout (expected "
        ++ payload.expected_version
        ++ bytes ", last reported "
        ++ node.agent_version
        ++ bytes "); inspect agent restart and rollback logs"
  ]

  unfoldable pub finish_update_confirmation : Node → Job → Bool → Time → World → World × Node
  finish_update_confirmation node job success now w =
      let released =
        if node.running_job_id == job.id then record node { running_job_id = [] } else node in
      let done = record job { finished_at = some now; status = succeeded; error = [] } in
      let message = unconfirmed_error job node in
      let lost = record job { finished_at = some now; status = failed; error = message } in
      if success
      then (
        put_job job.id done (
            add_audit env (bytes "success") (bytes "job.succeeded") (bytes "节点更新已通过版本稳定确认")
              (job.node_id ∷ job.domain_id ∷ job.id ∷ []) w),
        released,
      )
      else (
        put_job job.id lost (
            add_audit env (bytes "error") (bytes "job.update.unconfirmed")
              (bytes "节点更新未能确认，可能已回滚；未自动重试") (job.node_id ∷ job.domain_id ∷ job.id ∷ []) w),
        record released { last_error = message },
      )

  -- Whether a report shows the version that the job expects.
  unfoldable pub reports_expected : Job → NodeReport → Bool
  reports_expected job report = elim (env.decode_atlas job.payload) [
    | none ↦ false
    | some payload ↦
        let expected = bare_version payload.expected_version in
        non_empty expected && bare_version report.agent_version == expected
  ]

  -- When the expected version began to be reported without a gap.
  unfoldable pub version_seen_since : Job → Time → Time
  version_seen_since job now = elim job.update_version_seen_at [
    | none ↦ now
    | some seen ↦ elim job.update_last_report_at [
      | none ↦ now
      | some last ↦ if ltb update_max_report_gap (now - last) then now else seen
    ]
  ]

  unfoldable pub observe_update : Node → Job → Option NodeReport → Time → World → World × Node
  observe_update node job report now w =
      let held = record node { running_job_id = job.id } in
      let late = finish_update_confirmation held job false now w in
      if leb update_confirmation_timeout (since now job.update_accepted_at)
      then late
      else elim report [
        | none ↦ (w, held)
        | some r ↦
            let seen = version_seen_since job now in
            let steady = record job { update_version_seen_at = some seen } in
            let confirmed = finish_update_confirmation held steady true now w in
            if reports_expected job r
            then if leb update_observation_delay (since now job.update_accepted_at)
                && leb update_stable_duration (now - seen)
              then confirmed
              else (put_job job.id (record steady { update_last_report_at = some now }) w, held)
            else (
              put_job job.id
                  (record job { update_version_seen_at = none; update_last_report_at = some now })
                  w,
              held,
            )
      ]
