-- ===== src/Tests/Runs.antt =====
-- Polls, results, enrollments, removals and timeouts at concrete states.
use nginx_atlas.Agents.{
  GoesOut, agent_enroll, agent_enroll_once, agent_job_result, agent_poll, agent_poll-GoesOut,
  agent_poll-awaiting, awaiting_job, find, hand_out, is_agent_job_of, is_usable, matches_token,
  note_domain_error, note_found, oldest_queued, oldest_running, poll_node,
  restore_failed_domain_deletion, resume_any, resume_orphan, seen_node, select_job, start_queued,
  started,
}
use nginx_atlas.Effects.{World, conflict, err, invalid_enrollment, ok, range}
use nginx_atlas.Jobs.Queries.{awaiting_update_confirmation}
use nginx_atlas.Lifecycle.{
  Keeps, agent_job_result_once, agent_poll-Keeps, expire_all-Keeps, revoke_node_state-Keeps,
}
use nginx_atlas.Model.{Job, Node, hour, second, succeeded}
use nginx_atlas.Prelude.{
  List, Option, Text, [], false, insert, keys, lookup, none, refl, some, sym, values, values_at,
  ◌*◌, ◌+◌, ◌==◌, ◌∙◌, ◌∷◌, ◌≡◌, ◌⊎◌,
}
use nginx_atlas.Protocol.{JobResultRequest}
use nginx_atlas.Removal.{
  IsFreeCertificate, IsFreeDomain, IsIdleJob, detach_certificate, detach_certificates,
  detach_domain, detach_domains, detach_job, detach_jobs, lost_job, node_removed_job_error,
  revoke_node_state, revoke_node_state-certificates, revoke_node_state-domains,
  revoke_node_state-idle,
}
use nginx_atlas.Scheduler.{Config, expire_all}
use nginx_atlas.Tests.{
  accepted_job, answer, busy, certificate, decode_hash, domain, enrollment, env, job_a, late, node,
  node_a, now, one_keyed, only_key, queued_job, report, running_job, updating, waiting,
}

abbrev pub polled : World × Option Job
polled = answer (waiting, none) (agent_poll env node_a none now waiting)

agent_poll-Keeps_example : Keeps waiting polled.0
unfolding agent_poll lookup ◌==◌
agent_poll-Keeps_example =
    agent_poll-Keeps env node_a none now waiting polled (one_keyed (λ j. j.id) queued_job) refl

agent_poll-GoesOut_example : GoesOut node_a (started now queued_job) polled.0
unfolding agent_poll lookup ◌==◌ started poll_node awaiting_job find values values_at keys
    awaiting_update_confirmation select_job seen_node resume_any resume_orphan oldest_running
    is_agent_job_of start_queued oldest_queued hand_out
agent_poll-GoesOut_example =
    agent_poll-GoesOut env node_a none now waiting polled.0 (started now queued_job)
      (λ found h job e. cc) refl

abbrev silent : World × Option Job
silent = answer (updating, none) (agent_poll env node_a none late updating)

agent_poll-awaiting_example : silent.1 ≡ none
unfolding agent_poll lookup ◌==◌ awaiting_update_confirmation
agent_poll-awaiting_example =
    agent_poll-awaiting env node_a none late updating silent job_a accepted_job refl refl refl refl

abbrev confirmed_job : Job
confirmed_job = record accepted_job { status = succeeded; finished_at = some late }

abbrev failure : JobResultRequest
failure = record { success = false; message = []; error = []; certificate = none }

abbrev after_failure : World
after_failure = answer busy (agent_job_result env node_a job_a failure none late busy)

agent_job_result_once_example :
    (agent_job_result env node_a job_a failure none late after_failure ≡ err conflict)
    ⊎ (agent_job_result env node_a job_a failure none late after_failure ≡ ok after_failure)
unfolding agent_job_result lookup ◌==◌ awaiting_update_confirmation
agent_job_result_once_example =
    agent_job_result_once env env node_a job_a failure failure none none late late busy
      after_failure (one_keyed (λ j. j.id) running_job) refl

abbrev enrollment_keys : List Text
enrollment_keys = keys waiting.enrollments

abbrev enrolled : World × Node
enrolled =
    answer (waiting, node)
      (agent_enroll decode_hash env enrollment_keys (116 ∷ []) (110 ∷ []) [] report now waiting)

agent_enroll_once_example :
    agent_enroll decode_hash env enrollment_keys (116 ∷ []) (109 ∷ []) [] report late enrolled.0
    ≡ err invalid_enrollment
unfolding agent_enroll lookup ◌==◌ find values values_at keys matches_token is_usable
agent_enroll_once_example =
    agent_enroll_once decode_hash env env enrollment_keys enrollment_keys (116 ∷ []) (110 ∷ []) []
      (109 ∷ []) [] report report now late waiting enrolled.0 enrolled.0 enrolled.1
      (one_keyed (λ e. e.id) enrollment)
      (λ j k a b e f p q.
        sym (only_key enrollment.id enrollment j a e) ∙ only_key enrollment.id enrollment k b f)
      (λ k. refl) refl

abbrev removed : World
removed = revoke_node_state node_a late busy

revoke_node_state-idle_example : IsIdleJob node_a (lost_job node_a late running_job)
unfolding revoke_node_state lookup ◌==◌ detach_jobs range keys detach_certificates detach_domains
    detach_job note_domain_error note_found restore_failed_domain_deletion insert
revoke_node_state-idle_example =
    revoke_node_state-idle node_a late busy job_a (lost_job node_a late running_job) refl

revoke_node_state-domains_example : IsFreeDomain node_a (record (detach_domain node_a late domain) {
  last_error = node_removed_job_error;
  updated_at = late;
})
unfolding revoke_node_state lookup ◌==◌ detach_jobs range keys detach_certificates detach_domains
    detach_job note_domain_error note_found restore_failed_domain_deletion insert detach_domain
revoke_node_state-domains_example =
    revoke_node_state-domains node_a late busy domain.id
      (record (detach_domain node_a late domain) {
        last_error = node_removed_job_error;
        updated_at = late;
      })
      refl

revoke_node_state-certificates_example :
    IsFreeCertificate node_a (detach_certificate node_a certificate)
unfolding revoke_node_state lookup ◌==◌ detach_jobs range keys detach_certificates detach_domains
    detach_job note_domain_error note_found restore_failed_domain_deletion insert
revoke_node_state-certificates_example =
    revoke_node_state-certificates node_a late busy certificate.id
      (detach_certificate node_a certificate) refl

revoke_node_state-Keeps_example : Keeps busy removed
revoke_node_state-Keeps_example =
    revoke_node_state-Keeps node_a late busy (one_keyed (λ j. j.id) running_job)

abbrev config : Config
config = record { poll_after = 15 * second; offline_after = 90 * second }

expire_all-Keeps_example : Keeps busy (expire_all env config (now + hour) busy)
expire_all-Keeps_example =
    expire_all-Keeps env config (now + hour) busy (one_keyed (λ j. j.id) running_job)
