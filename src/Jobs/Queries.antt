-- ===== src/Jobs/Queries.antt =====
-- Questions that the controller asks of its jobs and certificates: internal/server/scheduler.go,
-- node_management.go, certificate_sync_recovery.go, update_confirmation.go and admin.go.
use nginx_atlas.Effects.{Env}
use nginx_atlas.Model.{
  Certificate, Domain, Job, JobType, State, Time, is_active, is_delete, is_failed, is_issue,
  is_running, is_same_type, is_sync, is_update_atlas, minute, update_atlas, update_system,
}
use nginx_atlas.Prelude.{
  Bool, Dict, List, Option, Text, [], any, bytes, false, if◌then◌else◌, is_empty, is_some, lookup,
  ltb, nat_eq, none, not, some, value_or, values, ℕ, ◌&&◌, ◌*◌, ◌-◌, ◌==◌, ◌||◌, ◌∷◌,
}
use nginx_atlas.Release.{parse_release_version, version_update_available}

-- now.Sub(t) at an optional time; the callers have tested that it is there.
abbrev pub since : Time → Option Time → ℕ
since now none = 0
since now (some t) = now - t

unfoldable pub awaiting_update_confirmation : Job → Bool
awaiting_update_confirmation job =
    is_update_atlas job.type && is_running job.status && is_some job.update_accepted_at

unfoldable pub job_queue_time : Job → Time
job_queue_time job = value_or job.created_at job.queued_at

abbrev pub running_job_timeout : ℕ
running_job_timeout = 20 * minute

abbrev pub queued_job_timeout : ℕ
queued_job_timeout = 10 * minute

unfoldable pub timeout_for_job : JobType → ℕ
timeout_for_job update_system = 90 * minute
timeout_for_job update_atlas = 30 * minute
timeout_for_job _ = running_job_timeout

unfoldable pub normalize_renew_before_days : ℕ → ℕ
normalize_renew_before_days value = if nat_eq value 0 then 30 else value

unfoldable pub desired_certificate_names : Certificate → List Text
desired_certificate_names certificate =
    if not (is_empty certificate.requested_dns_names)
    then certificate.requested_dns_names
    else if not (is_empty certificate.dns_names)
    then certificate.dns_names
    else certificate.domain ∷ []

unfoldable pub desired_names_for_domain : State → Domain → List Text
unfolding desired_certificate_names
desired_names_for_domain state domain = elim (lookup domain.certificate_id state.certificates) [
  | none ↦ domain.name ∷ []
  | some certificate ↦ desired_certificate_names certificate
]

unfoldable pub has_any_active_node_job : Dict Job → Text → Bool
has_any_active_node_job jobs node_id =
    any (λ job. job.node_id == node_id && is_active job.status) (values jobs)

unfoldable pub has_active_node_job : Dict Job → Text → JobType → Bool
has_active_node_job jobs node_id type =
    any (λ job. job.node_id == node_id && is_same_type job.type type && is_active job.status)
      (values jobs)

unfoldable pub has_active_job : Dict Job → Text → JobType → Bool
has_active_job jobs domain_id type =
    any (λ job. job.domain_id == domain_id && is_same_type job.type type && is_active job.status)
      (values jobs)

unfoldable pub domain_is_deleting : State → Domain → Bool
domain_is_deleting state domain = elim (lookup domain.last_job_id state.jobs) [
  | none ↦ domain.deleting
  | some job ↦ domain.deleting || (is_delete job.type && not (is_failed job.status))
]

unfoldable pub is_latest_certificate_for_domain : Dict Certificate → Certificate → Bool
is_latest_certificate_for_domain certificates certificate = not (
    any
      (λ candidate.
        not (candidate.id == certificate.id)
        && candidate.domain == certificate.domain
        && ltb certificate.created_at candidate.created_at)
      (values certificates))

unfoldable pub supports_wildcard_sync : Text → Bool
supports_wildcard_sync version =
    is_some (parse_release_version version)
    && not (version_update_available version (bytes "0.1.23"))

module _ (env : Env) where
  unfoldable pub has_active_certificate_job : Dict Job → Text → Bool
  has_active_certificate_job jobs certificate_id =
      any
        (λ job. is_issue job.type && is_active job.status && elim (env.decode_issue job.payload) [
          | none ↦ false
          | some spec ↦ spec.certificate_id == certificate_id
        ])
        (values jobs)

  unfoldable pub has_active_certificate_sync : Dict Job → Text → Text → Bool
  has_active_certificate_sync jobs node_id certificate_id =
      any
        (λ job.
          job.node_id == node_id
          && is_sync job.type
          && is_active job.status
          && elim (env.decode_sync job.payload) [
            | none ↦ false
            | some spec ↦ spec.certificate_id == certificate_id
          ])
        (values jobs)
