-- ===== src/Scheduler/Recovery.antt =====
-- requeueRecoverableWildcardSyncs. The clock is read for each certificate that is examined; the
-- model reads it once at the start of each round, which no condition before that read can see.
use nginx_atlas.Effects.{Env, Result, World, add_audit, enqueue_job, ok, put_job, range_try, ◌>>=◌}
use nginx_atlas.Jobs.Queries.{
  has_active_certificate_sync, has_any_active_node_job, is_latest_certificate_for_domain,
  supports_wildcard_sync,
}
use nginx_atlas.Model.{
  Certificate, Job, Node, Time, is_failed, is_online, is_sync, sync_certificate,
}
use nginx_atlas.Prelude.{
  Bool, Dict, Text, [], bytes, contains, if◌then◌else◌, is_some, keys, lookup, ltb, non_empty, none,
  not, some, strip_prefix, trim_space, ◌&&◌, ◌+◌, ◌==◌, ◌∷◌,
}
use nginx_atlas.Protocol.{SyncCertificateSpec, sync_spec}

-- The first conditions, on the failed job and on what it carries.
unfoldable pub is_recoverable : Job → Bool
is_recoverable job =
    is_sync job.type
    && is_failed job.status
    && not (non_empty job.retry_of_id)
    && not (non_empty job.retry_job_id)
    && trim_space job.error == bytes "invalid certificate domain: invalid domain"

unfoldable pub is_wildcard : Text → Bool
is_wildcard domain = is_some (strip_prefix (bytes "*.") domain)

-- The node can take the certificate now.
unfoldable pub can_sync : Dict Job → Node → Bool
can_sync jobs node =
    is_online node.status
    && node.nginx_healthy
    && not (has_any_active_node_job jobs node.id)
    && supports_wildcard_sync node.agent_version

module _ (env : Env) where
  -- The certificate is the latest of its domain, valid, and not yet on the node.
  unfoldable pub is_wanted : SyncCertificateSpec → Node → Time → Certificate → World → Bool
  is_wanted spec node now certificate w =
      certificate.domain == spec.domain
      && contains spec.domain certificate.dns_names
      && ltb now certificate.not_after
      && not (contains node.id certificate.deployed_node_ids)
      && is_latest_certificate_for_domain w.certificates certificate
      && not (has_active_certificate_sync env w.jobs node.id certificate.id)

  -- The retry is queued, and the two jobs name each other.
  unfoldable pub requeue_sync :
      Job → SyncCertificateSpec → Node → Certificate → World → Result World
  requeue_sync job spec node certificate w = do
    sent ←
        enqueue_job env node.id job.domain_id sync_certificate
          (sync_spec (record {
            certificate_id = certificate.id;
            domain = certificate.domain;
            reload_nginx = spec.reload_nginx;
          }))
          w
    let retry = sent.0
    ok (
        add_audit env (bytes "info") (bytes "certificate.sync.requeued") (bytes "节点升级后重新安排泛域名证书同步")
          (node.id ∷ job.domain_id ∷ retry.id ∷ [])
          (put_job job.id (record job { retry_job_id = retry.id })
            (put_job retry.id (record retry { retry_of_id = job.id }) sent.1)))

  unfoldable pub recover_sync : Text → Job → World → Result World
  recover_sync k job w0 =
      let now = env.clock w0.reads in
      let w = record w0 { reads = w0.reads + 1 } in
      if is_recoverable job
      then elim (env.decode_sync job.payload) [
        | none ↦ ok w
        | some spec ↦ elim (lookup job.node_id w.nodes) [
          | none ↦ ok w
          | some node ↦ elim (lookup spec.certificate_id w.certificates) [
            | none ↦ ok w
            | some certificate ↦
                if is_wildcard spec.domain
                  && can_sync w.jobs node
                  && is_wanted spec node now certificate w
                then requeue_sync job spec node certificate w
                else ok w
          ]
        ]
      ]
      else ok w

  unfoldable pub requeue_recoverable_wildcard_syncs : World → Result World
  requeue_recoverable_wildcard_syncs w = range_try (λ v. v.jobs) recover_sync (keys w.jobs) w
