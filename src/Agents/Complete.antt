-- ===== src/Agents/Complete.antt =====
-- completeSuccessfulJob, restoreFailedDomainDeletion, nonRetryableUpdateError and failDispatch.
use nginx_atlas.Effects.{
  Env, Result, World, add_audit, decode_error, enqueue_job, err, not_found, ok, other_error,
  put_certificate, put_domain, put_job, put_node, require, ◌>>=◌,
}
use nginx_atlas.Model.{
  Certificate, Domain, Job, JobType, Time, apply_domain, capture_certificate, delete_domain, failed,
  is_delete, is_update_atlas, issue_certificate, source_acme, sync_certificate, zero_certificate,
  zero_job,
}
use nginx_atlas.Prelude.{
  Bool, List, Option, Text, [], bytes, delete, false, if◌then◌else◌, lookup, non_empty, none, not,
  some, true, value_or, ◌&&◌, ◌+◌, ◌==◌, ◌||◌, ◌∷◌,
}
use nginx_atlas.Protocol.{ApplyDomainSpec, apply_spec, sync_spec}
use nginx_atlas.Reports.{append_unique, truncate}

unfoldable pub non_retryable_update_error : Job → Bool
non_retryable_update_error job =
    is_update_atlas job.type
    && (job.error == bytes "controller checksum does not match the trusted release manifest"
        || job.error == bytes "release SHA-256 verification failed")

unfoldable pub restore_found : Text → Time → World → Option Domain → World
restore_found message now w none = w
restore_found message now w (some domain) =
    put_domain domain.id
      (record domain {
        deleting = false;
        enabled = non_empty domain.node_id;
        last_error = truncate message 2048;
        updated_at = now;
      })
      w

unfoldable pub restore_failed_domain_deletion : Job → Text → Time → World → World
restore_failed_domain_deletion job message now w =
    if not (is_delete job.type) || not (non_empty job.domain_id)
    then w
    else restore_found message now w (lookup job.domain_id w.domains)

-- The domain of a job that failed shows its error.
unfoldable pub note_found : Text → Time → World → Option Domain → World
note_found error now w none = w
note_found error now w (some domain) =
    put_domain domain.id (record domain { last_error = error; updated_at = now }) w

unfoldable pub note_domain_error : Job → Time → World → World
note_domain_error job now w = note_found job.error now w (lookup job.domain_id w.domains)

-- certificate := state.Certificates[k], with the node added to those that hold it.
unfoldable pub note_deployed : Text → Time → Certificate → World → World
note_deployed node_id now certificate w =
    put_certificate certificate.id
      (record certificate {
        deployed_node_ids = append_unique certificate.deployed_node_ids node_id;
        updated_at = now;
      })
      w

-- The domain of a configuration that was applied.
unfoldable pub applied_domain : Option Certificate → Time → ApplyDomainSpec → Domain → Domain
applied_domain prepared now spec found = record found {
  certificate_id = elim prepared [ none ↦ found.certificate_id | some c ↦ c.id ];
  custom_config = value_or found.custom_config spec.custom_config;
  enabled = true;
  deleting = false;
  last_error = [];
  updated_at = now;
}

module _ (env : Env) where
  -- A certificate is sent to each of the nodes: the loops of enqueueCertificateSyncJobs, which
  -- passes no domain, and of a domain that was applied.
  unfoldable pub enqueue_sync_jobs : Text → Text → Text → List Text → World → Result World
  enqueue_sync_jobs domain_id certificate_id name [] w = ok w
  enqueue_sync_jobs domain_id certificate_id name (node_id ∷ rest) w =
      enqueue_job env node_id domain_id sync_certificate
        (sync_spec (record { certificate_id = certificate_id; domain = name; reload_nginx = true }))
        w
      >>= λ sent. enqueue_sync_jobs domain_id certificate_id name rest sent.1

  -- An issued certificate is applied to its domain, or sent to the nodes that want it.
  unfoldable pub issue_for_domain : Job → Certificate → Time → World → Result World
  issue_for_domain job prepared now w = do
    domain ← require not_found (lookup job.domain_id w.domains)
    sent ←
        enqueue_job env domain.node_id domain.id apply_domain
          (apply_spec (record {
            domain_id = domain.id;
            custom_config = none;
            certificate_id = prepared.id;
            use_local_certificate = false;
            capture_certificate = false;
            local_certificate_dir = [];
            replace_config_path = [];
          }))
          w
    ok (
        put_domain domain.id
          (record domain {
            certificate_id = prepared.id;
            certificate_mode = source_acme;
            last_error = [];
            last_job_id = sent.0.id;
            updated_at = now;
          })
          sent.1)

  unfoldable pub issue_standalone : Job → Certificate → World → Result World
  issue_standalone job prepared w = do
    spec ← require decode_error (env.decode_issue job.payload)
    enqueue_sync_jobs [] prepared.id prepared.domain
        (if spec.install then append_unique spec.sync_node_ids job.node_id else spec.sync_node_ids)
        w

  unfoldable pub complete_issue : Job → Option Certificate → Time → World → Result World
  complete_issue job none now w = err (other_error (bytes "ACME task returned no certificate"))
  complete_issue job (some prepared) now w =
      if non_empty job.domain_id
      then issue_for_domain job prepared now w
      else issue_standalone job prepared w

  -- The domain of a captured certificate, if it has one, takes the certificate.
  unfoldable pub capture_domain : Job → Certificate → Time → World → Result World
  capture_domain job prepared now w =
      if non_empty job.domain_id
      then (require not_found (lookup job.domain_id w.domains) >>= λ domain. ok (
          put_domain domain.id
            (record domain { certificate_id = prepared.id; last_error = []; updated_at = now }) w))
      else ok w

  unfoldable pub complete_capture : Job → Option Certificate → Time → World → Result World
  complete_capture job none now w = err (other_error (bytes "capture task returned no certificate"))
  complete_capture job (some prepared) now w = do
    spec ← require decode_error (env.decode_capture job.payload)
    w' ← capture_domain job prepared now w
    enqueue_sync_jobs [] prepared.id prepared.domain spec.sync_node_ids w'

  -- The domain is written, and its certificate, if it has one, is noted and sent out.
  unfoldable pub apply_found : Time → Domain → World → Result World
  apply_found now domain w =
      let applied = put_domain domain.id domain w in
      let certificate =
        value_or zero_certificate (lookup domain.certificate_id applied.certificates) in
      if non_empty domain.certificate_id
      then enqueue_sync_jobs domain.id domain.certificate_id domain.name domain.sync_node_ids
          (note_deployed domain.node_id now certificate applied)
      else ok applied

  unfoldable pub complete_apply : Job → Option Certificate → Time → World → Result World
  unfolding apply_found
  complete_apply job prepared now w = do
    found ← require not_found (lookup job.domain_id w.domains)
    spec ← require decode_error (env.decode_apply job.payload)
    apply_found now (applied_domain prepared now spec found) w

  unfoldable pub complete_sync : Job → Time → World → Result World
  complete_sync job now w = do
    spec ← require decode_error (env.decode_sync job.payload)
    ok (elim (lookup spec.certificate_id w.certificates) [
      | none ↦ w
      | some certificate ↦ note_deployed job.node_id now certificate w
    ])

  -- The switch on the type of the job.
  unfoldable pub complete_by_type : JobType → Job → Option Certificate → Time → World → Result World
  complete_by_type issue_certificate job prepared now w = complete_issue job prepared now w
  complete_by_type capture_certificate job prepared now w = complete_capture job prepared now w
  complete_by_type apply_domain job prepared now w = complete_apply job prepared now w
  complete_by_type sync_certificate job prepared now w = complete_sync job now w
  complete_by_type delete_domain job prepared now w =
      let s = w.state in
      ok (record w { state = record s { domains = delete job.domain_id s.domains } })
  complete_by_type _ job prepared now w = ok w

  unfoldable pub complete_successful_job : Job → Option Certificate → World → Result World
  unfolding issue_for_domain issue_standalone complete_issue capture_domain complete_capture
      complete_apply complete_sync complete_by_type
  complete_successful_job job prepared w =
      let now = env.clock w.reads in
      let w1 = record w { reads = w.reads + 1 } in
      complete_by_type job.type job prepared now
        (elim prepared [ none ↦ w1 | some c ↦ put_certificate c.id c w1 ])

  -- The node, if it is there, runs no job.
  unfoldable pub free_node : Text → World → World
  free_node node_id w = elim (lookup node_id w.nodes) [
    | none ↦ w
    | some node ↦ put_node node.id (record node { running_job_id = [] }) w
  ]

  -- failDispatch; its transaction cannot fail.
  unfoldable pub fail_dispatch : Job → Text → World → World
  fail_dispatch job message w0 =
      let now = env.clock w0.reads in
      let w = record w0 { reads = w0.reads + 1 } in
      let current = value_or zero_job (lookup job.id w.jobs) in
      let w1 =
        put_job current.id
          (record current {
            status = failed;
            error = truncate message 2048;
            finished_at = some now;
          })
          w in
      add_audit env (bytes "error") (bytes "job.dispatch.failed") (bytes "任务数据无法安全下发")
        (job.node_id ∷ job.domain_id ∷ job.id ∷ []) (free_node job.node_id w1)
