-- ===== src/Effects/Enqueue.antt =====
-- enqueueJob of internal/server/admin.go.
use nginx_atlas.Effects.Environment.{Env, Result, encode_error, id_error, ok, require, ◌>>=◌}
use nginx_atlas.Effects.Worlds.{World, put_job}
use nginx_atlas.Model.{Job, JobType, Time, queued}
use nginx_atlas.Prelude.{Text, [], bytes, none, some, ◌+◌}
use nginx_atlas.Protocol.{JobSpec}

-- The job that enqueueJob builds.
abbrev pub fresh_job : Text → Text → Text → JobType → Text → Time → Job
fresh_job job_id node_id domain_id job_type payload now = record {
  id = job_id;
  node_id = node_id;
  domain_id = domain_id;
  type = job_type;
  status = queued;
  payload = payload;
  attempts = 0;
  max_attempts = 3;
  error = [];
  created_at = now;
  queued_at = some now;
  started_at = none;
  finished_at = none;
  retry_of_id = [];
  retry_job_id = [];
  update_accepted_at = none;
  update_version_seen_at = none;
  update_last_report_at = none;
}

module _ (env : Env) where
  unfoldable pub enqueue_job : Text → Text → JobType → JobSpec → World → Result (Job × World)
  enqueue_job node_id domain_id job_type spec w = do
    job_id ← require id_error (env.fresh_id w.reads (bytes "job"))
    payload ← require encode_error (env.encode spec)
    let job = fresh_job job_id node_id domain_id job_type payload (env.clock (w.reads + 1))
    ok (job, put_job job.id job (record w { reads = w.reads + 2 }))
