-- ===== src/Scheduler/Maintenance.antt =====
-- runMaintenance.
use nginx_atlas.Effects.{Env, Result, World, range, range_try, ◌>>=◌}
use nginx_atlas.Model.{Time}
use nginx_atlas.Prelude.{keys}
use nginx_atlas.Scheduler.Recovery.{requeue_recoverable_wildcard_syncs}
use nginx_atlas.Scheduler.Renewal.{linked_renewals, renew_certificate, renew_domain}
use nginx_atlas.Scheduler.Timeouts.{
  Config, expire_enrollment, expire_job, expire_node, running_nodes,
}

module _ (env : Env) (config : Config) where
  -- The loops that cannot fail.
  unfoldable pub expire_all : Time → World → World
  expire_all now w0 =
      let w1 = range (λ v. v.nodes) (expire_node config now) (keys w0.nodes) w0 in
      let w2 = range (λ v. v.jobs) (expire_job env (running_nodes w1) now) (keys w1.jobs) w1 in
      range (λ v. v.enrollments) (expire_enrollment now) (keys w2.enrollments) w2

  unfoldable pub run_maintenance : Time → World → Result World
  run_maintenance now w0 = do
    w1 ← requeue_recoverable_wildcard_syncs env (expire_all now w0)
    w2 ← range_try (λ v. v.domains) (renew_domain env now) (keys w1.domains) w1
    range_try (λ v. v.certificates) (renew_certificate env (linked_renewals w2) now)
        (keys w2.certificates) w2
