-- ===== src/Agents/Frames.antt =====
-- What the notes on a domain leave alone.
use nginx_atlas.Agents.Complete.{
  note_domain_error, note_found, restore_failed_domain_deletion, restore_found,
}
use nginx_atlas.Effects.{World}
use nginx_atlas.Model.{Job, Time}
use nginx_atlas.Prelude.{Text, arith, ◌≡◌}

module _ (job : Job) (message : Text) (now : Time) (w : World) where
  pub restore_failed_domain_deletion-jobs :
      (restore_failed_domain_deletion job message now w).jobs ≡ w.jobs
  unfolding restore_failed_domain_deletion restore_found
  restore_failed_domain_deletion-jobs = ground arith

  pub restore_failed_domain_deletion-reads :
      (restore_failed_domain_deletion job message now w).reads ≡ w.reads
  unfolding restore_failed_domain_deletion restore_found
  restore_failed_domain_deletion-reads = ground arith

  pub restore_failed_domain_deletion-nodes :
      (restore_failed_domain_deletion job message now w).nodes ≡ w.nodes
  unfolding restore_failed_domain_deletion restore_found
  restore_failed_domain_deletion-nodes = ground arith

module _ (job : Job) (now : Time) (w : World) where
  pub note_domain_error-jobs : (note_domain_error job now w).jobs ≡ w.jobs
  unfolding note_domain_error note_found
  note_domain_error-jobs = ground arith

  pub note_domain_error-reads : (note_domain_error job now w).reads ≡ w.reads
  unfolding note_domain_error note_found
  note_domain_error-reads = ground arith

  pub note_domain_error-nodes : (note_domain_error job now w).nodes ≡ w.nodes
  unfolding note_domain_error note_found
  note_domain_error-nodes = ground arith
