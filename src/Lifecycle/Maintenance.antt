-- ===== src/Lifecycle/Maintenance.antt =====
-- The jobs under runMaintenance.
use nginx_atlas.Effects.{
  Env, Result, World, add_audit, bind-ok, enqueue_job, ok, ok_inj, range_try, ◌>>=◌,
}
use nginx_atlas.Lifecycle.Adds.{AddsAt-ExtendsAt, Sound, Sound-later, enqueue_job-Adds}
use nginx_atlas.Lifecycle.Advance.{
  KeepsAt-advance, KeepsAt-later, KeepsAt-trans, Keyed, MayBecome-refl,
}
use nginx_atlas.Lifecycle.Extends.{
  Distinct, Extends, ExtendsAt, ExtendsAt-Unused, ExtendsAt-later, ExtendsAt-refl, ExtendsAt-trans,
  KeepsAt-ExtendsAt,
}
use nginx_atlas.Lifecycle.Rounds.{expire_all-Keeps}
use nginx_atlas.Model.{Certificate, Domain, Job, Node, Time, issue_certificate, sync_certificate}
use nginx_atlas.Prelude.{
  ==_iff, Bool, Bool-cases, Dict, List, Option, Option-cases, Text, [], arith, false, if◌then◌else◌,
  inl, inr, insert, keys, le_refl, lookup, lookup-insert, none, refl, some, subst, true, ℕ, ◌+◌,
  ◌∷◌, ◌≡◌,
}
use nginx_atlas.Protocol.{SyncCertificateSpec}
use nginx_atlas.Scheduler.{
  Config, expire_all, is_recoverable, linked_renewals, recover_sync, renew_certificate,
  renew_certificate_now, renew_domain, renew_domain_now, requeue_recoverable_wildcard_syncs,
  requeue_sync, run_maintenance,
}

pub ExtendsAt-Sound :
    {env : Env} {m m' : Dict Job} {r r' : ℕ}
    → Distinct env
    → Sound env m r
    → ExtendsAt env m r m' r'
    → Sound env m' r'
ExtendsAt-Sound apart sound p = record {
  keyed = p.keyed;
  unused = ExtendsAt-Unused p apart sound.unused;
}

module _ (env : Env) (apart : Distinct env) where
  unchanged : (w w' : World) → Keyed w.jobs → ok w ≡ ok w' → Extends env w w'
  unchanged w w' keyed e =
      subst (Extends env w) (ok_inj e)
        (ExtendsAt-refl env w.jobs w.reads w.reads keyed (le_refl w.reads))

  -- A step behind a test.
  guarded :
      (w w' : World)
      → Keyed w.jobs
      → (test : Bool) (step : Result World) → (step ≡ ok w' → Extends env w w')
      → (if test then step else ok w) ≡ ok w'
      → Extends env w w'
  guarded w w' keyed true step h e = h e
  guarded w w' keyed false step h e = unchanged w w' keyed e

  range_try-Extends :
      {V : Type 0} (field : World → Dict V) (body : Text → V → World → Result World)
      → ((k : Text) (v : V) (w w' : World)
          → Sound env w.jobs w.reads
          → lookup k (field w) ≡ some v
          → body k v w ≡ ok w'
          → Extends env w w')
      → (ks : List Text) (w w' : World) → Sound env w.jobs w.reads
      → range_try field body ks w ≡ ok w'
      → Extends env w w'
  unfolding range_try
  range_try-Extends field body step [] w w' sound e = unchanged w w' sound.keyed e
  range_try-Extends {V} field body step (k ∷ ks) w w' sound e =
      round (λ u. range_try-Extends field body step ks u w') (lookup k (field w)) refl e
    where
      round :
          ((u : World)
            → Sound env u.jobs u.reads
            → range_try field body ks u ≡ ok w'
            → Extends env u w')
          → (o : Option V) → lookup k (field w) ≡ o
          → elim o as (λ x. Result World) [
            | none ↦ range_try field body ks w
            | some v ↦ body k v w >>= range_try field body ks
          ]
            ≡ ok w'
          → Extends env w w'
      round ih none f e = ih w sound e
      round ih (some v) f e =
          let (mid, g, h) = bind-ok (body k v w) (range_try field body ks) e in
          let first_step = step k v w mid sound f g in
          ExtendsAt-trans first_step (ih mid (ExtendsAt-Sound apart sound first_step) h)

  renew_domain_now-Extends :
      (now : Time) (k : Text) (domain : Domain) (w w' : World)
      → Sound env w.jobs w.reads
      → renew_domain_now env now k domain w ≡ ok w'
      → Extends env w w'
  unfolding renew_domain_now add_audit
  renew_domain_now-Extends now k domain w w' sound e =
      let (sent, f, g) =
        bind-ok (enqueue_job env domain.node_id domain.id issue_certificate _ w) _ e in
      let (added, gone, there) =
        enqueue_job-Adds env domain.node_id domain.id issue_certificate _ w sent.1 sent.0 sound f in
      subst (Extends env w) (ok_inj g) (ExtendsAt-later (AddsAt-ExtendsAt added) (omega arith))

  renew_domain-Extends :
      (now : Time) (k : Text) (domain : Domain) (w w' : World)
      → Sound env w.jobs w.reads
      → renew_domain env now k domain w ≡ ok w'
      → Extends env w w'
  unfolding renew_domain
  renew_domain-Extends now k domain w w' sound e =
      guarded w w' sound.keyed _ (renew_domain_now env now k domain w)
        (renew_domain_now-Extends now k domain w w' sound) e

  renew_certificate_now-Extends :
      (certificate : Certificate) (w w' : World)
      → Sound env w.jobs w.reads
      → renew_certificate_now env certificate w ≡ ok w'
      → Extends env w w'
  unfolding renew_certificate_now add_audit
  renew_certificate_now-Extends certificate w w' sound e =
      let (sent, f, g) =
        bind-ok (enqueue_job env certificate.issuer_node_id [] issue_certificate _ w) _ e in
      let (added, gone, there) =
        enqueue_job-Adds env certificate.issuer_node_id [] issue_certificate _ w sent.1 sent.0 sound
          f in
      subst (Extends env w) (ok_inj g) (ExtendsAt-later (AddsAt-ExtendsAt added) (omega arith))

  renew_certificate-Extends :
      (linked : List Text) (now : Time) (k : Text) (certificate : Certificate) (w w' : World)
      → Sound env w.jobs w.reads
      → renew_certificate env linked now k certificate w ≡ ok w'
      → Extends env w w'
  unfolding renew_certificate
  renew_certificate-Extends linked now k certificate w w' sound e =
      guarded w w' sound.keyed _ (renew_certificate_now env certificate w)
        (renew_certificate_now-Extends certificate w w' sound) e

  requeue_sync-Extends :
      (k : Text) (job : Job) (spec : SyncCertificateSpec) (node : Node) (certificate : Certificate)
      (w w' : World)
      → Sound env w.jobs w.reads
      → lookup k w.jobs ≡ some job
      → requeue_sync env job spec node certificate w ≡ ok w'
      → Extends env w w'
  unfolding requeue_sync add_audit
  requeue_sync-Extends k job spec node certificate w w' sound held e =
      let (sent, f, g) = bind-ok (enqueue_job env node.id job.domain_id sync_certificate _ w) _ e in
      let (added, gone, there) =
        enqueue_job-Adds env node.id job.domain_id sync_certificate _ w sent.1 sent.0 sound f in
      let retry = record sent.0 { retry_of_id = job.id } in
      let linked =
        KeepsAt-advance sent.1.reads sent.0 retry added.keyed (sent.0.id, there)
          (ground (arith, MayBecome-refl sent.0.status)) in
      let other : lookup k (insert retry.id retry sent.1.jobs) ≡ some job = ground (
        arith,
        lookup-insert retry.id k retry sent.1.jobs,
        added.same k job held,
        ==_iff retry.id k,
      ) in
      let back =
        KeepsAt-advance sent.1.reads job (record job { retry_job_id = retry.id }) linked.keyed
          (k, other) (ground (arith, MayBecome-refl job.status)) in
      subst (Extends env w) (ok_inj g) (
        ExtendsAt-trans (AddsAt-ExtendsAt added)
          (KeepsAt-ExtendsAt env (KeepsAt-later (KeepsAt-trans linked back) (omega arith))))

  recover_sync-Extends :
      (k : Text) (job : Job) (w w' : World)
      → Sound env w.jobs w.reads
      → lookup k w.jobs ≡ some job
      → recover_sync env k job w ≡ ok w'
      → Extends env w w'
  unfolding recover_sync
  recover_sync-Extends k job w w' sound held e =
      let w1 = record w { reads = w.reads + 1 } in
      ExtendsAt-trans (ExtendsAt-refl env w.jobs w.reads (w.reads + 1) sound.keyed (omega arith))
        (elim (Bool-cases (is_recoverable job)) [
          | inr f ↦ unchanged w1 w' sound.keyed (rw (f, recover_sync) at e)
          | inl t ↦ elim (Option-cases (env.decode_sync job.payload)) [
            | inl n ↦ unchanged w1 w' sound.keyed (rw (t, n, recover_sync) at e)
            | inr (spec, f) ↦ elim (Option-cases (lookup job.node_id w.nodes)) [
              | inl n ↦ unchanged w1 w' sound.keyed (rw (t, f, n, recover_sync) at e)
              | inr (node, g) ↦ elim (Option-cases (lookup spec.certificate_id w.certificates)) [
                | inl n ↦ unchanged w1 w' sound.keyed (rw (t, f, g, n, recover_sync) at e)
                | inr (certificate, h) ↦
                    guarded w1 w' sound.keyed _ (requeue_sync env job spec node certificate w1)
                      (requeue_sync-Extends k job spec node certificate w1 w'
                        (Sound-later sound (omega arith)) held)
                      (rw (t, f, g, h, recover_sync) at e)
              ]
            ]
          ]
        ])

  -- The maintenance, whose timeouts keep every job and whose other loops add jobs.
  pub run_maintenance-Extends :
      (config : Config) (now : Time) (w w' : World)
      → Sound env w.jobs w.reads
      → run_maintenance env config now w ≡ ok w'
      → Extends env w w'
  unfolding run_maintenance requeue_recoverable_wildcard_syncs
  run_maintenance-Extends config now w w' sound e =
      let expired = expire_all env config now w in
      let timeouts = KeepsAt-ExtendsAt env (expire_all-Keeps env config now w sound.keyed) in
      let sound0 = ExtendsAt-Sound apart sound timeouts in
      let (w1, f, g) =
        bind-ok (range_try (λ v. v.jobs) (recover_sync env) (keys expired.jobs) expired) _ e in
      let recovered =
        range_try-Extends (λ v. v.jobs) (recover_sync env) recover_sync-Extends (keys expired.jobs)
          expired w1 sound0 f in
      let sound1 = ExtendsAt-Sound apart sound0 recovered in
      let (w2, h, i) =
        bind-ok (range_try (λ v. v.domains) (renew_domain env now) (keys w1.domains) w1) _ g in
      let domains =
        range_try-Extends (λ v. v.domains) (renew_domain env now)
          (λ k domain u u' s held. renew_domain-Extends now k domain u u' s) (keys w1.domains) w1 w2
          sound1 h in
      let sound2 = ExtendsAt-Sound apart sound1 domains in
      ExtendsAt-trans timeouts (
        ExtendsAt-trans recovered (
          ExtendsAt-trans domains (
            range_try-Extends (λ v. v.certificates) (renew_certificate env (linked_renewals w2) now)
              (λ k c u u' s held. renew_certificate-Extends (linked_renewals w2) now k c u u' s)
              (keys w2.certificates) w2 w' sound2 i)))
