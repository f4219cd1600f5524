-- ===== src/Lifecycle/Records.antt =====
-- The jobs under the requests of internal/server/admin.go for domains and certificates.
use nginx_atlas.Administration.{
  delete_certificates, delete_found_domain, has_active_certificate_reference, queue_delete_domain,
  queue_syncs, request_delete_domain, request_sync, validate_node_ids,
}
use nginx_atlas.Effects.{
  Env, Result, World, add_audit, bind-ok, conflict, enqueue_job, err, not_found, ok, ok_inj,
  require,
}
use nginx_atlas.Jobs.Queries.{domain_is_deleting}
use nginx_atlas.Lifecycle.Adds.{AddsAt-ExtendsAt, Sound, enqueue_job-Adds}
use nginx_atlas.Lifecycle.Advance.{Keyed}
use nginx_atlas.Lifecycle.Extends.{
  Distinct, Extends, ExtendsAt, ExtendsAt-later, ExtendsAt-refl, ExtendsAt-trans,
}
use nginx_atlas.Lifecycle.Maintenance.{ExtendsAt-Sound}
use nginx_atlas.Model.{Certificate, Domain, Job, JobType, delete_domain, sync_certificate}
use nginx_atlas.Prelude.{
  Bool, Bool-cases, List, Option, Option-cases, Text, [], all, any, arith, contains, false,
  if◌then◌else◌, inl, inr, is_some, le_refl, lookup, non_empty, not, subst, true, values, ℕ, ◌+◌,
  ◌||◌, ◌∷◌, ◌≡◌, ◌≤◌,
}
use nginx_atlas.Protocol.{JobSpec}
use nginx_atlas.Removal.{is_live_node}

module _ (env : Env) where
  -- A job that was queued, and then nothing but reads.
  pub sent_on :
      (node_id domain_id : Text) (type : JobType) (spec : JobSpec) (w : World) (sent : Job × World)
      (r : ℕ)
      → Sound env w.jobs w.reads
      → enqueue_job env node_id domain_id type spec w ≡ ok sent
      → sent.1.reads ≤ r
      → ExtendsAt env w.jobs w.reads sent.1.jobs r
  sent_on node_id domain_id type spec w sent r sound e l =
      let (added, gone, there) =
        enqueue_job-Adds env node_id domain_id type spec w sent.1 sent.0 sound e in
      ExtendsAt-later (AddsAt-ExtendsAt added) l

  queue_delete_domain-Extends :
      (domain : Domain) (w w' : World) (waits_for : Bool)
      → Sound env w.jobs w.reads
      → queue_delete_domain env domain w ≡ ok (w', waits_for)
      → Extends env w w'
  unfolding queue_delete_domain add_audit
  queue_delete_domain-Extends domain w w' waits_for sound e =
      let (sent, f, g) = bind-ok (enqueue_job env domain.node_id domain.id delete_domain _ w) _ e in
      subst (λ (q : World × Bool). Extends env w q.0) (ok_inj g)
        (sent_on domain.node_id domain.id delete_domain _ w sent (sent.1.reads + 1 + 2) sound f
          (omega arith))

  -- The branches of the removal of a domain.
  by_tests :
      {P : Type 0} {goal : World × Bool} (a b c : Bool) {x y z : Result (World × Bool)}
      → (x ≡ ok goal → P)
      → (y ≡ ok goal → P)
      → (z ≡ ok goal → P)
      → (if a then x else if b then y else if c then err conflict else z) ≡ ok goal
      → P
  by_tests true b c p q r e = p e
  by_tests false true c p q r e = q e
  by_tests false false true p q r e = absurd (cc)
  by_tests false false false p q r e = r e

  delete_found_domain-Extends :
      (domain : Domain) (w w' : World) (waits_for : Bool)
      → Sound env w.jobs w.reads
      → delete_found_domain env domain w ≡ ok (w', waits_for)
      → Extends env w w'
  unfolding delete_found_domain add_audit
  delete_found_domain-Extends domain w w' waits_for sound e =
      let stays = ExtendsAt-refl env w.jobs w.reads (w.reads + 2) sound.keyed (omega arith) in
      by_tests domain.observed_only
        (not (non_empty domain.node_id) || not (is_live_node domain.node_id w))
        (domain_is_deleting w.state domain)
        (λ h. subst (λ (q : World × Bool). Extends env w q.0) (ok_inj h) stays)
        (λ h. subst (λ (q : World × Bool). Extends env w q.0) (ok_inj h) stays)
        (queue_delete_domain-Extends domain w w' waits_for sound) e

  pub request_delete_domain-Extends :
      (domain_id : Text) (w w' : World) (waits_for : Bool)
      → Sound env w.jobs w.reads
      → request_delete_domain env domain_id w ≡ ok (w', waits_for)
      → Extends env w w'
  unfolding request_delete_domain
  request_delete_domain-Extends domain_id w w' waits_for sound e =
      elim (Option-cases (lookup domain_id w.domains)) [
        | inl n ↦ absurd (cc (rw (n, request_delete_domain) at e))
        | inr (domain, f) ↦
            delete_found_domain-Extends domain w w' waits_for sound
              (rw (f, request_delete_domain) at e)
      ]

  pub delete_certificates-Extends :
      (decode_reference : Text → Option Text) (message : ℕ → Text) (ids : List Text) (w w' : World)
      → Keyed w.jobs
      → delete_certificates env decode_reference message ids w ≡ ok w'
      → Extends env w w'
  unfolding delete_certificates add_audit
  delete_certificates-Extends decode_reference message ids w w' keyed e =
      let stays = ExtendsAt-refl env w.jobs w.reads (w.reads + 2) keyed (omega arith) in
      elim (Bool-cases (not (all (λ j. is_some (lookup j w.certificates)) ids))) [
        | inl t ↦ absurd (cc (rw (t, delete_certificates) at e))
        | inr f ↦
            elim (Bool-cases
              (any (λ (domain : Domain). contains domain.certificate_id ids) (values w.domains))) [
                | inl t ↦ absurd (cc (rw (f, t, delete_certificates) at e))
                | inr g ↦
                    elim (Bool-cases
                      (any (has_active_certificate_reference decode_reference w.jobs) ids)) [
                        | inl t ↦ absurd (cc (rw (f, g, t, delete_certificates) at e))
                        | inr h ↦
                            subst (Extends env w) (ok_inj (rw (f, g, h, delete_certificates) at e))
                              stays
                      ]
              ]
      ]

module _ (env : Env) (apart : Distinct env) where
  queue_syncs-Extends :
      (certificate : Certificate) (node_ids : List Text) (w w' : World) (queued_jobs : List Job)
      → Sound env w.jobs w.reads
      → queue_syncs env certificate node_ids w ≡ ok (queued_jobs, w')
      → Extends env w w'
  unfolding queue_syncs
  queue_syncs-Extends certificate [] w w' queued_jobs sound e =
      subst (λ (q : List Job × World). Extends env w q.1) (ok_inj e)
        (ExtendsAt-refl env w.jobs w.reads w.reads sound.keyed (le_refl w.reads))
  queue_syncs-Extends certificate (node_id ∷ rest) w w' queued_jobs sound e =
      let (sent, f, g) = bind-ok (enqueue_job env node_id [] sync_certificate _ w) _ e in
      let one =
        sent_on env node_id [] sync_certificate _ w sent sent.1.reads sound f
          (le_refl sent.1.reads) in
      let (more, h, k) = bind-ok (queue_syncs env certificate rest sent.1) _ g in
      subst (λ (q : List Job × World). Extends env w q.1) (ok_inj k)
        (ExtendsAt-trans one (
          queue_syncs-Extends certificate rest sent.1 more.1 more.0
            (ExtendsAt-Sound apart sound one) h))

  pub request_sync-Extends :
      (certificate_id : Text) (node_ids : List Text) (w w' : World) (queued_jobs : List Job)
      → Sound env w.jobs w.reads
      → request_sync env certificate_id node_ids w ≡ ok (queued_jobs, w')
      → Extends env w w'
  unfolding request_sync add_audit
  request_sync-Extends certificate_id node_ids w w' queued_jobs sound e =
      let (certificate, a, e1) =
        bind-ok (require not_found (lookup certificate_id w.certificates)) _ e in
      let (targets, b, e2) = bind-ok (validate_node_ids w node_ids []) _ e1 in
      let (sent, c, e3) = bind-ok (queue_syncs env certificate targets w) _ e2 in
      subst (λ (q : List Job × World). Extends env w q.1) (ok_inj e3)
        (ExtendsAt-later (queue_syncs-Extends certificate targets w sent.1 sent.0 sound c)
          (omega arith))
