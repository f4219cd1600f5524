-- ===== src/Removal/Detach.antt =====
-- The domains and the certificates of a node that was removed.
use nginx_atlas.Agents.{
  note_domain_error, note_found, restore_failed_domain_deletion, restore_found,
}
use nginx_atlas.Effects.{
  AllAt, AllAt-insert, World, put_certificate, put_domain, put_job, put_node, range_invariant,
  range_map,
}
use nginx_atlas.Model.{Certificate, Domain, Job, Time, failed, is_active, is_delete, zero_node}
use nginx_atlas.Prelude.{
  Bool-cases, Option, Text, [], arith, contains, false, inl, inr, keys, lookup, non_empty, none,
  not, refl, some, subst, sym, value_or, ◌&&◌, ◌==◌, ◌||◌, ◌∷◌, ◌≡◌,
}
use nginx_atlas.Removal.Defs.{
  detach_certificate, detach_certificates, detach_domain, detach_domains, detach_job, detach_jobs,
  node_removed_job_error, revoke_node_state, revoked_node,
}
use nginx_atlas.Reports.{contains-remove_string, truncate}

-- The node neither serves a domain nor takes its certificate.
abbrev pub IsFreeDomain : Text → Domain → Type 0
IsFreeDomain node_id domain =
    ((non_empty node_id && domain.node_id == node_id) ≡ false)
    × (contains node_id domain.sync_node_ids ≡ false)

abbrev pub IsFreeCertificate : Text → Certificate → Type 0
IsFreeCertificate node_id certificate =
    ((non_empty node_id && certificate.issuer_node_id == node_id) ≡ false)
    × (contains node_id certificate.deployed_node_ids ≡ false)

blank_free : (node_id : Text) → (non_empty node_id && [] == node_id) ≡ false
unfolding ◌==◌
blank_free [] = refl
blank_free (c ∷ s) = refl

detach_domain-IsFreeDomain :
    (node_id : Text) (now : Time) (domain : Domain)
    → IsFreeDomain node_id (detach_domain node_id now domain)
unfolding detach_domain
detach_domain-IsFreeDomain node_id now domain =
    ground (arith, blank_free node_id, contains-remove_string domain.sync_node_ids node_id)

detach_certificate-IsFreeCertificate :
    (node_id : Text) (certificate : Certificate)
    → IsFreeCertificate node_id (detach_certificate node_id certificate)
unfolding detach_certificate
detach_certificate-IsFreeCertificate node_id certificate =
    ground (arith, blank_free node_id, contains-remove_string certificate.deployed_node_ids node_id)

module _ (node_id : Text) (now : Time) (w : World)
    (h : AllAt (IsFreeDomain node_id) w.domains) where
  note_found-free :
      (error : Text) (k : Text) (o : Option Domain)
      → lookup k w.domains ≡ o
      → AllAt (IsFreeDomain node_id) (note_found error now w o).domains
  unfolding note_found
  note_found-free error k none e = h
  note_found-free error k (some domain) e =
      AllAt-insert (IsFreeDomain node_id) w.domains domain.id
        (record domain { last_error = error; updated_at = now }) h (h k domain e)

  note_domain_error-free :
      (job : Job) → AllAt (IsFreeDomain node_id) (note_domain_error job now w).domains
  unfolding note_domain_error
  note_domain_error-free job =
      note_found-free job.error job.domain_id (lookup job.domain_id w.domains) refl

  restore_found-free :
      (message : Text) (k : Text) (o : Option Domain)
      → lookup k w.domains ≡ o
      → AllAt (IsFreeDomain node_id) (restore_found message now w o).domains
  unfolding restore_found
  restore_found-free message k none e = h
  restore_found-free message k (some domain) e =
      AllAt-insert (IsFreeDomain node_id) w.domains domain.id
        (record domain {
          deleting = false;
          enabled = non_empty domain.node_id;
          last_error = truncate message 2048;
          updated_at = now;
        })
        h (h k domain e)

  restore-free :
      (job : Job) (message : Text)
      → AllAt (IsFreeDomain node_id) (restore_failed_domain_deletion job message now w).domains
  unfolding restore_failed_domain_deletion
  restore-free job message =
      elim (Bool-cases (not (is_delete job.type) || not (non_empty job.domain_id))) [
        | inl t ↦ rw t h
        | inr f ↦
            rw f (restore_found-free message job.domain_id (lookup job.domain_id w.domains) refl)
      ]

module _ (node_id : Text) (now : Time) where
  detach_job-free :
      (k : Text) (job : Job) (w : World)
      → AllAt (IsFreeDomain node_id) w.domains
      → AllAt (IsFreeDomain node_id) (detach_job node_id now k job w).domains
  unfolding detach_job
  detach_job-free k job w h =
      let lost = record job {
        status = failed;
        error = node_removed_job_error;
        finished_at = some now;
      } in
      let restored = restore_failed_domain_deletion lost lost.error now (put_job k lost w) in
      elim (Bool-cases (job.node_id == node_id && is_active job.status)) [
        | inl t ↦ rw t (
            note_domain_error-free node_id now restored
              (restore-free node_id now (put_job k lost w) h lost lost.error) lost)
        | inr f ↦ rw f h
      ]

  -- No loop but the last but one touches the certificates, and none the domains of another.
  detach_certificates-domains : (w : World) → (detach_certificates node_id w).domains ≡ w.domains
  unfolding detach_certificates
  detach_certificates-domains w =
      range_invariant (λ u. u.certificates)
        (λ k certificate. put_certificate k (detach_certificate node_id certificate))
        (λ u. u.domains ≡ w.domains) (λ k v u e same. same) (keys w.certificates) w refl

  restore_note-certificates :
      (job : Job) (w : World)
      → (note_domain_error job now
          (restore_failed_domain_deletion job job.error now w)).certificates
        ≡ w.certificates
  unfolding note_domain_error note_found restore_failed_domain_deletion restore_found
  restore_note-certificates job w = ground arith

  detach_jobs-certificates : (w : World) → (detach_jobs node_id now w).certificates ≡ w.certificates
  unfolding detach_jobs detach_job
  detach_jobs-certificates w =
      range_invariant (λ u. u.jobs) (detach_job node_id now) (λ u. u.certificates ≡ w.certificates)
        (λ k job u e same. ground (
          arith,
          restore_note-certificates
              (record job {
                status = failed;
                error = node_removed_job_error;
                finished_at = some now;
              })
              (put_job k
                (record job {
                  status = failed;
                  error = node_removed_job_error;
                  finished_at = some now;
                })
                u),
        ))
        (keys w.jobs) w refl

  detach_domains-free :
      (w : World) → AllAt (IsFreeDomain node_id) (detach_domains node_id now w).domains
  unfolding detach_domains
  detach_domains-free w =
      range_map (λ u. u.domains) put_domain (detach_domain node_id now) (λ k v u. refl)
        (IsFreeDomain node_id) (detach_domain-IsFreeDomain node_id now) w

  detach_certificates-free :
      (w : World) → AllAt (IsFreeCertificate node_id) (detach_certificates node_id w).certificates
  unfolding detach_certificates
  detach_certificates-free w =
      range_map (λ u. u.certificates) put_certificate (detach_certificate node_id) (λ k v u. refl)
        (IsFreeCertificate node_id) (detach_certificate-IsFreeCertificate node_id) w

  detach_jobs-free :
      (w : World)
      → AllAt (IsFreeDomain node_id) w.domains
      → AllAt (IsFreeDomain node_id) (detach_jobs node_id now w).domains
  unfolding detach_jobs
  detach_jobs-free w h =
      range_invariant (λ u. u.jobs) (detach_job node_id now)
        (λ u. AllAt (IsFreeDomain node_id) u.domains)
        (λ k job u e free. detach_job-free k job u free) (keys w.jobs) w h

revoked_free :
    (node_id : Text) (now : Time) (w : World)
    → AllAt (IsFreeDomain node_id) (revoke_node_state node_id now w).domains
      × AllAt (IsFreeCertificate node_id) (revoke_node_state node_id now w).certificates
unfolding revoke_node_state
revoked_free node_id now w =
    let node = value_or zero_node (lookup node_id w.nodes) in
    let w1 = put_node node_id (revoked_node now node) w in
    let w2 = detach_domains node_id now w1 in
    let w3 = detach_certificates node_id w2 in
    (
      detach_jobs-free node_id now w3 (
          subst (AllAt (IsFreeDomain node_id)) (sym (detach_certificates-domains node_id now w2))
            (detach_domains-free node_id now w1)),
      subst (AllAt (IsFreeCertificate node_id)) (sym (detach_jobs-certificates node_id now w3))
          (detach_certificates-free node_id now w2),
    )

-- After the removal of a node no domain is served by it or sends it a certificate. (A node whose id
-- is empty does not count as serving, since an empty id there means no node.)
pub revoke_node_state-domains :
    (node_id : Text) (now : Time) (w : World) (k : Text) (domain : Domain)
    → lookup k (revoke_node_state node_id now w).domains ≡ some domain
    → IsFreeDomain node_id domain
revoke_node_state-domains node_id now w = (revoked_free node_id now w).0

-- After the removal of a node no certificate is issued on it or deployed to it. (A node whose id is
-- empty does not count as an issuer, since an empty id there means no node.)
pub revoke_node_state-certificates :
    (node_id : Text) (now : Time) (w : World) (k : Text) (certificate : Certificate)
    → lookup k (revoke_node_state node_id now w).certificates ≡ some certificate
    → IsFreeCertificate node_id certificate
revoke_node_state-certificates node_id now w = (revoked_free node_id now w).1
