-- ===== src/Wire/Kept.antt =====
-- What was prepared of an agent's certificate is what other agents are sent.
use nginx_atlas.Effects.{Env, Result, bind-ok, err, ok, ok_inj}
use nginx_atlas.Model.{Certificate, Job, State, Time}
use nginx_atlas.Prelude.{Text, ap, length, lookup, refl, some, sym, ℕ, ◌∙◌, ◌≡◌}
use nginx_atlas.Protocol.{CertificateBundle}
use nginx_atlas.SecureBox.{
  Box, Lawful, SealError, Sealing, done, open_secret, refuses, seal-open, seal_secret,
}
use nginx_atlas.Wire.Build.{
  certificate_purpose, decrypt_certificate, fails_with, open_bundle, opened,
}
use nginx_atlas.Wire.Prepare.{
  CertUtil, certificate_id_for, certificate_result_context_for_job, check_bundle, must_seal,
  prepare_bundle, seal_bundle,
}

opened_by :
    (box : Box)
    → Lawful box
    → (n purpose plaintext value : Text) → length n ≡ box.aead.nonce_size
    → must_seal box (some n) purpose plaintext ≡ ok value
    → opened (open_secret box purpose value) ≡ ok plaintext
opened_by box lawful n purpose plaintext value size e =
    go (seal_secret box (some n) purpose plaintext) refl e
  where
    go :
        (r : Sealing SealError Text)
        → seal_secret box (some n) purpose plaintext ≡ r
        → elim r as (λ x. Result Text) [
          | done v ↦ ok v
          | refuses reason ↦ err (fails_with "encrypt secret")
        ]
          ≡ ok value
        → opened (open_secret box purpose value) ≡ ok plaintext
    go (refuses reason) f h = absurd (cc)
    go (done v) f h =
        ap opened
          (seal-open box lawful n plaintext purpose value size (f ∙ ap (λ x. done x) (ok_inj h)))

module _ (util : CertUtil) (box : Box) (lawful : Lawful box) (env : Env) (n0 n1 : Text)
    (size0 : length n0 ≡ box.aead.nonce_size) (size1 : length n1 ≡ box.aead.nonce_size) where
  seal_bundle-opened :
      (id : Text) (bundle : CertificateBundle) (sealed : Text × Text) (certificate : Certificate)
      → seal_bundle util box env (some n0, some n1) id bundle ≡ ok sealed
      → certificate.id ≡ id
      → certificate.fullchain_ciphertext ≡ sealed.0
      → certificate.private_key_ciphertext ≡ sealed.1
      → open_bundle box certificate ≡ ok bundle
  unfolding seal_bundle open_bundle
  seal_bundle-opened id bundle sealed certificate e same full key =
      let (a, f, g) =
        bind-ok
          (must_seal box (some n0) (certificate_purpose box id ":fullchain") bundle.fullchain_pem) _
          e in
      let (b, h, k) =
        bind-ok
          (must_seal box (some n1) (certificate_purpose box id ":private-key")
            bundle.private_key_pem)
          _ g in
      let first_part =
        opened_by box lawful n0 (certificate_purpose box id ":fullchain") bundle.fullchain_pem a
          size0 f in
      let second_part =
        opened_by box lawful n1 (certificate_purpose box id ":private-key") bundle.private_key_pem b
          size1 h in
      let pair = ok_inj k in
      rw
        (
          same,
          full ∙ ap (λ (q : Text × Text). q.0) (sym pair),
          key ∙ ap (λ (q : Text × Text). q.1) (sym pair),
          first_part,
          second_part,
        )
        refl

-- If the box is lawful and the nonces have the right size: a certificate that was prepared of the
-- bundle of a job is opened, wherever a state holds it under its id, to that bundle.
pub prepare-decrypt :
    (util : CertUtil) (box : Box)
    → Lawful box
    → (env : Env) (n0 n1 : Text) → length n0 ≡ box.aead.nonce_size
    → length n1 ≡ box.aead.nonce_size
    → (n : ℕ) (state later : State) (job : Job) (bundle : CertificateBundle)
      (times : Time × Time × Time) (certificate : Certificate)
    → prepare_bundle util box env (some n0, some n1) n state job bundle times ≡ ok certificate
    → lookup certificate.id later.certificates ≡ some certificate
    → decrypt_certificate box later certificate.id ≡ ok bundle
unfolding prepare_bundle decrypt_certificate
prepare-decrypt util box lawful env n0 n1 size0 size1 n state later job bundle times certificate e
      held =
    let (context, e0, f0) = bind-ok (certificate_result_context_for_job env job state) _ e in
    let (checked, e1, f1) =
      bind-ok (check_bundle util box env context bundle (times.0, times.1)) _ f0 in
    let (id, e2, f2) = bind-ok (certificate_id_for util box env context.certificate_id _ n) _ f1 in
    let (sealed, e3, f3) = bind-ok (seal_bundle util box env (some n0, some n1) id bundle) _ f2 in
    let made = ok_inj f3 in
    rw held (
      seal_bundle-opened util box lawful env n0 n1 size0 size1 id bundle sealed certificate e3
        (ap (λ (c : Certificate). c.id) (sym made))
        (ap (λ (c : Certificate). c.fullchain_ciphertext) (sym made))
        (ap (λ (c : Certificate). c.private_key_ciphertext) (sym made)))
