-- ===== src/Wire/Prepare.antt =====
-- prepareCertificateResult, certificateResultContextForJob and ensureCertificateNames.
-- internal/certutil only calls crypto/x509: what Validate, VerifyTrustedChain and CoversHostname
-- answer is a parameter, and so is strings.ToLower. The clock is read three times.
use nginx_atlas.Effects.{Env, Error, Result, decode_error, err, id_error, ok, require, ◌>>=◌}
use nginx_atlas.Jobs.Queries.{desired_names_for_domain, normalize_renew_before_days}
use nginx_atlas.Model.{
  Certificate, CertificateSource, Domain, Job, JobType, State, Time, apply_domain,
  capture_certificate, is_capture, is_issue, issue_certificate, source_acme, source_local,
  zero_certificate,
}
use nginx_atlas.Prelude.{
  Bool, List, Option, Text, [], all, bytes, contains, false, if◌then◌else◌, is_empty, is_some,
  lookup, map, nat_eq, non_empty, none, not, some, strip_prefix, trim_space, true, value_or, ℕ,
  ◌&&◌, ◌||◌, ◌∷◌,
}
use nginx_atlas.Protocol.{CertificateBundle}
use nginx_atlas.Reports.{append_unique}
use nginx_atlas.SecureBox.{Box, done, refuses, seal_secret}
use nginx_atlas.Wire.Build.{certificate_purpose, fails_with}

-- certutil.Info, but for the parsed certificate.
pub record Info : Type 0 where
  pub fingerprint_sha256 : Text
  pub issuer : Text
  pub serial_number : Text
  pub not_before : Time
  pub not_after : Time
  pub dns_names : List Text

pub record CertUtil : Type 0 where
  pub validate : CertificateBundle → Text → Time → Option Info
  pub is_trusted : Text → Text → Time → Bool
  pub covers_hostname : List Text → Text → Bool
  pub to_lower : Text → Text

pub record CertificateResultContext : Type 0 where
  pub domain : Text
  pub certificate_id : Text
  pub source : CertificateSource
  pub auto_renew : Bool
  pub renew_before_days : ℕ
  pub acme_account_id : Text
  pub dns_account_id : Text
  pub installed_on_issuer : Bool
  pub requested_dns_names : List Text

-- What the context takes from a domain.
unfoldable pub domain_context :
    Domain → CertificateSource → Bool → List Text → CertificateResultContext
domain_context domain source installed names = record {
  domain = domain.name;
  certificate_id = domain.certificate_id;
  source = source;
  auto_renew = domain.auto_renew;
  renew_before_days = domain.renew_before_days;
  acme_account_id = domain.acme_account_id;
  dns_account_id = domain.dns_account_id;
  installed_on_issuer = installed;
  requested_dns_names = names;
}

abbrev no_domain : Error
no_domain = fails_with "certificate result has no matching domain"

abbrev pub is_acme : CertificateSource → Bool
is_acme source_acme = true
is_acme _ = false

module _ (env : Env) where
  unfoldable pub apply_context : Job → State → Result CertificateResultContext
  apply_context job state = do
    spec ← require decode_error (env.decode_apply job.payload)
    if spec.capture_certificate
        then require no_domain (lookup spec.domain_id state.domains)
          >>= (λ domain. ok (domain_context domain source_local true (domain.name ∷ [])))
        else err (fails_with "unexpected certificate result for apply task")

  unfoldable pub issue_context : Job → State → Result CertificateResultContext
  issue_context job state =
      if non_empty job.domain_id
      then require no_domain (lookup job.domain_id state.domains) >>= (λ domain.
        ok (domain_context domain source_acme false (desired_names_for_domain state domain)))
      else require decode_error (env.decode_issue job.payload) >>= (λ spec. ok (record {
        domain = spec.domain;
        certificate_id = spec.certificate_id;
        source = source_acme;
        auto_renew = spec.auto_renew;
        renew_before_days = spec.renew_before_days;
        acme_account_id = spec.acme_account_id;
        dns_account_id = spec.dns_account_id;
        installed_on_issuer = false;
        requested_dns_names = spec.dns_names;
      }))

  unfoldable pub capture_context : Job → State → Result CertificateResultContext
  capture_context job state = do
    spec ← require decode_error (env.decode_capture job.payload)
    if non_empty spec.domain_id
        then require no_domain (lookup spec.domain_id state.domains)
          >>= (λ domain. ok (domain_context domain source_local true (domain.name ∷ [])))
        else ok (record {
          domain = spec.domain;
          certificate_id = spec.certificate_id;
          source = source_local;
          auto_renew = spec.auto_renew;
          renew_before_days = spec.renew_before_days;
          acme_account_id = spec.acme_account_id;
          dns_account_id = spec.dns_account_id;
          installed_on_issuer = true;
          requested_dns_names = [];
        })

  unfoldable pub context_by_type : Job → State → JobType → Result CertificateResultContext
  context_by_type job state apply_domain = apply_context job state
  context_by_type job state issue_certificate = issue_context job state
  context_by_type job state capture_certificate = capture_context job state
  context_by_type job state _ = err (fails_with "this job cannot return a certificate")

  abbrev pub certificate_result_context_for_job : Job → State → Result CertificateResultContext
  certificate_result_context_for_job job state = context_by_type job state job.type

module _ (util : CertUtil) where
  -- A requested name that is a wildcard is among the names; any other is covered by them.
  unfoldable pub is_named : List Text → Text → Bool
  is_named actual requested =
      let value = util.to_lower (trim_space requested) in
      if is_some (strip_prefix (bytes "*.") value)
      then contains value (map (λ name. util.to_lower (trim_space name)) actual)
      else util.covers_hostname actual value

  unfoldable pub ensure_certificate_names : List Text → List Text → Bool
  ensure_certificate_names actual requested = all (is_named actual) requested

-- mustSeal of internal/server/server.go.
abbrev pub must_seal : Box → Option Text → Text → Text → Result Text
must_seal box nonce purpose plaintext = elim (seal_secret box nonce purpose plaintext) [
  | done value ↦ ok value
  | refuses reason ↦ err (fails_with "encrypt secret")
]

module _ (util : CertUtil) (box : Box) (env : Env) where
  -- The id of the certificate: that of the one it replaces, or a new one.
  unfoldable pub certificate_id_for : Text → Certificate → ℕ → Result Text
  certificate_id_for wanted existing n =
      if non_empty existing.id then ok wanted else require id_error (env.fresh_id n (bytes "crt"))

  -- The certificate is valid for its domain, its chain is trusted if an ACME server issued it, and
  -- it has the names that were asked for, which are returned.
  unfoldable pub check_bundle :
      CertificateResultContext → CertificateBundle → Time × Time → Result (Info × List Text)
  check_bundle context bundle times = do
    info ←
        require (fails_with "certificate task returned an invalid certificate")
          (util.validate bundle context.domain times.0)
    let names =
        if is_empty context.requested_dns_names then info.dns_names else context.requested_dns_names
    if is_acme context.source && not (util.is_trusted bundle.fullchain_pem context.domain times.1)
        then err (fails_with "certificate task returned an untrusted ACME certificate")
        else if ensure_certificate_names util info.dns_names names
        then ok (info, names)
        else err (fails_with "certificate task returned a certificate with incomplete names")

  -- The nonces are what the random source answers to the two calls of Seal.
  unfoldable pub seal_bundle :
      Option Text × Option Text → Text → CertificateBundle → Result (Text × Text)
  seal_bundle nonces id bundle = do
    fullchain ←
        must_seal box nonces.0 (certificate_purpose box id ":fullchain") bundle.fullchain_pem
    private_key ←
        must_seal box nonces.1 (certificate_purpose box id ":private-key") bundle.private_key_pem
    ok (fullchain, private_key)

  unfoldable pub prepare_bundle :
      Option Text × Option Text
      → ℕ
      → State
      → Job
      → CertificateBundle
      → Time × Time × Time
      → Result Certificate
  prepare_bundle nonces n state job bundle times = do
    context ← certificate_result_context_for_job env job state
    checked ← check_bundle context bundle (times.0, times.1)
    let existing =
        if non_empty context.certificate_id
        then value_or zero_certificate (lookup context.certificate_id state.certificates)
        else zero_certificate
    certificate_id ← certificate_id_for context.certificate_id existing n
    sealed ← seal_bundle nonces certificate_id bundle
    ok (record {
      id = certificate_id;
      domain = context.domain;
      source = context.source;
      fullchain_ciphertext = sealed.0;
      private_key_ciphertext = sealed.1;
      fingerprint_sha256 = checked.0.fingerprint_sha256;
      issuer = checked.0.issuer;
      serial_number = checked.0.serial_number;
      not_before = checked.0.not_before;
      not_after = checked.0.not_after;
      dns_names = checked.0.dns_names;
      requested_dns_names = checked.1;
      auto_renew = context.auto_renew;
      renew_before_days = normalize_renew_before_days context.renew_before_days;
      acme_account_id = context.acme_account_id;
      dns_account_id = context.dns_account_id;
      issuer_node_id = job.node_id;
      deployed_node_ids =
          if context.installed_on_issuer
          then append_unique existing.deployed_node_ids job.node_id
          else existing.deployed_node_ids;
      created_at = if nat_eq existing.created_at 0 then times.2 else existing.created_at;
      updated_at = times.2;
    })

  unfoldable pub prepare_certificate_result :
      Option Text × Option Text
      → ℕ
      → State
      → Job
      → Option CertificateBundle
      → Time × Time × Time
      → Result (Option Certificate)
  prepare_certificate_result nonces n state job none times =
      if is_issue job.type || is_capture job.type
      then err (fails_with "certificate task returned no certificate")
      else ok none
  prepare_certificate_result nonces n state job (some bundle) times =
      prepare_bundle nonces n state job bundle times >>= (λ certificate. ok (some certificate))
