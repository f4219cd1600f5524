-- ===== src/Wire/Build.antt =====
-- buildWireJob and decryptCertificate.
use nginx_atlas.Effects.{
  Env, Error, Result, decode_error, encode_error, err, ok, other_error, require, ◌>>=◌,
}
use nginx_atlas.Model.{
  AcmeAccount, Certificate, CertificateSource, Job, JobType, State, apply_domain,
  capture_certificate, delete_domain, issue_certificate, other_job_type, other_source, reload_nginx,
  sync_certificate, update_atlas, update_system,
}
use nginx_atlas.Prelude.{
  Bool, Dict, Option, Text, [], bytes, if◌then◌else◌, lookup, non_empty, none, some, true, value_or,
  ◌++◌,
}
use nginx_atlas.Protocol.{CaptureCertificateSpec, CertificateBundle, IssueCertificateSpec}
use nginx_atlas.SecureBox.{
  Box, OpenError, Sealing, authentication_failed, bad_encoding, done, open_secret, refuses,
  truncated, unsupported_version,
}
use nginx_atlas.Wire.Payloads.{
  WireJob, WirePayload, apply_payload, atlas_payload, capture_payload, delete_payload,
  issue_payload, reload_payload, sync_payload, system_payload,
}
use Prim.Native.String.{String}

-- json.Marshal of a payload, and json.Unmarshal of the credentials of a DNS account.
pub record Coding : Type 0 where
  pub encode_wire : WirePayload → Option Text
  pub decode_credentials : Text → Option (Dict Text)

abbrev pub fails_with : String → Error
fails_with message = other_error (bytes message)

abbrev pub opened : Sealing OpenError Text → Result Text
opened (done plaintext) = ok plaintext
opened (refuses unsupported_version) = err (fails_with "unsupported ciphertext version")
opened (refuses bad_encoding) = err (fails_with "decode ciphertext")
opened (refuses truncated) = err (fails_with "ciphertext is truncated")
opened (refuses authentication_failed) = err (fails_with "decrypt secret: authentication failed")

-- domain.CertificateMode != ""
abbrev pub has_certificate_mode : CertificateSource → Bool
has_certificate_mode (other_source s) = non_empty s
has_certificate_mode _ = true

module _ (box : Box) where
  -- The purpose under which a secret of a certificate is sealed.
  abbrev pub certificate_purpose : Text → String → Text
  certificate_purpose id part = bytes "certificate:" ++ id ++ bytes part

  unfoldable pub open_bundle : Certificate → Result CertificateBundle
  open_bundle certificate = do
    fullchain ← opened (
        open_secret box (certificate_purpose certificate.id ":fullchain")
          certificate.fullchain_ciphertext)
    private_key ← opened (
        open_secret box (certificate_purpose certificate.id ":private-key")
          certificate.private_key_ciphertext)
    ok (record { fullchain_pem = fullchain; private_key_pem = private_key })

  unfoldable pub decrypt_certificate : State → Text → Result CertificateBundle
  decrypt_certificate state certificate_id = do
    certificate ←
        require (fails_with "certificate no longer exists")
          (lookup certificate_id state.certificates)
    open_bundle certificate

  -- The certificate of an application, if it has one.
  unfoldable pub apply_bundle : State → Text → Result (Option CertificateBundle)
  apply_bundle state certificate_id =
      if non_empty certificate_id
      then decrypt_certificate state certificate_id >>= (λ bundle. ok (some bundle))
      else ok none

  module _ (env : Env) (coding : Coding) where
    unfoldable pub wire_apply : Job → State → Result WirePayload
    wire_apply job state = do
      spec ← require decode_error (env.decode_apply job.payload)
      domain ← require (fails_with "domain no longer exists") (lookup spec.domain_id state.domains)
      certificate ← apply_bundle state spec.certificate_id
      ok (
          apply_payload (record {
            domain = domain.name;
            upstream_host = domain.upstream_host;
            upstream_port = domain.upstream_port;
            tls = has_certificate_mode domain.certificate_mode;
            use_local_certificate = spec.use_local_certificate;
            local_certificate_dir = spec.local_certificate_dir;
            certificate = certificate;
            capture_certificate = spec.capture_certificate;
            replace_config_path = spec.replace_config_path;
            nginx_websocket = domain.nginx_websocket;
            nginx_s3_compatible = domain.nginx_s3_compatible;
            nginx_http2 = domain.nginx_http2;
            nginx_gzip = domain.nginx_gzip;
            custom_config = value_or domain.custom_config spec.custom_config;
          }))

    unfoldable pub wire_sync : Job → State → Result WirePayload
    wire_sync job state = do
      spec ← require decode_error (env.decode_sync job.payload)
      bundle ← decrypt_certificate state spec.certificate_id
      ok (
          sync_payload (record {
            domain = spec.domain;
            certificate = bundle;
            reload_nginx = spec.reload_nginx;
          }))

    -- The name, the ACME account and the DNS account: those of the domain, if there is one.
    unfoldable pub issue_target : IssueCertificateSpec → State → Result (Text × Text × Text)
    issue_target spec state =
        if non_empty spec.domain_id
        then require (fails_with "domain no longer exists") (lookup spec.domain_id state.domains)
          >>= (λ domain. ok (domain.name, domain.acme_account_id, domain.dns_account_id))
        else ok (spec.domain, spec.acme_account_id, spec.dns_account_id)

    unfoldable pub eab_hmac_of : AcmeAccount → Result Text
    eab_hmac_of account =
        if non_empty account.eab_hmac_ciphertext
        then opened (
            open_secret box (bytes "acme-account:" ++ account.id ++ bytes ":eab")
              account.eab_hmac_ciphertext)
        else ok []

    unfoldable pub wire_issue : Job → State → Result WirePayload
    wire_issue job state = do
      spec ← require decode_error (env.decode_issue job.payload)
      target ← issue_target spec state
      domain_name ←
          if non_empty target.0
          then ok target.0
          else err (fails_with "certificate domain is missing")
      dns_account ←
          require (fails_with "DNS account no longer exists") (lookup target.2 state.dns_accounts)
      acme_account ←
          require (fails_with "ACME account no longer exists") (lookup target.1 state.acme_accounts)
      credentials_json ← opened (
          open_secret box (bytes "dns-account:" ++ dns_account.id)
            dns_account.credentials_ciphertext)
      credentials ←
          require (fails_with "DNS credentials are corrupted")
            (coding.decode_credentials credentials_json)
      hmac ← eab_hmac_of acme_account
      ok (
          issue_payload (record {
            domain = domain_name;
            domains = spec.dns_names;
            email = acme_account.email;
            directory_url = acme_account.directory_url;
            dns_provider = dns_account.provider;
            credentials = credentials;
            eab_kid = acme_account.eab_kid;
            eab_hmac = hmac;
          }))

    -- The name of the domain, if it is there; else the one that the job carries.
    unfoldable pub capture_name : CaptureCertificateSpec → State → Text
    capture_name spec state =
        if non_empty spec.domain_id
        then elim (lookup spec.domain_id state.domains) [
          | none ↦ spec.domain
          | some domain ↦ domain.name
        ]
        else spec.domain

    unfoldable pub wire_capture : Job → State → Result WirePayload
    wire_capture job state = do
      spec ← require decode_error (env.decode_capture job.payload)
      if non_empty (capture_name spec state)
          then ok (capture_payload (record { domain = capture_name spec state }))
          else err (fails_with "certificate domain is missing")

    unfoldable pub wire_delete : Job → Result WirePayload
    wire_delete job = do
      spec ← require decode_error (env.decode_delete job.payload)
      ok (
          delete_payload
            (record { domain = spec.domain; restore_config_path = spec.restore_config_path }))

    unfoldable pub wire_atlas : Job → Result WirePayload
    wire_atlas job = do
      spec ← require decode_error (env.decode_atlas job.payload)
      ok (atlas_payload spec)

    unfoldable pub wire_system : Job → Result WirePayload
    wire_system job = do
      spec ← require decode_error (env.decode_system job.payload)
      ok (system_payload spec)

    unfoldable pub wire_payload : Job → State → JobType → Result WirePayload
    wire_payload job state apply_domain = wire_apply job state
    wire_payload job state delete_domain = wire_delete job
    wire_payload job state sync_certificate = wire_sync job state
    wire_payload job state issue_certificate = wire_issue job state
    wire_payload job state capture_certificate = wire_capture job state
    wire_payload job state reload_nginx = ok reload_payload
    wire_payload job state update_atlas = wire_atlas job
    wire_payload job state update_system = wire_system job
    wire_payload job state (other_job_type name) = err (fails_with "unsupported job type")

    unfoldable pub build_wire_job : Job → State → Result WireJob
    build_wire_job job state = do
      payload ← wire_payload job state job.type
      encoded ← require encode_error (coding.encode_wire payload)
      ok (record { id = job.id; type = job.type; payload = encoded })
