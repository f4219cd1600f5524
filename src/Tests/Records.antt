-- ===== src/Tests/Records.antt =====
-- Versions, the store, certificates and the requests of the administrator at concrete states.
use nginx_atlas.Administration.{
  AllDistinct, IsLeft, IsTarget, clear_pending_jobs, clear_pending_jobs_sound, commit_retry,
  decode_batch_ids, decode_batch_ids_sound, delete_certificates, delete_certificates_sound,
  gather_ids, gather_nodes, has_active_certificate_reference, is_valid_id, kept_job, retried_job,
  retry_found, retry_job, validate_node_ids, validate_node_ids_sound,
}
use nginx_atlas.Effects.{Result, World, conflict, err, id_error, ok}
use nginx_atlas.Jobs.Queries.{desired_names_for_domain}
use nginx_atlas.Lifecycle.{retry_job_once}
use nginx_atlas.Model.{Certificate, Job, State, failed, hour, issue_certificate, reload_nginx}
use nginx_atlas.Prelude.{
  All, List, Text, [], arith, bytes, contains, drop, false, keys, length, lookup, non_empty, none,
  refl, some, some_inj, strip_prefix, subst, trim_prefix, trim_space, true, values, values_at, ℕ,
  ◌++◌, ◌+◌, ◌==◌, ◌↔◌, ◌∷◌, ◌≡◌, ◌≤◌, ◌⊎◌,
}
use nginx_atlas.Protocol.{CertificateBundle}
use nginx_atlas.Release.{version_update_available}
use nginx_atlas.Removal.{is_live_node}
use nginx_atlas.SecureBox.{Box, Lawful, seal_secret}
use nginx_atlas.Store.{Request, effects, normalize, updates, updates_refine}
use nginx_atlas.Tests.{
  answer, certificate, env, job_a, node_a, now, queued_job, running_job, state_with, waiting,
  world_with,
}
use nginx_atlas.Tests.Fleet.{Sound-one, job_b}
use nginx_atlas.Tests.Limits.{rename, same_state, same_state_sound, store}
use nginx_atlas.Versions.{require_version_upgrade, upgrade_offered}
use nginx_atlas.Wire.{
  CertUtil, Coding, build_wire_job, certificate_id_for, check_bundle, context_by_type,
  decrypt_certificate, domain_context, ensure_certificate_names, is_named, issue_context,
  prepare-decrypt, prepare_bundle, seal_bundle, wire_payload,
}

abbrev version_a : Text
version_a = 118 ∷ 49 ∷ 46 ∷ 50 ∷ []

abbrev version_b : Text
version_b = 49 ∷ 46 ∷ 51 ∷ []

upgrade_offered_example :
    (require_version_upgrade (λ s. s == bytes "dev") version_a version_b ≡ none)
    ↔ (version_update_available version_a version_b ≡ true)
unfolding trim_space trim_prefix bytes strip_prefix ◌==◌
upgrade_offered_example = upgrade_offered (λ s. s == bytes "dev") version_a version_b refl refl refl

abbrev requests : List Request
requests = (true, rename) ∷ (false, λ state. err conflict) ∷ []

updates_refine_example : (updates same_state requests store).state ≡ effects requests store.state
unfolding normalize
updates_refine_example = updates_refine same_state same_state_sound requests store refl

-- A box that writes its nonce and a tag before the secret.
abbrev pub box : Box
box = record {
  aead = record {
    nonce_size = 0;
    seal = λ n plaintext purpose. 7 ∷ plaintext;
    open_sealed = λ n sealed purpose. some (drop 1 sealed);
  };
  raw_url = record { encode = λ s. s; decode = λ s. some s };
}

Lawful-box : Lawful box
Lawful-box = record {
  decoded = λ s. refl;
  opened = λ n plaintext purpose size. refl;
  tagged = λ n plaintext purpose size. omega arith;
}

abbrev util : CertUtil
util = record {
  validate = λ bundle name time. some (record {
    fingerprint_sha256 = [];
    issuer = [];
    serial_number = [];
    not_before = now;
    not_after = now + hour;
    dns_names = name ∷ [];
  });
  is_trusted = λ chain name time. true;
  covers_hostname = λ names name. true;
  to_lower = λ s. s;
}

abbrev bundle : CertificateBundle
bundle = record { fullchain_pem = 102 ∷ []; private_key_pem = 107 ∷ [] }

-- The issue of the certificate of the domain.
abbrev issue_job : Job
issue_job = record running_job { type = issue_certificate }

abbrev prepared : Result Certificate
prepared =
    prepare_bundle util box env (some [], some []) 0 (state_with issue_job) issue_job bundle
      (now, now, now)

abbrev prepared_certificate : Certificate
prepared_certificate = answer certificate prepared

abbrev later_state : State
later_state = record (state_with issue_job) {
  certificates = (prepared_certificate.id, prepared_certificate) ∷ [];
}

prepare-decrypt_example : decrypt_certificate box later_state prepared_certificate.id ≡ ok bundle
unfolding prepare_bundle lookup ◌==◌ context_by_type issue_context check_bundle domain_context
    ensure_certificate_names desired_names_for_domain is_named strip_prefix bytes trim_space
    certificate_id_for seal_bundle seal_secret
prepare-decrypt_example =
    prepare-decrypt util box Lawful-box env [] [] refl refl 0 (state_with issue_job) later_state
      issue_job bundle (now, now, now) prepared_certificate refl refl

abbrev ids : List Text
ids = (120 ∷ []) ∷ (121 ∷ []) ∷ []

decode_batch_ids_sound_example :
    AllDistinct ids × All (λ k. is_valid_id k ≡ true) ids × (length ids ≤ 100)
unfolding decode_batch_ids gather_ids is_valid_id trim_space contains ◌==◌
decode_batch_ids_sound_example = decode_batch_ids_sound (ids ++ ids) ids refl

validate_node_ids_sound_example :
    AllDistinct (node_a ∷ []) × All (IsTarget waiting []) (node_a ∷ [])
unfolding validate_node_ids gather_nodes trim_space ◌==◌ contains is_live_node lookup
validate_node_ids_sound_example =
    validate_node_ids_sound waiting (node_a ∷ node_a ∷ []) [] (node_a ∷ []) refl

abbrev unused_certificates : World
unused_certificates = record { state = record (state_with queued_job) { domains = [] }; reads = 0 }

abbrev fewer : Result World
fewer =
    delete_certificates env (λ payload. none) (λ n. []) (certificate.id ∷ []) unused_certificates

delete_certificates_sound_example :
    IsLeft
      (λ payload. none)
      (certificate.id ∷ [])
      certificate.id
      unused_certificates
      (answer unused_certificates fewer)
unfolding delete_certificates lookup ◌==◌ values values_at keys has_active_certificate_reference
delete_certificates_sound_example =
    delete_certificates_sound env (λ payload. none) (λ n. []) (certificate.id ∷ [])
      unused_certificates (answer unused_certificates fewer) certificate.id refl

clear_pending_jobs_sound_example :
    lookup job_a (clear_pending_jobs env now waiting).0.jobs ≡ kept_job (lookup job_a waiting.jobs)
clear_pending_jobs_sound_example = clear_pending_jobs_sound env now waiting job_a

abbrev pub coding : Coding
coding = record { encode_wire = λ payload. some []; decode_credentials = λ json. none }

abbrev failed_world : World
failed_world = world_with (record queued_job { status = failed; type = reload_nginx; id = job_b })

abbrev retried : Job × World
retried = answer (queued_job, failed_world) (retry_job box coding env job_b failed_world)

ids_full : (n : ℕ) (p k : Text) → env.fresh_id n p ≡ some k → non_empty k ≡ true
ids_full n p k e = subst (λ j. non_empty j ≡ true) (some_inj e) refl

retry_job_once_example :
    (retry_job box coding env job_b retried.1 ≡ err conflict)
    ⊎ (retry_job box coding env job_b retried.1 ≡ err id_error)
unfolding retry_job retry_found lookup ◌==◌ is_live_node commit_retry build_wire_job wire_payload
    retried_job
retry_job_once_example =
    retry_job_once box coding coding env env job_b failed_world retried.1 retried.0
      (Sound-one (record queued_job { status = failed; type = reload_nginx; id = job_b }) refl)
      ids_full refl
