-- ===== src/Administration/Renewals.antt =====
-- The transactions of handleSyncCertificate, handleIssueCertificate and handleRenewCertificate.
use nginx_atlas.Administration.Selections.{validate_node_ids}
use nginx_atlas.Agents.{find}
use nginx_atlas.Commands.{text_lt}
use nginx_atlas.Effects.{
  Env, Error, Result, World, add_audit, enqueue_job, err, not_found, ok, put_domain, require, ◌>>=◌,
}
use nginx_atlas.Jobs.Queries.{
  desired_certificate_names, desired_names_for_domain, domain_is_deleting,
  has_active_certificate_job, has_active_job, normalize_renew_before_days,
}
use nginx_atlas.Model.{
  Certificate, Domain, Job, State, Time, hour, issue_certificate, sync_certificate,
}
use nginx_atlas.Prelude.{
  Bool, List, Option, Text, [], bytes, false, if◌then◌else◌, is_some, keep, keys, leb, lookup,
  non_empty, none, not, some, true, values, ℕ, ◌&&◌, ◌*◌, ◌+◌, ◌-◌, ◌==◌, ◌∷◌,
}
use nginx_atlas.Protocol.{issue_spec, sync_spec}
use nginx_atlas.Removal.{is_live_node}
use nginx_atlas.Wire.{fails_with}

-- sort.Strings, and the first: the least of the ids.
unfoldable pub least : List Text → Text
least [] = []
least (a ∷ []) = a
least (a ∷ b ∷ rest) = let other = least (b ∷ rest) in if text_lt other a then other else a

abbrev pub first_acme_account_id : State → Text
first_acme_account_id state = least (keys state.acme_accounts)

abbrev pub first_dns_account_id : State → Text
first_dns_account_id state = least (keys state.dns_accounts)

unfoldable pub certificate_id_for_domain : State → Text → Text
certificate_id_for_domain state name =
    elim (find (λ (certificate : Certificate). certificate.domain == name)
      (values state.certificates)) [ none ↦ [] | some certificate ↦ certificate.id ]

abbrev pub either_text : Text → Text → Text
either_text a b = if non_empty a then a else b

-- The issuer, the ACME account and the DNS account of a certificate.
unfoldable pub certificate_automation_dependencies : State → Certificate → Text × Text × Text
certificate_automation_dependencies state certificate =
    if non_empty certificate.issuer_node_id
      && non_empty certificate.acme_account_id
      && non_empty certificate.dns_account_id
    then (certificate.issuer_node_id, certificate.acme_account_id, certificate.dns_account_id)
    else elim (find
        (λ (domain : Domain).
          not (domain_is_deleting state domain)
          && domain.certificate_id == certificate.id
          && domain.name == certificate.domain
          && non_empty domain.node_id
          && non_empty domain.acme_account_id
          && non_empty domain.dns_account_id)
        (values state.domains)) [
          | none ↦ (
            certificate.issuer_node_id,
            either_text certificate.acme_account_id (first_acme_account_id state),
            either_text certificate.dns_account_id (first_dns_account_id state),
          )
          | some domain ↦ (domain.node_id, domain.acme_account_id, domain.dns_account_id)
        ]

-- certificateState, at the time that is left.
pub data CertificateState : Type 0 where
  expired expiring valid : CertificateState

unfoldable pub certificate_state : Time → Time → CertificateState
certificate_state expiry now =
    if leb expiry now
    then expired
    else if leb (expiry - now) (30 * 24 * hour)
    then expiring
    else valid

-- The fields of the request for a new certificate.
pub record IssueRequest : Type 0 where
  pub node_id : Text
  pub domain : Text
  pub dns_names : List Text
  pub acme_account_id : Text
  pub dns_account_id : Text
  pub auto_renew : Bool
  pub renew_before_days : ℕ
  pub sync_node_ids : List Text

-- All of the tests of a guard, in their order.
abbrev pub guard : Error → Bool → Result {0} Unit
guard e true = ok tt
guard e false = err e

module _ (env : Env) where
  unfoldable pub queue_syncs : Certificate → List Text → World → Result (List Job × World)
  queue_syncs certificate [] w = ok ([], w)
  queue_syncs certificate (node_id ∷ rest) w =
      enqueue_job env node_id [] sync_certificate
        (sync_spec (record {
          certificate_id = certificate.id;
          domain = certificate.domain;
          reload_nginx = true;
        }))
        w
      >>= (λ (sent : Job × World).
          queue_syncs certificate rest sent.1
          >>= (λ (more : List Job × World). ok (sent.0 ∷ more.0, more.1)))

  unfoldable pub request_sync : Text → List Text → World → Result (List Job × World)
  request_sync certificate_id node_ids w = do
    certificate ← require not_found (lookup certificate_id w.certificates)
    targets ← validate_node_ids w node_ids []
    queued_jobs ← queue_syncs certificate targets w
    ok (
      queued_jobs.0,
      add_audit env (bytes "info") (bytes "certificate.sync.queued") (bytes "证书同步任务已加入队列") []
          queued_jobs.1,
    )

  unfoldable pub request_issue : IssueRequest → World → Result (Job × World)
  request_issue request w = do
    let acme_id = either_text request.acme_account_id (first_acme_account_id w.state)
    let dns_id = either_text request.dns_account_id (first_dns_account_id w.state)
    live ← guard not_found (is_live_node request.node_id w)
    acme ← guard not_found (is_some (lookup acme_id w.acme_accounts))
    dns ← guard not_found (is_some (lookup dns_id w.dns_accounts))
    targets ← validate_node_ids w request.sync_node_ids request.node_id
    sent ←
        enqueue_job env request.node_id [] issue_certificate
          (issue_spec (record {
            domain_id = [];
            domain = request.domain;
            dns_names = request.dns_names;
            certificate_id = certificate_id_for_domain w.state request.domain;
            acme_account_id = acme_id;
            dns_account_id = dns_id;
            auto_renew = request.auto_renew;
            renew_before_days = request.renew_before_days;
            install = true;
            reload_nginx = true;
            sync_node_ids = targets;
          }))
          w
    ok (
      sent.0,
      add_audit env (bytes "info") (bytes "certificate.issue.queued") (bytes "独立证书签发任务已加入队列")
          (request.node_id ∷ [] ∷ sent.0.id ∷ []) sent.1,
    )

  unfoldable pub renew_for_domain : Domain → World → Result (Job × World)
  renew_for_domain domain w = do
    there ←
        guard (fails_with "domain node no longer exists") (is_some (lookup domain.node_id w.nodes))
    live ← guard (fails_with "domain node has been revoked") (is_live_node domain.node_id w)
    acme ←
        guard (fails_with "ACME account no longer exists")
          (is_some (lookup domain.acme_account_id w.acme_accounts))
    dns ←
        guard (fails_with "DNS account no longer exists")
          (is_some (lookup domain.dns_account_id w.dns_accounts))
    idle ←
        guard (fails_with "certificate renewal is already queued")
          (not (has_active_job w.jobs domain.id issue_certificate))
    sent ←
        enqueue_job env domain.node_id domain.id issue_certificate
          (issue_spec (record {
            domain_id = domain.id;
            domain = [];
            dns_names = desired_names_for_domain w.state domain;
            certificate_id = [];
            acme_account_id = [];
            dns_account_id = [];
            auto_renew = false;
            renew_before_days = 0;
            install = false;
            reload_nginx = false;
            sync_node_ids = [];
          }))
          w
    ok (
      sent.0,
      put_domain domain.id
          (record domain { last_job_id = sent.0.id; updated_at = env.clock sent.1.reads })
          (record sent.1 { reads = sent.1.reads + 1 }),
    )

  unfoldable pub renew_standalone : Certificate → World → Result (Job × World)
  renew_standalone certificate w = do
    linked ←
        guard
          (fails_with "certificate is not linked to a signing node, DNS account, and ACME account")
          (non_empty certificate.acme_account_id
            && non_empty certificate.dns_account_id
            && non_empty certificate.issuer_node_id)
    there ←
        guard (fails_with "issuer node no longer exists")
          (is_some (lookup certificate.issuer_node_id w.nodes))
    live ←
        guard (fails_with "issuer node has been revoked")
          (is_live_node certificate.issuer_node_id w)
    acme ←
        guard (fails_with "ACME account no longer exists")
          (is_some (lookup certificate.acme_account_id w.acme_accounts))
    dns ←
        guard (fails_with "DNS account no longer exists")
          (is_some (lookup certificate.dns_account_id w.dns_accounts))
    idle ←
        guard (fails_with "certificate renewal is already queued")
          (not (has_active_certificate_job env w.jobs certificate.id))
    enqueue_job env certificate.issuer_node_id [] issue_certificate
        (issue_spec (record {
          domain_id = [];
          domain = certificate.domain;
          dns_names = desired_certificate_names certificate;
          certificate_id = certificate.id;
          acme_account_id = certificate.acme_account_id;
          dns_account_id = certificate.dns_account_id;
          auto_renew = certificate.auto_renew;
          renew_before_days = normalize_renew_before_days certificate.renew_before_days;
          install = true;
          reload_nginx = true;
          sync_node_ids =
              keep (λ node_id. not (node_id == certificate.issuer_node_id))
                certificate.deployed_node_ids;
        }))
        w

  -- The domain of the certificate renews it, if it names both accounts.
  unfoldable pub renew_found : Certificate → World → Option Domain → Result (Job × World)
  renew_found certificate w none = renew_standalone certificate w
  renew_found certificate w (some domain) =
      if non_empty domain.acme_account_id && non_empty domain.dns_account_id
      then renew_for_domain domain w
      else renew_standalone certificate w

  unfoldable pub request_renewal : Text → World → Result (Job × World)
  request_renewal certificate_id w = do
    certificate ← require not_found (lookup certificate_id w.certificates)
    sent ← renew_found certificate w (
        find
          (λ (domain : Domain).
            domain.certificate_id == certificate.id && domain.name == certificate.domain)
          (values w.domains))
    ok (
      sent.0,
      add_audit env (bytes "info") (bytes "certificate.renew.queued") (bytes "证书续期任务已加入队列")
          (sent.0.node_id ∷ sent.0.domain_id ∷ sent.0.id ∷ []) sent.1,
    )
