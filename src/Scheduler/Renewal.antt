-- ===== src/Scheduler/Renewal.antt =====
-- The last loops of runMaintenance: certificates that come near their end are issued again.
use nginx_atlas.Effects.{Env, Result, World, add_audit, enqueue_job, ok, put_domain, ◌>>=◌}
use nginx_atlas.Jobs.Queries.{
  desired_certificate_names, desired_names_for_domain, has_active_certificate_job, has_active_job,
  normalize_renew_before_days,
}
use nginx_atlas.Model.{Certificate, Domain, Time, hour, issue_certificate}
use nginx_atlas.Prelude.{
  Bool, List, Option, Text, [], bytes, contains, false, if◌then◌else◌, is_some, keep, lookup, ltb,
  map, non_empty, none, not, some, true, values, ℕ, ◌&&◌, ◌*◌, ◌-◌, ◌==◌, ◌∷◌,
}
use nginx_atlas.Protocol.{issue_spec}
use nginx_atlas.Removal.{is_live_node}

abbrev pub day : ℕ
day = 24 * hour

-- The node and the two accounts of a renewal are there.
unfoldable pub can_renew : Text → Text → Text → World → Bool
can_renew node_id acme_account_id dns_account_id w =
    is_live_node node_id w
    && is_some (lookup acme_account_id w.acme_accounts)
    && is_some (lookup dns_account_id w.dns_accounts)

-- A certificate that is valid for longer than its window is not renewed yet.
unfoldable pub is_fresh : Time → ℕ → Option Certificate → Bool
is_fresh now days none = false
is_fresh now days (some certificate) =
    ltb (normalize_renew_before_days days * day) (certificate.not_after - now)

-- The certificates that a domain renews.
unfoldable pub linked_renewals : World → List Text
linked_renewals w =
    map (λ (domain : Domain). domain.certificate_id)
      (keep (λ domain. domain.auto_renew && non_empty domain.certificate_id) (values w.domains))

module _ (env : Env) where
  unfoldable pub renew_domain_now : Time → Text → Domain → World → Result World
  renew_domain_now now k domain w = do
    sent ←
        enqueue_job env domain.node_id domain.id issue_certificate
          (issue_spec (record {
            domain_id = domain.id;
            domain = [];
            dns_names = desired_names_for_domain w.state domain;
            certificate_id = [];
            acme_account_id = [];
            dns_account_id = [];
            auto_renew = false;
            renew_before_days = 0;
            install = false;
            reload_nginx = false;
            sync_node_ids = [];
          }))
          w
    ok (
        add_audit env (bytes "info") (bytes "certificate.renew.scheduled") (bytes "证书进入自动续期窗口")
          (domain.node_id ∷ domain.id ∷ sent.0.id ∷ [])
          (put_domain k (record domain { last_job_id = sent.0.id; updated_at = now }) sent.1))

  unfoldable pub renew_domain : Time → Text → Domain → World → Result World
  renew_domain now k domain w =
      if domain.auto_renew
        && non_empty domain.acme_account_id
        && non_empty domain.dns_account_id
        && can_renew domain.node_id domain.acme_account_id domain.dns_account_id w
        && not (is_fresh now domain.renew_before_days (lookup domain.certificate_id w.certificates))
        && not (has_active_job w.jobs domain.id issue_certificate)
      then renew_domain_now now k domain w
      else ok w

  unfoldable pub renew_certificate_now : Certificate → World → Result World
  renew_certificate_now certificate w = do
    sent ←
        enqueue_job env certificate.issuer_node_id [] issue_certificate
          (issue_spec (record {
            domain_id = [];
            domain = certificate.domain;
            dns_names = desired_certificate_names certificate;
            certificate_id = certificate.id;
            acme_account_id = certificate.acme_account_id;
            dns_account_id = certificate.dns_account_id;
            auto_renew = true;
            renew_before_days = normalize_renew_before_days certificate.renew_before_days;
            install = true;
            reload_nginx = true;
            sync_node_ids =
                keep (λ node_id. not (node_id == certificate.issuer_node_id))
                  certificate.deployed_node_ids;
          }))
          w
    ok (
        add_audit env (bytes "info") (bytes "certificate.renew.scheduled") (bytes "独立证书进入自动续期窗口")
          (certificate.issuer_node_id ∷ [] ∷ sent.0.id ∷ []) sent.1)

  unfoldable pub renew_certificate : List Text → Time → Text → Certificate → World → Result World
  renew_certificate linked now k certificate w =
      if certificate.auto_renew
        && not (contains k linked)
        && non_empty certificate.acme_account_id
        && non_empty certificate.dns_account_id
        && non_empty certificate.issuer_node_id
        && not (is_fresh now certificate.renew_before_days (some certificate))
        && not (has_active_certificate_job env w.jobs certificate.id)
        && can_renew certificate.issuer_node_id certificate.acme_account_id
            certificate.dns_account_id w
      then renew_certificate_now certificate w
      else ok w
