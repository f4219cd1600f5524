-- ===== src/Lifecycle/Renewals.antt =====
-- The jobs under the requests to issue and to renew a certificate.
use nginx_atlas.Administration.{
  IssueRequest, either_text, first_acme_account_id, first_dns_account_id, guard, renew_for_domain,
  renew_found, renew_standalone, request_issue, request_renewal, validate_node_ids,
}
use nginx_atlas.Effects.{
  Env, World, add_audit, bind-ok, enqueue_job, not_found, ok, ok_inj, require,
}
use nginx_atlas.Jobs.Queries.{has_active_certificate_job, has_active_job}
use nginx_atlas.Lifecycle.Adds.{Sound}
use nginx_atlas.Lifecycle.Extends.{Extends, ExtendsAt-later}
use nginx_atlas.Lifecycle.Records.{sent_on}
use nginx_atlas.Model.{Certificate, Domain, Job, issue_certificate}
use nginx_atlas.Prelude.{
  Bool-cases, Option, Text, [], arith, inl, inr, is_some, le_refl, lookup, non_empty, none, not,
  some, subst, ◌&&◌, ◌+◌, ◌≡◌,
}
use nginx_atlas.Removal.{is_live_node}
use nginx_atlas.Wire.{fails_with}

module _ (env : Env) where
  pub request_issue-Extends :
      (request : IssueRequest) (w w' : World) (job : Job)
      → Sound env w.jobs w.reads
      → request_issue env request w ≡ ok (job, w')
      → Extends env w w'
  unfolding request_issue add_audit
  request_issue-Extends request w w' job sound e =
      let acme_id = either_text request.acme_account_id (first_acme_account_id w.state) in
      let dns_id = either_text request.dns_account_id (first_dns_account_id w.state) in
      let (u1, a, e1) = bind-ok (guard not_found (is_live_node request.node_id w)) _ e in
      let (u2, b, e2) = bind-ok (guard not_found (is_some (lookup acme_id w.acme_accounts))) _ e1 in
      let (u3, c, e3) = bind-ok (guard not_found (is_some (lookup dns_id w.dns_accounts))) _ e2 in
      let (targets, d, e4) =
        bind-ok (validate_node_ids w request.sync_node_ids request.node_id) _ e3 in
      let (sent, f, g) = bind-ok (enqueue_job env request.node_id [] issue_certificate _ w) _ e4 in
      subst (λ (q : Job × World). Extends env w q.1) (ok_inj g)
        (sent_on env request.node_id [] issue_certificate _ w sent (sent.1.reads + 2) sound f
          (omega arith))

  renew_for_domain-Extends :
      (domain : Domain) (w w' : World) (job : Job)
      → Sound env w.jobs w.reads
      → renew_for_domain env domain w ≡ ok (job, w')
      → Extends env w w'
  unfolding renew_for_domain
  renew_for_domain-Extends domain w w' job sound e =
      let (v0, a0, e0) =
        bind-ok
          (guard (fails_with "domain node no longer exists")
            (is_some (lookup domain.node_id w.nodes)))
          _ e in
      let (v1, a1, e1) =
        bind-ok (guard (fails_with "domain node has been revoked") (is_live_node domain.node_id w))
          _ e0 in
      let (v2, a2, e2) =
        bind-ok
          (guard (fails_with "ACME account no longer exists")
            (is_some (lookup domain.acme_account_id w.acme_accounts)))
          _ e1 in
      let (v3, a3, e3) =
        bind-ok
          (guard (fails_with "DNS account no longer exists")
            (is_some (lookup domain.dns_account_id w.dns_accounts)))
          _ e2 in
      let (v4, a4, e4) =
        bind-ok
          (guard (fails_with "certificate renewal is already queued")
            (not (has_active_job w.jobs domain.id issue_certificate)))
          _ e3 in
      let (sent, f, g) =
        bind-ok (enqueue_job env domain.node_id domain.id issue_certificate _ w) _ e4 in
      subst (λ (q : Job × World). Extends env w q.1) (ok_inj g)
        (sent_on env domain.node_id domain.id issue_certificate _ w sent (sent.1.reads + 1) sound f
          (omega arith))

  renew_standalone-Extends :
      (certificate : Certificate) (w w' : World) (job : Job)
      → Sound env w.jobs w.reads
      → renew_standalone env certificate w ≡ ok (job, w')
      → Extends env w w'
  unfolding renew_standalone
  renew_standalone-Extends certificate w w' job sound e =
      let (v0, a0, e0) =
        bind-ok
          (guard
            (fails_with
              "certificate is not linked to a signing node, DNS account, and ACME account")
            (non_empty certificate.acme_account_id
              && non_empty certificate.dns_account_id
              && non_empty certificate.issuer_node_id))
          _ e in
      let (v1, a1, e1) =
        bind-ok
          (guard (fails_with "issuer node no longer exists")
            (is_some (lookup certificate.issuer_node_id w.nodes)))
          _ e0 in
      let (v2, a2, e2) =
        bind-ok
          (guard (fails_with "issuer node has been revoked")
            (is_live_node certificate.issuer_node_id w))
          _ e1 in
      let (v3, a3, e3) =
        bind-ok
          (guard (fails_with "ACME account no longer exists")
            (is_some (lookup certificate.acme_account_id w.acme_accounts)))
          _ e2 in
      let (v4, a4, e4) =
        bind-ok
          (guard (fails_with "DNS account no longer exists")
            (is_some (lookup certificate.dns_account_id w.dns_accounts)))
          _ e3 in
      let (v5, a5, e5) =
        bind-ok
          (guard (fails_with "certificate renewal is already queued")
            (not (has_active_certificate_job env w.jobs certificate.id)))
          _ e4 in
      sent_on env certificate.issuer_node_id [] issue_certificate _ w (job, w') w'.reads sound e5
        (le_refl w'.reads)

  renew_found-Extends :
      (certificate : Certificate) (w w' : World) (o : Option Domain) (job : Job)
      → Sound env w.jobs w.reads
      → renew_found env certificate w o ≡ ok (job, w')
      → Extends env w w'
  unfolding renew_found
  renew_found-Extends certificate w w' none job sound e =
      renew_standalone-Extends certificate w w' job sound e
  renew_found-Extends certificate w w' (some domain) job sound e =
      elim (Bool-cases (non_empty domain.acme_account_id && non_empty domain.dns_account_id)) [
        | inl t ↦ renew_for_domain-Extends domain w w' job sound (rw (t, renew_found) at e)
        | inr f ↦ renew_standalone-Extends certificate w w' job sound (rw (f, renew_found) at e)
      ]

  pub request_renewal-Extends :
      (certificate_id : Text) (w w' : World) (job : Job)
      → Sound env w.jobs w.reads
      → request_renewal env certificate_id w ≡ ok (job, w')
      → Extends env w w'
  unfolding request_renewal add_audit
  request_renewal-Extends certificate_id w w' job sound e =
      let (certificate, a, e1) =
        bind-ok (require not_found (lookup certificate_id w.certificates)) _ e in
      let (sent, b, e2) = bind-ok (renew_found env certificate w _) _ e1 in
      subst (λ (q : Job × World). Extends env w q.1) (ok_inj e2)
        (ExtendsAt-later (renew_found-Extends certificate w sent.1 _ sent.0 sound b) (omega arith))
