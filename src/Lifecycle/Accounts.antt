-- ===== src/Lifecycle/Accounts.antt =====
-- The jobs under the requests for accounts, which leave them alone.
use nginx_atlas.Administration.{
  AcmeAccountRequest, DnsAccountRequest, create_acme_account, create_dns_account, dns_purpose,
  guard, new_credentials, new_eab, sealed_hmac, update_acme_account, update_dns_account,
}
use nginx_atlas.Effects.{
  Env, World, add_audit, bind-ok, conflict, id_error, not_found, ok, ok_inj, other_error, require,
}
use nginx_atlas.Lifecycle.Advance.{Keyed}
use nginx_atlas.Lifecycle.Extends.{Extends, ExtendsAt-refl}
use nginx_atlas.Model.{Time}
use nginx_atlas.Prelude.{Dict, Option, Text, arith, bytes, is_empty, lookup, not, subst, ◌+◌, ◌≡◌}
use nginx_atlas.SecureBox.{Box}
use nginx_atlas.Wire.{must_seal}

module _ (box : Box) (env : Env) (encode_credentials : Dict Text → Text) (nonce : Option Text) where
  pub create_dns_account-Extends :
      (request : DnsAccountRequest) (w w' : World)
      → Keyed w.jobs
      → create_dns_account box env encode_credentials nonce request w ≡ ok w'
      → Extends env w w'
  unfolding create_dns_account add_audit
  create_dns_account-Extends request w w' keyed e =
      let (u, a, e1) =
        bind-ok (guard (other_error (bytes "invalid_credentials")) (not request.keep_credentials)) _
          e in
      let (id, b, e2) = bind-ok (require id_error (env.fresh_id w.reads (bytes "dns"))) _ e1 in
      let (ciphertext, c, e3) =
        bind-ok (must_seal box nonce (dns_purpose id) (encode_credentials request.credentials)) _
          e2 in
      let (v, d, e4) = bind-ok (guard conflict (is_empty w.dns_accounts)) _ e3 in
      subst (Extends env w) (ok_inj e4)
        (ExtendsAt-refl env w.jobs w.reads (w.reads + 2 + 2) keyed (omega arith))

  pub update_dns_account-Extends :
      (account_id : Text) (request : DnsAccountRequest) (now : Time) (w w' : World)
      → Keyed w.jobs
      → update_dns_account box env encode_credentials nonce account_id request now w ≡ ok w'
      → Extends env w w'
  unfolding update_dns_account add_audit
  update_dns_account-Extends account_id request now w w' keyed e =
      let (account, a, e1) = bind-ok (require not_found (lookup account_id w.dns_accounts)) _ e in
      let (ciphertext, b, e2) =
        bind-ok (new_credentials box env encode_credentials nonce account_id request account) _
          e1 in
      subst (Extends env w) (ok_inj e2)
        (ExtendsAt-refl env w.jobs w.reads (w.reads + 2) keyed (omega arith))

  pub create_acme_account-Extends :
      (request : AcmeAccountRequest) (w w' : World)
      → Keyed w.jobs
      → create_acme_account box env encode_credentials nonce request w ≡ ok w'
      → Extends env w w'
  unfolding create_acme_account add_audit
  create_acme_account-Extends request w w' keyed e =
      let (id, b, e2) = bind-ok (require id_error (env.fresh_id w.reads (bytes "acme"))) _ e in
      let (ciphertext, c, e3) =
        bind-ok (sealed_hmac box env encode_credentials nonce id request.eab_hmac) _ e2 in
      let (v, d, e4) = bind-ok (guard conflict (is_empty w.acme_accounts)) _ e3 in
      subst (Extends env w) (ok_inj e4)
        (ExtendsAt-refl env w.jobs w.reads (w.reads + 2 + 2) keyed (omega arith))

  pub update_acme_account-Extends :
      (account_id : Text) (request : AcmeAccountRequest) (now : Time) (w w' : World)
      → Keyed w.jobs
      → update_acme_account box env encode_credentials nonce account_id request now w ≡ ok w'
      → Extends env w w'
  unfolding update_acme_account add_audit
  update_acme_account-Extends account_id request now w w' keyed e =
      let (account, a, e1) = bind-ok (require not_found (lookup account_id w.acme_accounts)) _ e in
      let (eab, b, e2) = bind-ok (new_eab box env encode_credentials nonce request account) _ e1 in
      subst (Extends env w) (ok_inj e2)
        (ExtendsAt-refl env w.jobs w.reads (w.reads + 2) keyed (omega arith))
