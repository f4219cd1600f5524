-- ===== src/Administration/Accounts.antt =====
-- The transactions of handleCreateDNSAccount, handleUpdateDNSAccount, handleCreateACMEAccount and
-- handleUpdateACMEAccount, with the sealing of their secrets. json.Marshal of the credentials is a
-- parameter; a request has passed the tests of its decoder.
use nginx_atlas.Administration.Renewals.{guard}
use nginx_atlas.Effects.{
  Env, Result, World, add_audit, conflict, id_error, not_found, ok, other_error, require, ◌>>=◌,
}
use nginx_atlas.Model.{AcmeAccount, DnsAccount, Time}
use nginx_atlas.Prelude.{
  Bool, Dict, Option, Text, [], bytes, if◌then◌else◌, insert, is_empty, lookup, non_empty, not,
  ◌++◌, ◌+◌,
}
use nginx_atlas.SecureBox.{Box}
use nginx_atlas.Wire.{must_seal}

pub record DnsAccountRequest : Type 0 where
  pub name : Text
  pub provider : Text
  pub credentials : Dict Text
  pub keep_credentials : Bool

pub record AcmeAccountRequest : Type 0 where
  pub name : Text
  pub email : Text
  pub directory_url : Text
  pub eab_kid : Text
  pub eab_hmac : Text
  pub keep_eab : Bool

abbrev put_dns_account : Text → DnsAccount → World → World
put_dns_account k account w =
    let s = w.state in
    record w { state = record s { dns_accounts = insert k account s.dns_accounts } }

abbrev put_acme_account : Text → AcmeAccount → World → World
put_acme_account k account w =
    let s = w.state in
    record w { state = record s { acme_accounts = insert k account s.acme_accounts } }

-- The purpose of the credentials of a DNS account, and of the HMAC of an ACME account.
abbrev pub dns_purpose : Text → Text
dns_purpose id = bytes "dns-account:" ++ id

abbrev pub eab_purpose : Text → Text
eab_purpose id = bytes "acme-account:" ++ id ++ bytes ":eab"

module _ (box : Box) (env : Env) (encode_credentials : Dict Text → Text) (nonce : Option Text) where
  -- There is one account at most; its id is drawn, and its secret sealed, before the transaction.
  unfoldable pub create_dns_account : DnsAccountRequest → World → Result World
  create_dns_account request w = do
    allowed ← guard (other_error (bytes "invalid_credentials")) (not request.keep_credentials)
    id ← require id_error (env.fresh_id w.reads (bytes "dns"))
    ciphertext ← must_seal box nonce (dns_purpose id) (encode_credentials request.credentials)
    let now = env.clock (w.reads + 1)
    first_one ← guard conflict (is_empty w.dns_accounts)
    ok (
        add_audit env (bytes "info") (bytes "dns-account.created") (bytes "DNS 账户已加密保存") [] (
          put_dns_account id
            (record {
              id = id;
              name = request.name;
              provider = request.provider;
              credentials_ciphertext = ciphertext;
              created_at = now;
              updated_at = now;
            })
            (record w { reads = w.reads + 2 })))

  unfoldable pub new_credentials : Text → DnsAccountRequest → DnsAccount → Result Text
  new_credentials id request account =
      if request.keep_credentials
      then ok account.credentials_ciphertext
      else must_seal box nonce (dns_purpose id) (encode_credentials request.credentials)

  unfoldable pub update_dns_account : Text → DnsAccountRequest → Time → World → Result World
  update_dns_account account_id request now w = do
    account ← require not_found (lookup account_id w.dns_accounts)
    ciphertext ← new_credentials account_id request account
    ok (
        add_audit env (bytes "info") (bytes "dns-account.updated") (bytes "DNS 账户已更新") [] (
          put_dns_account account_id
            (record account {
              name = request.name;
              provider = request.provider;
              credentials_ciphertext = ciphertext;
              updated_at = now;
            })
            w))

  unfoldable pub sealed_hmac : Text → Text → Result Text
  sealed_hmac id hmac = if non_empty hmac then must_seal box nonce (eab_purpose id) hmac else ok []

  unfoldable pub create_acme_account : AcmeAccountRequest → World → Result World
  create_acme_account request w = do
    id ← require id_error (env.fresh_id w.reads (bytes "acme"))
    ciphertext ← sealed_hmac id request.eab_hmac
    let now = env.clock (w.reads + 1)
    first_one ← guard conflict (is_empty w.acme_accounts)
    ok (
        add_audit env (bytes "info") (bytes "acme-account.created") (bytes "ACME 账户已保存") [] (
          put_acme_account id
            (record {
              id = id;
              name = request.name;
              email = request.email;
              directory_url = request.directory_url;
              eab_kid = request.eab_kid;
              eab_hmac_ciphertext = ciphertext;
              created_at = now;
              updated_at = now;
            })
            (record w { reads = w.reads + 2 })))

  -- The key id and the sealed HMAC: kept, removed or replaced.
  unfoldable pub new_eab : AcmeAccountRequest → AcmeAccount → Result (Text × Text)
  new_eab request account =
      if request.keep_eab
      then ok (account.eab_kid, account.eab_hmac_ciphertext)
      else if non_empty request.eab_kid
      then must_seal box nonce (eab_purpose account.id) request.eab_hmac
        >>= (λ ciphertext. ok (request.eab_kid, ciphertext))
      else ok ([], [])

  unfoldable pub update_acme_account : Text → AcmeAccountRequest → Time → World → Result World
  update_acme_account account_id request now w = do
    account ← require not_found (lookup account_id w.acme_accounts)
    eab ← new_eab request account
    ok (
        add_audit env (bytes "info") (bytes "acme-account.updated") (bytes "ACME 账户已更新") [] (
          put_acme_account account.id
            (record account {
              name = request.name;
              email = request.email;
              directory_url = request.directory_url;
              eab_kid = eab.0;
              eab_hmac_ciphertext = eab.1;
              updated_at = now;
            })
            w))
