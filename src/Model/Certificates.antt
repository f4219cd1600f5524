-- ===== src/Model/Certificates.antt =====
-- internal/model/model.go: certificates, and the accounts that issue them.
use nginx_atlas.Model.Domains.{CertificateSource, other_source}
use nginx_atlas.Model.Nodes.{Time}
use nginx_atlas.Prelude.{Bool, List, Text, [], false, ℕ}

pub record Certificate : Type 0 where
  pub id : Text
  pub domain : Text
  pub source : CertificateSource
  pub fullchain_ciphertext : Text
  pub private_key_ciphertext : Text
  pub fingerprint_sha256 : Text
  pub issuer : Text
  pub serial_number : Text
  pub not_before : Time
  pub not_after : Time
  pub dns_names : List Text
  pub requested_dns_names : List Text
  pub auto_renew : Bool
  pub renew_before_days : ℕ
  pub acme_account_id : Text
  pub dns_account_id : Text
  pub issuer_node_id : Text
  pub deployed_node_ids : List Text
  pub created_at : Time
  pub updated_at : Time

abbrev pub zero_certificate : Certificate
zero_certificate = record {
  id = [];
  domain = [];
  source = other_source [];
  fullchain_ciphertext = [];
  private_key_ciphertext = [];
  fingerprint_sha256 = [];
  issuer = [];
  serial_number = [];
  not_before = 0;
  not_after = 0;
  dns_names = [];
  requested_dns_names = [];
  auto_renew = false;
  renew_before_days = 0;
  acme_account_id = [];
  dns_account_id = [];
  issuer_node_id = [];
  deployed_node_ids = [];
  created_at = 0;
  updated_at = 0;
}

pub record DnsAccount : Type 0 where
  pub id : Text
  pub name : Text
  pub provider : Text
  pub credentials_ciphertext : Text
  pub created_at : Time
  pub updated_at : Time

pub record AcmeAccount : Type 0 where
  pub id : Text
  pub name : Text
  pub email : Text
  pub directory_url : Text
  pub eab_kid : Text
  pub eab_hmac_ciphertext : Text
  pub created_at : Time
  pub updated_at : Time
