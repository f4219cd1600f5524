-- ===== src/Model/Domains.antt =====
-- internal/model/model.go: domains, and the controller's settings.
use nginx_atlas.Model.Nodes.{Time}
use nginx_atlas.Prelude.{Bool, List, Text, ℕ}

-- A CertificateSource; the empty text stands for no certificate.
pub data CertificateSource : Type 0 where
  source_local source_upload source_acme : CertificateSource
  other_source : Text → CertificateSource

pub record Domain : Type 0 where
  pub id : Text
  pub name : Text
  pub node_id : Text
  pub upstream_host : Text
  pub upstream_port : ℕ
  pub certificate_id : Text
  pub certificate_mode : CertificateSource
  pub acme_account_id : Text
  pub dns_account_id : Text
  pub auto_renew : Bool
  pub renew_before_days : ℕ
  pub sync_node_ids : List Text
  pub enabled : Bool
  pub deleting : Bool
  pub observed_only : Bool
  pub taken_over : Bool
  pub config_path : Text
  pub cloudflare_enabled : Bool
  pub cloudflare_dns_account_id : Text
  pub cloudflare_proxied : Bool
  pub cloudflare_record_type : Text
  pub cloudflare_record_content : Text
  pub nginx_websocket : Bool
  pub nginx_s3_compatible : Bool
  pub nginx_http2 : Bool
  pub nginx_gzip : Bool
  pub custom_config : Text
  pub last_job_id : Text
  pub last_error : Text
  pub created_at : Time
  pub updated_at : Time

pub record ControllerSettings : Type 0 where
  pub node_poll_seconds : ℕ
  pub turnstile_enabled : Bool
  pub turnstile_site_key : Text
  pub turnstile_secret_ciphertext : Text
  pub panel_allowed_cidrs : List Text
  pub security_entrance_hash : Text
  pub security_entrance_status : ℕ
