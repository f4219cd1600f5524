-- ===== src/Protocol.antt =====
-- internal/protocol/protocol.go and the payloads of internal/server/admin.go: what the controller
-- and its agents exchange, and what a job carries.
use nginx_atlas.Prelude.{ℕ, Text, List, Option, Bool}
use nginx_atlas.Model.{CertificateMeta, NginxSiteMeta}

pub record NodeReport : Type 0 where
  pub hostname : Text
  pub ip_addresses : List Text
  pub os : Text
  pub os_name : Text
  pub os_version : Text
  pub arch : Text
  pub package_manager : Text
  pub controller_installed : Bool
  pub nginx_version : Text
  pub nginx_healthy : Bool
  pub agent_version : Text
  pub certificates : List CertificateMeta
  pub nginx_sites : List NginxSiteMeta
  pub last_error : Text

pub record CertificateBundle : Type 0 where
  pub fullchain_pem : Text
  pub private_key_pem : Text

-- The fields of a JobResultRequest that the controller reads.
pub record JobResultRequest : Type 0 where
  pub success : Bool
  pub message : Text
  pub error : Text
  pub certificate : Option CertificateBundle

pub record UpdateAtlasPayload : Type 0 where
  pub download_url : Text
  pub sha256 : Text
  pub expected_version : Text

pub record UpdateSystemPayload : Type 0 where
  pub package_manager : Text

pub record ApplyDomainSpec : Type 0 where
  pub domain_id : Text
  pub custom_config : Option Text
  pub certificate_id : Text
  pub use_local_certificate : Bool
  pub capture_certificate : Bool
  pub local_certificate_dir : Text
  pub replace_config_path : Text

pub record IssueCertificateSpec : Type 0 where
  pub domain_id : Text
  pub domain : Text
  pub dns_names : List Text
  pub certificate_id : Text
  pub acme_account_id : Text
  pub dns_account_id : Text
  pub auto_renew : Bool
  pub renew_before_days : ℕ
  pub install : Bool
  pub reload_nginx : Bool
  pub sync_node_ids : List Text

pub record CaptureCertificateSpec : Type 0 where
  pub domain_id : Text
  pub domain : Text
  pub certificate_id : Text
  pub acme_account_id : Text
  pub dns_account_id : Text
  pub auto_renew : Bool
  pub renew_before_days : ℕ
  pub sync_node_ids : List Text

pub record SyncCertificateSpec : Type 0 where
  pub certificate_id : Text
  pub domain : Text
  pub reload_nginx : Bool

pub record DeleteDomainSpec : Type 0 where
  pub domain_id : Text
  pub domain : Text
  pub restore_config_path : Text

-- What enqueueJob is given to encode.
pub data JobSpec : Type 0 where
  apply_spec : ApplyDomainSpec → JobSpec
  issue_spec : IssueCertificateSpec → JobSpec
  capture_spec : CaptureCertificateSpec → JobSpec
  sync_spec : SyncCertificateSpec → JobSpec
  delete_spec : DeleteDomainSpec → JobSpec
  atlas_spec : UpdateAtlasPayload → JobSpec
  system_spec : UpdateSystemPayload → JobSpec
