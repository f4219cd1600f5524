-- ===== src/Wire/Payloads.antt =====
-- internal/protocol/protocol.go: the payloads that an agent is sent.
use nginx_atlas.Model.{JobType}
use nginx_atlas.Prelude.{Bool, Dict, List, Option, Text, ℕ}
use nginx_atlas.Protocol.{CertificateBundle, UpdateAtlasPayload, UpdateSystemPayload}

pub record ApplyDomainPayload : Type 0 where
  pub domain : Text
  pub upstream_host : Text
  pub upstream_port : ℕ
  pub tls : Bool
  pub use_local_certificate : Bool
  pub local_certificate_dir : Text
  pub certificate : Option CertificateBundle
  pub capture_certificate : Bool
  pub replace_config_path : Text
  pub nginx_websocket : Bool
  pub nginx_s3_compatible : Bool
  pub nginx_http2 : Bool
  pub nginx_gzip : Bool
  pub custom_config : Text

pub record DeleteDomainPayload : Type 0 where
  pub domain : Text
  pub restore_config_path : Text

pub record SyncCertificatePayload : Type 0 where
  pub domain : Text
  pub certificate : CertificateBundle
  pub reload_nginx : Bool

pub record IssueCertificatePayload : Type 0 where
  pub domain : Text
  pub domains : List Text
  pub email : Text
  pub directory_url : Text
  pub dns_provider : Text
  pub credentials : Dict Text
  pub eab_kid : Text
  pub eab_hmac : Text

pub record CaptureCertificatePayload : Type 0 where
  pub domain : Text

pub data WirePayload : Type 0 where
  apply_payload : ApplyDomainPayload → WirePayload
  delete_payload : DeleteDomainPayload → WirePayload
  sync_payload : SyncCertificatePayload → WirePayload
  issue_payload : IssueCertificatePayload → WirePayload
  capture_payload : CaptureCertificatePayload → WirePayload
  reload_payload : WirePayload
  atlas_payload : UpdateAtlasPayload → WirePayload
  system_payload : UpdateSystemPayload → WirePayload

pub record WireJob : Type 0 where
  pub id : Text
  pub type : JobType
  pub payload : Text
