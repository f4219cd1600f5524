-- ===== src/Model/Nodes.antt =====
-- internal/model/model.go: nodes, what an agent reports of them, and enrollments.
-- A time.Time is a number of nanoseconds, 0 being its zero value; a *time.Time is an Option.
-- The difference of two times stops at 0: the program only compares it with positive bounds.
use nginx_atlas.Prelude.{Bool, Dict, List, Option, Text, [], false, none, true, ℕ, ◌*◌}

abbrev pub Time : Type 0
Time = ℕ

-- A time.Duration.
abbrev pub second : ℕ
second = 1_000_000_000

abbrev pub minute : ℕ
minute = 60 * second

abbrev pub hour : ℕ
hour = 60 * minute

pub data NodeStatus : Type 0 where
  node_pending node_online node_offline node_revoked : NodeStatus
  other_node_status : Text → NodeStatus

abbrev pub is_revoked : NodeStatus → Bool
is_revoked node_revoked = true
is_revoked _ = false

abbrev pub is_online : NodeStatus → Bool
is_online node_online = true
is_online _ = false

abbrev pub is_offline : NodeStatus → Bool
is_offline node_offline = true
is_offline _ = false

pub record NodeStatusSample : Type 0 where
  pub status : NodeStatus
  pub observed_at : Time

pub record CertificateMeta : Type 0 where
  pub domain : Text
  pub path : Text
  pub fingerprint_sha256 : Text
  pub issuer : Text
  pub not_after : Time
  pub dns_names : List Text
  pub key_matches : Bool
  pub error : Text

pub record NginxSiteMeta : Type 0 where
  pub domain : Text
  pub config_path : Text
  pub upstream_host : Text
  pub upstream_port : ℕ
  pub tls : Bool
  pub certificate_path : Text
  pub managed_by_atlas : Bool

pub record Node : Type 0 where
  pub id : Text
  pub name : Text
  pub secret_hash : Text
  pub status : NodeStatus
  pub hostname : Text
  pub ip_addresses : List Text
  pub os : Text
  pub os_name : Text
  pub os_version : Text
  pub arch : Text
  pub package_manager : Text
  pub controller_installed : Bool
  pub nginx_version : Text
  pub nginx_healthy : Bool
  pub agent_version : Text
  pub last_seen_at : Option Time
  pub created_at : Time
  pub revoked_at : Option Time
  pub labels : Dict Text
  pub certificates : List CertificateMeta
  pub nginx_sites : List NginxSiteMeta
  pub last_error : Text
  pub running_job_id : Text
  pub status_history : List NodeStatusSample

-- What a read of a missing key of the map of nodes yields.
abbrev pub zero_node : Node
zero_node = record {
  id = [];
  name = [];
  secret_hash = [];
  status = other_node_status [];
  hostname = [];
  ip_addresses = [];
  os = [];
  os_name = [];
  os_version = [];
  arch = [];
  package_manager = [];
  controller_installed = false;
  nginx_version = [];
  nginx_healthy = false;
  agent_version = [];
  last_seen_at = none;
  created_at = 0;
  revoked_at = none;
  labels = [];
  certificates = [];
  nginx_sites = [];
  last_error = [];
  running_job_id = [];
  status_history = [];
}

pub record Enrollment : Type 0 where
  pub id : Text
  pub name : Text
  pub token_hash : Text
  pub expires_at : Time
  pub used_at : Option Time
  pub created_at : Time
