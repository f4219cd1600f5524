-- ===== src/Reports/Defs.antt =====
-- The functions on reports, statuses and texts.
use nginx_atlas.Model.{CertificateMeta, NginxSiteMeta, Node, NodeStatus, Time}
use nginx_atlas.Prelude.{
  Bool, List, Option, Text, [], bytes, contains, drop, if◌then◌else◌, leb, length, ltb, non_empty,
  none, some, take, trim_space, ℕ, ◌++◌, ◌-◌, ◌==◌, ◌||◌, ◌∷◌,
}
use nginx_atlas.Protocol.{NodeReport}

unfoldable pub truncate : Text → ℕ → Text
truncate value max =
    let trimmed = trim_space value in if leb (length trimmed) max then trimmed else take max trimmed

unfoldable pub safe_job_message : Text → Text
unfolding truncate
safe_job_message message =
    if non_empty (trim_space message) then truncate message 256 else bytes "节点任务执行成功"

unfoldable pub append_unique : List Text → Text → List Text
append_unique xs x = if contains x xs then xs else xs ++ x ∷ []

unfoldable pub remove_string : List Text → Text → List Text
remove_string [] target = []
remove_string (x ∷ xs) target =
    let rest = remove_string xs target in if x == target then rest else x ∷ rest

abbrev pub max_status_samples : ℕ
max_status_samples = 16

unfoldable pub append_status_sample : Node → NodeStatus → Time → Node
append_status_sample node status observed_at =
    let history =
      node.status_history ++ record { status = status; observed_at = observed_at } ∷ [] in
    record node {
      status_history =
          if ltb max_status_samples (length history)
          then drop (length history - max_status_samples) history
          else history;
    }

unfoldable pub apply_node_report : Node → NodeReport → Node
unfolding truncate
apply_node_report node report = record node {
  hostname = truncate (trim_space report.hostname) 255;
  ip_addresses = report.ip_addresses;
  os = truncate report.os 64;
  os_name = truncate report.os_name 160;
  os_version = truncate report.os_version 64;
  arch = truncate report.arch 64;
  package_manager = truncate report.package_manager 16;
  controller_installed = report.controller_installed;
  nginx_version = truncate report.nginx_version 256;
  nginx_healthy = report.nginx_healthy;
  agent_version = truncate report.agent_version 64;
  certificates = report.certificates;
  nginx_sites = report.nginx_sites;
  last_error = truncate report.last_error 2048;
}

-- The three loops of validateNodeReport: each ends at the first element that is refused.
-- netip.ParseAddr is a parameter: whether a text is an address.
module _ (parse_addr : Text → Bool) where
  unfoldable pub check_addresses : List Text → Option Text
  check_addresses [] = none
  check_addresses (address ∷ rest) =
      if ltb 64 (length address)
      then some (bytes "IP address is too long")
      else if parse_addr (trim_space address)
      then check_addresses rest
      else some (bytes "invalid IP address")

unfoldable pub check_names : List Text → Option Text
check_names [] = none
check_names (name ∷ rest) =
    if ltb 253 (length name) then some (bytes "certificate name is too long") else check_names rest

abbrev pub max_reported_addresses : ℕ
max_reported_addresses = 32

abbrev pub max_reported_certificates : ℕ
max_reported_certificates = 256

abbrev pub max_reported_nginx_sites : ℕ
max_reported_nginx_sites = 256

abbrev pub max_reported_certificate_sans : ℕ
max_reported_certificate_sans = 100

unfoldable pub check_certificates : List CertificateMeta → Option Text
check_certificates [] = none
check_certificates (certificate ∷ rest) =
    if ltb 253 (length certificate.domain)
      || ltb 1024 (length certificate.path)
      || ltb 512 (length certificate.issuer)
      || ltb 2048 (length certificate.error)
    then some (bytes "certificate metadata is too large")
    else if ltb max_reported_certificate_sans (length certificate.dns_names)
    then some (bytes "certificate contains too many names")
    else elim (check_names certificate.dns_names) [
      | some reason ↦ some reason
      | none ↦ check_certificates rest
    ]

unfoldable pub check_sites : List NginxSiteMeta → Option Text
check_sites [] = none
check_sites (site ∷ rest) =
    if ltb 253 (length site.domain)
      || ltb 1024 (length site.config_path)
      || ltb 253 (length site.upstream_host)
      || ltb 1024 (length site.certificate_path)
    then some (bytes "nginx site metadata is too large")
    else check_sites rest

-- The first reason for which a report is refused.
unfoldable pub validate_node_report : (Text → Bool) → NodeReport → Option Text
validate_node_report parse_addr report =
    if ltb max_reported_addresses (length report.ip_addresses)
    then some (bytes "too many IP addresses")
    else elim (check_addresses parse_addr report.ip_addresses) [
      | some reason ↦ some reason
      | none ↦
          if ltb max_reported_certificates (length report.certificates)
          then some (bytes "too many certificates")
          else elim (check_certificates report.certificates) [
            | some reason ↦ some reason
            | none ↦
                if ltb max_reported_nginx_sites (length report.nginx_sites)
                then some (bytes "too many nginx sites")
                else check_sites report.nginx_sites
          ]
    ]
