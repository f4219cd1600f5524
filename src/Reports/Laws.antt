-- ===== src/Reports/Laws.antt =====
-- The bounds that a report and a status history keep.
use nginx_atlas.Model.{CertificateMeta, NginxSiteMeta, Node, NodeStatus, Time}
use nginx_atlas.Prelude.{
  ==_iff, All, Bool, List, Text, [], arith, contains, false, length, length-drop, length-take-le,
  none, refl, trim_space, true, ℕ, ◌++◌, ◌-◌, ◌∷◌, ◌≡◌, ◌≤◌,
}
use nginx_atlas.Protocol.{NodeReport}
use nginx_atlas.Reports.Defs.{
  append_status_sample, append_unique, check_addresses, check_certificates, check_names,
  check_sites, max_reported_addresses, max_reported_certificate_sans, max_reported_certificates,
  max_reported_nginx_sites, max_status_samples, remove_string, truncate, validate_node_report,
}

pub length-truncate-le : (value : Text) (max : ℕ) → length (truncate value max) ≤ max
unfolding truncate
length-truncate-le value max = ground (arith, length-take-le max (trim_space value))

-- A node keeps 16 status samples at most, however many it had.
pub append_status_sample_bounded :
    (node : Node) (status : NodeStatus) (observed_at : Time)
    → length (append_status_sample node status observed_at).status_history ≤ max_status_samples
unfolding append_status_sample
append_status_sample_bounded node status observed_at =
    let history =
      node.status_history ++ record { status = status; observed_at = observed_at } ∷ [] in
    ground (arith, length-drop (length history - max_status_samples) history)

contains-append_end : (xs : List Text) (x : Text) → contains x (xs ++ x ∷ []) ≡ true
unfolding contains
contains-append_end [] x = ground (arith, ==_iff x x)
contains-append_end (y ∷ ys) x = ground (arith, contains-append_end ys x)

pub contains-append_unique : (xs : List Text) (x : Text) → contains x (append_unique xs x) ≡ true
unfolding append_unique
contains-append_unique xs x = ground (arith, contains-append_end xs x)

pub contains-remove_string : (xs : List Text) (x : Text) → contains x (remove_string xs x) ≡ false
unfolding remove_string contains
contains-remove_string [] x = refl
contains-remove_string (y ∷ ys) x = ground (arith, ==_iff y x, contains-remove_string ys x)

-- The limits of one certificate, and of one site, in an accepted report.
pub record CertificateFits (c : CertificateMeta) : Type 0 where
  pub domain_fits : length c.domain ≤ 253
  pub path_fits : length c.path ≤ 1024
  pub issuer_fits : length c.issuer ≤ 512
  pub error_fits : length c.error ≤ 2048
  pub sans_fit : length c.dns_names ≤ max_reported_certificate_sans
  pub names_fit : All (λ name. length name ≤ 253) c.dns_names

pub record SiteFits (s : NginxSiteMeta) : Type 0 where
  pub domain_fits : length s.domain ≤ 253
  pub path_fits : length s.config_path ≤ 1024
  pub host_fits : length s.upstream_host ≤ 253
  pub certificate_fits : length s.certificate_path ≤ 1024

check_addresses-All :
    (p : Text → Bool) (xs : List Text)
    → check_addresses p xs ≡ none
    → All (λ a. (length a ≤ 64) × (p (trim_space a) ≡ true)) xs
unfolding check_addresses
check_addresses-All p [] h = tt
check_addresses-All p (x ∷ xs) h = ground (arith, check_addresses-All p xs)

check_names-All : (xs : List Text) → check_names xs ≡ none → All (λ name. length name ≤ 253) xs
unfolding check_names
check_names-All [] h = tt
check_names-All (x ∷ xs) h = ground (arith, check_names-All xs)

check_certificates-All :
    (xs : List CertificateMeta) → check_certificates xs ≡ none → All CertificateFits xs
unfolding check_certificates
check_certificates-All [] h = tt
check_certificates-All (x ∷ xs) h =
    ground (arith, check_names-All x.dns_names, check_certificates-All xs)

check_sites-All : (xs : List NginxSiteMeta) → check_sites xs ≡ none → All SiteFits xs
unfolding check_sites
check_sites-All [] h = tt
check_sites-All (x ∷ xs) h = ground (arith, check_sites-All xs)

pub record ReportFits (p : Text → Bool) (r : NodeReport) : Type 0 where
  pub addresses_few : length r.ip_addresses ≤ max_reported_addresses
  pub addresses_fit : All (λ a. (length a ≤ 64) × (p (trim_space a) ≡ true)) r.ip_addresses
  pub certificates_few : length r.certificates ≤ max_reported_certificates
  pub certificates_fit : All CertificateFits r.certificates
  pub sites_few : length r.nginx_sites ≤ max_reported_nginx_sites
  pub sites_fit : All SiteFits r.nginx_sites

-- A report that is accepted keeps every limit of the controller, and all its addresses parse.
pub validate_node_report_fits :
    (p : Text → Bool) (r : NodeReport) → validate_node_report p r ≡ none → ReportFits p r
unfolding validate_node_report
validate_node_report_fits p r h = ground (
  arith,
  check_addresses-All p r.ip_addresses,
  check_certificates-All r.certificates,
  check_sites-All r.nginx_sites,
)
