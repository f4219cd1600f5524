-- ===== src/Sites/Names.antt =====
-- ValidateSite, ConfigFileName, ValidateCustomConfig and UpstreamURL. strings.ToLower, net.ParseIP
-- and utf8.ValidString are parameters.
use nginx_atlas.Effects.{decimal}
use nginx_atlas.Prelude.{
  Bool, Option, Text, [], all, any, bytes, false, if◌then◌else◌, int_lt, leb, length, ltb, nat_eq,
  negsuc, non_empty, none, not, pos, some, split, take, trim_space, true, ℕ, ℤ, ◌&&◌, ◌++◌, ◌+◌,
  ◌==◌, ◌||◌, ◌∷◌,
}

pub record SiteLibrary : Type 0 where
  pub to_lower : Text → Text
  pub is_ip : Text → Bool
  pub is_utf8 : Text → Bool
  pub digest : Text → Text

pub record Site : Type 0 where
  pub domain : Text
  pub upstream_host : Text
  pub upstream_port : ℤ
  pub tls : Bool
  pub certificate_dir : Text
  pub nginx_websocket : Bool
  pub nginx_s3_compatible : Bool
  pub nginx_http2 : Bool
  pub modern_http2 : Bool
  pub nginx_gzip : Bool
  pub proxy_header_include : Text

-- [a-z0-9], and [a-z0-9-].
abbrev pub is_alnum : ℕ → Bool
is_alnum c = (leb b'a' c && leb c b'z') || (leb b'0' c && leb c b'9')

abbrev pub is_label_byte : ℕ → Bool
is_label_byte c = is_alnum c || nat_eq c b'-'

-- What follows the first byte of a label: it ends in a letter or a digit.
unfoldable pub ends_label : Text → Bool
ends_label [] = true
ends_label (c ∷ []) = is_alnum c
ends_label (c ∷ d ∷ s) = is_label_byte c && ends_label (d ∷ s)

unfoldable pub is_label : Text → Bool
is_label [] = false
is_label (c ∷ s) = is_alnum c && leb (length s) 62 && ends_label s

-- hostnamePattern asks for one label at least, and domainPattern for two.
unfoldable pub matches_hostname : Text → Bool
matches_hostname s = all is_label (split b'.' s)

unfoldable pub matches_domain : Text → Bool
matches_domain s = matches_hostname s && leb 2 (length (split b'.' s))

abbrev trusted_include : Text
trusted_include = bytes "/etc/nginx-atlas/proxy-token.conf"

unfoldable pub contains_byte : ℕ → Text → Bool
contains_byte b s = any (nat_eq b) s

-- strconv.Itoa
abbrev pub itoa : ℤ → Text
itoa (pos n) = decimal n
itoa (negsuc n) = bytes "-" ++ decimal (n + 1)

module _ (lib : SiteLibrary) where
  -- None if the site is valid, else the first complaint.
  unfoldable pub validate_site : Site → Option Text
  validate_site site =
      let host = lib.to_lower (trim_space site.upstream_host) in
      if not (matches_domain site.domain) || ltb 253 (length site.domain)
      then some (bytes "domain must be a lowercase ASCII hostname with at least one dot")
      else if int_lt site.upstream_port (pos 1) || int_lt (pos 65535) site.upstream_port
      then some (bytes "upstream port must be between 1 and 65535")
      else if not (lib.is_ip host) && (not (matches_hostname host) || ltb 253 (length host))
      then some (bytes "upstream host must be an IP address or a valid ASCII hostname")
      else if site.tls && not (non_empty (trim_space site.certificate_dir))
      then some (bytes "certificate directory is required when TLS is enabled")
      else if non_empty site.proxy_header_include
          && not (site.proxy_header_include == trusted_include)
      then some (bytes "proxy header include path is not trusted")
      else if site.nginx_websocket && site.nginx_s3_compatible
      then some (bytes "S3 compatibility cannot be combined with WebSocket support")
      else none

  unfoldable pub config_file_name : Text → Option Text
  config_file_name name =
      let domain = lib.to_lower (trim_space name) in
      if matches_domain domain then some (bytes "atlas-" ++ domain ++ bytes ".conf") else none

  -- Whether the configuration is accepted.
  unfoldable pub validate_custom_config : Text → Bool
  validate_custom_config config =
      leb 1 (length config)
      && leb (length config) 262144
      && lib.is_utf8 config
      && not (contains_byte 0 config)

  unfoldable pub upstream_url : Text → ℤ → Text
  upstream_url host port =
      let written =
        if lib.is_ip host && contains_byte b':' host
        then bytes "[" ++ host ++ bytes "]"
        else host in
      bytes "http://" ++ written ++ bytes ":" ++ itoa port

  -- The first eight bytes of the hash, in hexadecimal.
  unfoldable pub websocket_connection_variable : Site → Text
  websocket_connection_variable site =
      bytes "$atlas_connection_upgrade_" ++ take 16 (lib.digest site.domain)
