-- ===== src/Tests/Pages.antt =====
-- The configuration of a concrete site.
use nginx_atlas.Effects.{Result, err, ok, other_error}
use nginx_atlas.Prelude.{
  All, Text, [], bytes, false, length, negsuc, pos, refl, some, split, trim_space, true, ◌≡◌, ◌≤◌,
}
use nginx_atlas.Sites.{
  IsNameByte, IsPort, Site, SiteLibrary, config_file_name, ends_label, is_label, matches_domain,
  matches_hostname, normalize_site, render, render-config_file_name, site_lines, unlines,
  validate_site,
}

abbrev site_library : SiteLibrary
site_library = record {
  to_lower = λ text. text;
  is_ip = λ text. false;
  is_utf8 = λ text. true;
  digest = λ text. [];
}

abbrev plain_site : Site
plain_site = record {
  domain = bytes " a.example";
  upstream_host = bytes "b";
  upstream_port = pos 8080;
  tls = true;
  certificate_dir = bytes "/c";
  nginx_websocket = false;
  nginx_s3_compatible = true;
  nginx_http2 = true;
  modern_http2 = true;
  nginx_gzip = true;
  proxy_header_include = [];
}

-- A port below zero is refused as one above 65535 is.
bad_port :
    (render site_library (record plain_site { upstream_port = negsuc 0 })
      ≡ err (other_error (bytes "upstream port must be between 1 and 65535")))
    × (render site_library (record plain_site { upstream_port = pos 65536 })
        ≡ err (other_error (bytes "upstream port must be between 1 and 65535")))
unfolding render normalize_site validate_site matches_domain matches_hostname is_label ends_label
    split trim_space bytes
bad_port = (refl, refl)

abbrev written : Result Text → Text
written (ok text) = text
written (err reason) = []

render-config_file_name_example :
    (written (render site_library plain_site)
      ≡ unlines (site_lines site_library (normalize_site site_library plain_site)))
    × (bytes "a.example" ≡ bytes "a.example")
    × (config_file_name site_library plain_site.domain ≡ some (bytes "atlas-a.example.conf"))
    × (length (bytes "a.example") ≤ 253)
    × All IsNameByte (bytes "a.example")
    × IsPort (pos 8080)
unfolding render normalize_site validate_site matches_domain matches_hostname is_label ends_label
    split trim_space bytes
render-config_file_name_example =
    render-config_file_name site_library plain_site (written (render site_library plain_site)) refl
