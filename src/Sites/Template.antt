-- ===== src/Sites/Template.antt =====
-- Render: the template as the lines of its output.
use nginx_atlas.Effects.{Result, err, ok, other_error}
use nginx_atlas.Prelude.{
  Bool, List, Text, [], bytes, false, if◌then◌else◌, non_empty, none, not, some, trim_space, true,
  ◌++◌, ◌∷◌,
}
use nginx_atlas.Sites.Names.{
  Site, SiteLibrary, upstream_url, validate_site, websocket_connection_variable,
}

unfoldable pub unlines : List Text → Text
unlines [] = []
unlines (line ∷ rest) = line ++ 10 ∷ unlines rest

-- Lines that stand under a condition.
abbrev pub under : Bool → List Text → List Text
under true xs = xs
under false xs = []

abbrev pub either : Bool → List Text → List Text → List Text
either true xs ys = xs
either false xs ys = ys

unfoldable pub body_size_lines : Site → List Text
body_size_lines site =
    either site.nginx_s3_compatible (bytes "    client_max_body_size 0;" ∷ [])
      (bytes "    client_max_body_size 64m;" ∷ [])

unfoldable pub gzip_lines : List Text
gzip_lines =
    bytes "    gzip on;"
    ∷ bytes "    gzip_vary on;"
    ∷ bytes "    gzip_proxied any;"
    ∷ bytes "    gzip_comp_level 6;"
    ∷ bytes
        "    gzip_types text/plain text/css text/xml application/json application/javascript application/rss+xml application/atom+xml image/svg+xml;"
    ∷ []

unfoldable pub s3_lines : List Text
s3_lines =
    bytes "        proxy_set_header Accept-Encoding \"identity\";"
    ∷ bytes "        proxy_set_header Connection \"\";"
    ∷ bytes "        proxy_request_buffering off;"
    ∷ []

unfoldable pub http2_lines : Site → List Text
http2_lines site =
    if not site.nginx_http2
    then bytes "    listen 443 ssl;" ∷ bytes "    listen [::]:443 ssl;" ∷ []
    else if site.modern_http2
    then bytes "    listen 443 ssl;" ∷ bytes "    listen [::]:443 ssl;" ∷ bytes "    http2 on;" ∷ []
    else bytes "    listen 443 ssl http2;" ∷ bytes "    listen [::]:443 ssl http2;" ∷ []

unfoldable pub redirect_lines : Site → List Text
redirect_lines site =
    bytes "server {"
    ∷ bytes "    listen 80;"
    ∷ bytes "    listen [::]:80;"
    ∷ (bytes "    server_name " ++ site.domain ++ bytes ";")
    ∷ (bytes "    return 308 https://" ++ site.domain ++ bytes "$request_uri;")
    ∷ bytes "}"
    ∷ []
    ∷ []

unfoldable pub tls_lines : Site → List Text
tls_lines site =
    bytes "server {"
    ∷ (http2_lines site
        ++ (bytes "    server_name " ++ site.domain ++ bytes ";")
          ∷ []
          ∷ (bytes "    ssl_certificate " ++ site.certificate_dir ++ bytes "/fullchain.pem;")
          ∷ (bytes "    ssl_certificate_key " ++ site.certificate_dir ++ bytes "/privkey.pem;")
          ∷ bytes "    ssl_protocols TLSv1.2 TLSv1.3;"
          ∷ bytes "    ssl_session_timeout 1d;"
          ∷ bytes "    ssl_session_cache shared:ATLAS:10m;"
          ∷ bytes "    ssl_session_tickets off;"
          ∷ bytes "    add_header Strict-Transport-Security \"max-age=15552000\" always;"
          ∷ [])

unfoldable pub plain_lines : Site → List Text
plain_lines site =
    bytes "server {"
    ∷ bytes "    listen 80;"
    ∷ bytes "    listen [::]:80;"
    ∷ (bytes "    server_name " ++ site.domain ++ bytes ";")
    ∷ []

module _ (lib : SiteLibrary) where
  unfoldable pub map_lines : Site → List Text
  map_lines site =
      (bytes "map $http_upgrade " ++ websocket_connection_variable lib site ++ bytes " {")
      ∷ bytes "    default upgrade;"
      ∷ bytes "    '' close;"
      ∷ bytes "}"
      ∷ []

  unfoldable pub websocket_lines : Site → List Text
  websocket_lines site =
      bytes "        proxy_set_header Upgrade $http_upgrade;"
      ∷ (bytes "        proxy_set_header Connection "
          ++ websocket_connection_variable lib site
          ++ bytes ";")
      ∷ bytes "        proxy_connect_timeout 10s;"
      ∷ bytes "        proxy_send_timeout 3600s;"
      ∷ bytes "        proxy_read_timeout 3600s;"
      ∷ []

  unfoldable pub location_lines : Site → List Text
  location_lines site =
      ([]
        ∷ bytes "    location / {"
        ∷ (bytes "        proxy_pass "
            ++ upstream_url lib site.upstream_host site.upstream_port
            ++ bytes ";")
        ∷ bytes "        proxy_http_version 1.1;"
        ∷ bytes "        proxy_buffer_size 8k;"
        ∷ bytes "        proxy_set_header Host $host;"
        ∷ bytes "        proxy_set_header X-Real-IP $remote_addr;"
        ∷ [])
      ++ under (non_empty site.proxy_header_include)
          ((bytes "        include " ++ site.proxy_header_include ++ bytes ";") ∷ [])
      ++ (bytes "        proxy_set_header X-Forwarded-For $proxy_add_x_forwarded_for;"
          ∷ bytes "        proxy_set_header X-Forwarded-Proto $scheme;"
          ∷ bytes "        proxy_set_header X-Forwarded-Host $host;"
          ∷ [])
      ++ under site.nginx_s3_compatible s3_lines
      ++ under site.nginx_websocket (websocket_lines site)
      ++ bytes "    }" ∷ bytes "}" ∷ []

  unfoldable pub site_lines : Site → List Text
  site_lines site =
      (bytes "# Managed by Nginx Atlas. Manual changes will be replaced." ∷ [])
      ++ under site.nginx_websocket (map_lines site)
      ++ either site.tls (redirect_lines site ++ tls_lines site) (plain_lines site)
      ++ body_size_lines site
      ++ under site.nginx_gzip gzip_lines
      ++ location_lines site

  unfoldable pub normalize_site : Site → Site
  normalize_site site = record site {
    domain = lib.to_lower (trim_space site.domain);
    upstream_host = lib.to_lower (trim_space site.upstream_host);
  }

  -- The configuration, or the complaint of validate_site.
  unfoldable pub render : Site → Result Text
  render site = elim (validate_site lib (normalize_site site)) [
    | some complaint ↦ err (other_error complaint)
    | none ↦ ok (unlines (site_lines (normalize_site site)))
  ]
