-- ===== src/NginxRuntime/Render.antt =====
-- internal/nginxruntime/render.go
pub mod Directives
pub mod Semicolons
use releasepanel_agent.Base.{
  Bool, true, false, not, ◌||◌, ◌&&◌, Option, none, some, [], ◌∷◌, ◌++◌, if◌then◌else◌, is_empty,
}
use releasepanel_agent.Text.{Text, codes, text_eq, trim_space, to_lower, contains_any, Unicode}
use releasepanel_agent.System.{Result, ok, err}
use releasepanel_agent.NginxRuntime.WebRoot.{runtime_kind, validate_domain, validate_linux_path}
use releasepanel_agent.NginxRuntime.TlsIntent.{TlsMaterialization}

pub record RenderInput : Type 0 where
  pub site_ulid : Text
  pub domain : Text
  pub web_root : Text
  pub runtime_type : Text
  pub php_fastcgi_pass : Text
  pub tls : Option TlsMaterialization

-- The first error of a chain of checks, or else the value.
checked : {A : Type 0} → Option Text → Result A → Result A
checked none r = r
checked (some e) r = err e

unfoldable pub try_files_for_runtime : Text → Text
try_files_for_runtime rt =
    if text_eq rt (codes "laravel") || text_eq rt (codes "php")
    then codes "try_files $uri $uri/ /index.php?$query_string;"
    else if text_eq rt (codes "wordpress")
    then codes "try_files $uri $uri/ /index.php?$args;"
    else if text_eq rt (codes "static")
    then codes "try_files $uri $uri/ =404;"
    else if text_eq rt (codes "custom")
    then codes "try_files $uri $uri/ /index.php?$query_string;"
    else codes "try_files $uri $uri/ =404;"

unfoldable pub validate_fastcgi_pass : Text → Option Text
validate_fastcgi_pass pass =
    if is_empty pass
    then none
    else if contains_any pass (codes ";\n\r`\"'\\")
    then some (codes "invalid fastcgi_pass value")
    else none

unfoldable pub includes_php : Text → Bool
includes_php rt =
    text_eq rt (codes "laravel")
    || text_eq rt (codes "wordpress")
    || text_eq rt (codes "php")
    || text_eq rt (codes "custom")

unfoldable pub php_location : Text → Text
php_location pass =
    codes "\n    location ~ \\.php$ {\n"
    ++ (codes "        include fastcgi_params;\n"
        ++ (codes "        fastcgi_param SCRIPT_FILENAME $document_root$fastcgi_script_name;\n"
            ++ (codes "        fastcgi_pass " ++ (pass ++ (codes ";\n" ++ codes "    }\n")))))

-- The `try_files` line and the PHP block.
unfoldable pub build_php_locations : ⦃u : Unicode⦄ → Text → Text → Result (Text × Text)
unfolding checked
build_php_locations ⦃u⦄ rt php_pass =
    let pass = trim_space php_pass in
    if includes_php rt && is_empty pass
    then err (codes "nginx_php_fastcgi_pass required for runtime_type " ++ u.quote rt)
    else checked (validate_fastcgi_pass pass)
        (ok (try_files_for_runtime rt, (if includes_php rt then php_location pass else [])))

unfoldable pub app_core : Text → Text → Text → Text
app_core web_root location_try php_block =
    codes "    root "
    ++ (web_root
        ++ (codes ";\n    index index.html index.php;\n\n    location / {\n        "
            ++ (location_try ++ (codes "\n    }" ++ php_block))))

unfoldable pub render_http_server : Text → Text → Text
render_http_server domain core =
    codes "server {\n    listen 80;\n    listen [::]:80;\n    server_name "
    ++ (domain ++ (codes ";\n" ++ (core ++ codes "\n}\n")))

https_server : Text → Text → Text → Text → Text
https_server domain cert key core =
    codes "server {\n    listen 443 ssl;\n    listen [::]:443 ssl;\n    server_name "
    ++ (domain
        ++ (codes ";\n    ssl_certificate "
            ++ (cert
                ++ (codes ";\n    ssl_certificate_key "
                    ++ (key ++ (codes ";\n" ++ (core ++ codes "\n}\n")))))))

http_redirect : Text → Text
http_redirect domain =
    codes "server {\n    listen 80;\n    listen [::]:80;\n    server_name "
    ++ (domain ++ codes ";\n    return 301 https://$host$request_uri;\n}\n")

prefixed : Text → Option Text → Option Text
prefixed p none = none
prefixed p (some e) = some (p ++ e)

unfoldable pub render_tls_nginx : Text → TlsMaterialization → Text → Result Text
unfolding checked prefixed https_server http_redirect render_http_server
render_tls_nginx domain tls core =
    let cert = trim_space tls.certificate_path in
    let key = trim_space tls.certificate_key_path in
    if is_empty cert || is_empty key
    then err (codes "tls certificate paths empty")
    else checked (prefixed (codes "certificate path: ") (validate_linux_path cert)) (
        checked (prefixed (codes "certificate key path: ") (validate_linux_path key)) (
          ok (
            (if tls.redirect_http_to_https
              then http_redirect domain
              else render_http_server domain core)
            ++ https_server domain cert key core)))

unfoldable pub header : Text → Text
header ulid =
    codes "# ReleasePanel bounded nginx site — site_ulid=" ++ (ulid ++ codes " — agent-managed\n")

with_header : Text → Result Text → Result Text
with_header ulid (err e) = err e
with_header ulid (ok body) = ok (header ulid ++ body)

render_body : RenderInput → Text → Option TlsMaterialization → Result Text
render_body i core none = ok (render_http_server i.domain core)
render_body i core (some tls) = render_tls_nginx i.domain tls core

with_locations : RenderInput → Text → Result (Text × Text) → Result Text
unfolding with_header render_body
with_locations i ulid (err e) = err e
with_locations i ulid (ok (location_try, php_block)) =
    with_header ulid (render_body i (app_core i.web_root location_try php_block) i.tls)

-- The kind for the template: `wp` is WordPress.
unfoldable pub template_kind : ⦃u : Unicode⦄ → Text → Text
template_kind runtime_type =
    let rt = runtime_kind runtime_type in if text_eq rt (codes "wp") then codes "wordpress" else rt

unfoldable pub render_site_config : ⦃u : Unicode⦄ → RenderInput → Result Text
unfolding checked with_locations
render_site_config i =
    let ulid = trim_space i.site_ulid in
    checked (validate_domain i.domain) (
      checked (validate_linux_path i.web_root) (
        if is_empty ulid
        then err (codes "empty site_ulid")
        else with_locations i ulid
            (build_php_locations (template_kind i.runtime_type) i.php_fastcgi_pass)))
