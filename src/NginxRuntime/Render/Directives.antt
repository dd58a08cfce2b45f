-- ===== src/NginxRuntime/Render/Directives.antt =====
-- How many directives a rendered configuration has. nginx ends one at each semicolon.
use releasepanel_agent.Base.{
  ℕ, ◌+◌, ◌≡◌, refl, arith, Bool, true, false, Option, none, some, [], ◌++◌, if◌then◌else◌,
  is_empty,
}
use releasepanel_agent.Text.{Text, codes, trim_space, Unicode}
use releasepanel_agent.System.{Result, ok, err}
use releasepanel_agent.NginxRuntime.WebRoot.{validate_domain, validate_linux_path}
use releasepanel_agent.NginxRuntime.TlsIntent.{TlsMaterialization}
use releasepanel_agent.NginxRuntime.Render.Semicolons.{
  semicolons, semicolons-append, semicolons-validate_domain, semicolons-validate_linux_path,
  semicolons-validate_fastcgi_pass,
}
use releasepanel_agent.NginxRuntime.Render.{
  RenderInput, checked, prefixed, try_files_for_runtime, validate_fastcgi_pass, includes_php,
  php_location, build_php_locations, app_core, render_http_server, https_server, http_redirect,
  render_tls_nginx, header, with_header, render_body, with_locations, template_kind,
  render_site_config,
}

semicolons-try_files : (rt : Text) → semicolons (try_files_for_runtime rt) ≡ 1
unfolding try_files_for_runtime semicolons
semicolons-try_files rt = ground arith

semicolons-php_location : (pass : Text) → semicolons (php_location pass) ≡ 3 + semicolons pass
unfolding php_location semicolons
semicolons-php_location pass =
    omega (arith, semicolons-append pass (codes ";\n" ++ codes "    }\n"))

semicolons-app_core :
    (w try_line php : Text)
    → semicolons (app_core w try_line php) ≡ 2 + semicolons w + semicolons try_line + semicolons php
unfolding app_core semicolons
semicolons-app_core w try_line php = omega (
  arith,
  semicolons-append w (
      codes ";\n    index index.html index.php;\n\n    location / {\n        "
      ++ (try_line ++ (codes "\n    }" ++ php))),
  semicolons-append try_line (codes "\n    }" ++ php),
)

semicolons-render_http_server :
    (domain core : Text)
    → semicolons (render_http_server domain core) ≡ 3 + semicolons domain + semicolons core
unfolding render_http_server semicolons
semicolons-render_http_server domain core = omega (
  arith,
  semicolons-append domain (codes ";\n" ++ (core ++ codes "\n}\n")),
  semicolons-append core (codes "\n}\n"),
)

semicolons-http_redirect :
    (domain : Text) → semicolons (http_redirect domain) ≡ 4 + semicolons domain
unfolding http_redirect semicolons
semicolons-http_redirect domain =
    omega
      (arith, semicolons-append domain (codes ";\n    return 301 https://$host$request_uri;\n}\n"))

semicolons-https_server :
    (domain cert key core : Text)
    → semicolons (https_server domain cert key core)
      ≡ 5 + semicolons domain + semicolons cert + semicolons key + semicolons core
unfolding https_server semicolons
semicolons-https_server domain cert key core =
    let core_end = core ++ codes "\n}\n" in
    let key_end = key ++ (codes ";\n" ++ core_end) in
    let cert_end = cert ++ (codes ";\n    ssl_certificate_key " ++ key_end) in
    omega (
      arith,
      semicolons-append domain (codes ";\n    ssl_certificate " ++ cert_end),
      semicolons-append cert (codes ";\n    ssl_certificate_key " ++ key_end),
      semicolons-append key (codes ";\n" ++ core_end),
      semicolons-append core (codes "\n}\n"),
    )

semicolons-header : (ulid : Text) → semicolons (header ulid) ≡ semicolons ulid
unfolding header semicolons
semicolons-header ulid = omega (arith, semicolons-append ulid (codes " — agent-managed\n"))

-- The directives of a location block, and of all servers of a site.
pub core_directives : Text → ℕ
core_directives rt = 3 + (if includes_php rt then 3 else 0)

pub site_directives : ℕ → Option TlsMaterialization → ℕ
site_directives core none = 3 + core
site_directives core (some tls) = (if tls.redirect_http_to_https then 4 else 3 + core) + (5 + core)

-- What a chain of checks that ended well says.
checked_parts :
    {A : Type 0} (e : Option Text) (r : Result A) {a : A}
    → checked e r ≡ ok a
    → (e ≡ none) × (r ≡ ok a)
unfolding checked
checked_parts none r h = (refl, h)
checked_parts (some e) r h = ground arith

prefixed-none : (p : Text) (e : Option Text) → prefixed p e ≡ none → e ≡ none
unfolding prefixed
prefixed-none p none h = refl
prefixed-none p (some e) h = ground arith

ok_pair : {A : Type 0} {a b : A} → ok a ≡ ok b → b ≡ a
ok_pair h = ground arith

semicolons-build_php_locations :
    ⦃u : Unicode⦄ (rt pass : Text) {parts : Text × Text}
    → build_php_locations rt pass ≡ ok parts
    → (semicolons parts.0 ≡ 1) × (semicolons parts.1 ≡ (if includes_php rt then 3 else 0))
unfolding build_php_locations semicolons
semicolons-build_php_locations rt pass {parts = parts} h =
    let p = trim_space pass in
    let block = if includes_php rt then php_location p else [] in
    let q : checked (validate_fastcgi_pass p) (ok (try_files_for_runtime rt, block)) ≡ ok parts =
      ground arith in
    let (safe, e) =
      checked_parts (validate_fastcgi_pass p) (ok (try_files_for_runtime rt, block)) q in
    rw (ok_pair e) (
      semicolons-try_files rt,
      ground (arith, semicolons-php_location p, semicolons-validate_fastcgi_pass p safe),
    )

semicolons-tls_servers :
    (domain cert key core : Text) (redirect : Bool)
    → semicolons domain ≡ 0
    → semicolons cert ≡ 0
    → semicolons key ≡ 0
    → semicolons (
        (if redirect then http_redirect domain else render_http_server domain core)
        ++ https_server domain cert key core)
      ≡ (if redirect then 4 else 3 + semicolons core) + (5 + semicolons core)
semicolons-tls_servers domain cert key core true d c k = omega (
  arith,
  semicolons-append (http_redirect domain) (https_server domain cert key core),
  semicolons-http_redirect domain,
  semicolons-https_server domain cert key core,
  d,
  c,
  k,
)
semicolons-tls_servers domain cert key core false d c k = omega (
  arith,
  semicolons-append (render_http_server domain core) (https_server domain cert key core),
  semicolons-render_http_server domain core,
  semicolons-https_server domain cert key core,
  d,
  c,
  k,
)

semicolons-render_tls_nginx :
    (domain : Text) (tls : TlsMaterialization) (core : Text) {body : Text}
    → semicolons domain ≡ 0
    → render_tls_nginx domain tls core ≡ ok body
    → semicolons body ≡ site_directives (semicolons core) (some tls)
unfolding render_tls_nginx site_directives
semicolons-render_tls_nginx domain tls core {body = body} d h =
    let cert = trim_space tls.certificate_path in
    let key = trim_space tls.certificate_key_path in
    let servers =
      (if tls.redirect_http_to_https then http_redirect domain else render_http_server domain core)
      ++ https_server domain cert key core in
    let rest =
      checked (prefixed (codes "certificate key path: ") (validate_linux_path key)) (ok servers) in
    let q : checked (prefixed (codes "certificate path: ") (validate_linux_path cert)) rest
        ≡ ok body =
      ground arith in
    let (c, q2) =
      checked_parts (prefixed (codes "certificate path: ") (validate_linux_path cert)) rest q in
    let (k, e) =
      checked_parts (prefixed (codes "certificate key path: ") (validate_linux_path key))
        (ok servers) q2 in
    rw (ok_pair e) (
      semicolons-tls_servers domain cert key core tls.redirect_http_to_https d
        (semicolons-validate_linux_path cert
          (prefixed-none (codes "certificate path: ") (validate_linux_path cert) c))
        (semicolons-validate_linux_path key
          (prefixed-none (codes "certificate key path: ") (validate_linux_path key) k)))

semicolons-render_body :
    (i : RenderInput) (core : Text) (tls : Option TlsMaterialization) {body : Text}
    → semicolons i.domain ≡ 0
    → render_body i core tls ≡ ok body
    → semicolons body ≡ site_directives (semicolons core) tls
unfolding render_body site_directives
semicolons-render_body i core none d h =
    rw (ok_pair h) (omega (arith, semicolons-render_http_server i.domain core, d))
semicolons-render_body i core (some tls) d h = semicolons-render_tls_nginx i.domain tls core d h

semicolons-with_header :
    (ulid : Text) (r : Result Text) {conf : Text}
    → with_header ulid r ≡ ok conf
    → (body : Text) × (r ≡ ok body) × (semicolons conf ≡ semicolons ulid + semicolons body)
unfolding with_header
semicolons-with_header ulid (err e) h = ground arith
semicolons-with_header ulid (ok body) h = (
  body,
  refl,
  rw (ok_pair h) (omega (arith, semicolons-append (header ulid) body, semicolons-header ulid)),
)

semicolons-with_locations :
    ⦃u : Unicode⦄ (i : RenderInput) (ulid rt : Text) (r : Result (Text × Text)) {conf : Text}
    → semicolons i.domain ≡ 0
    → semicolons i.web_root ≡ 0
    → build_php_locations rt i.php_fastcgi_pass ≡ r
    → with_locations i ulid r ≡ ok conf
    → semicolons conf ≡ semicolons ulid + site_directives (core_directives rt) i.tls
unfolding with_locations core_directives
semicolons-with_locations i ulid rt (err e) d w q h = ground arith
semicolons-with_locations i ulid rt (ok (try_line, php)) d w q h =
    let core = app_core i.web_root try_line php in
    let (one, block) = semicolons-build_php_locations rt i.php_fastcgi_pass q in
    let (body, k, total) = semicolons-with_header ulid (render_body i core i.tls) h in
    let n : semicolons core ≡ core_directives rt =
      omega (arith, semicolons-app_core i.web_root try_line php, w, one, block) in
    rw (total, semicolons-render_body i core i.tls d k, n) refl

-- A rendered configuration has exactly the semicolons, which end nginx's directives, of its
-- template: three or, with PHP, six for the site's content, three more for its server, or those
-- of the two servers with TLS. No domain, path or pass adds one; those of the site's identifier
-- count on top.
pub render_site_config-semicolons :
    ⦃u : Unicode⦄ (i : RenderInput) {conf : Text}
    → render_site_config i ≡ ok conf
    → semicolons conf
      ≡ semicolons (trim_space i.site_ulid)
        + site_directives (core_directives (template_kind i.runtime_type)) i.tls
unfolding render_site_config
render_site_config-semicolons i {conf = conf} h =
    let ulid = trim_space i.site_ulid in
    let rt = template_kind i.runtime_type in
    let body =
      if is_empty ulid
      then err (codes "empty site_ulid")
      else with_locations i ulid (build_php_locations rt i.php_fastcgi_pass) in
    let (d, q) =
      checked_parts (validate_domain i.domain) (checked (validate_linux_path i.web_root) body) h in
    let (w, k) = checked_parts (validate_linux_path i.web_root) body q in
    semicolons-with_locations i ulid rt _ (semicolons-validate_domain i.domain d)
      (semicolons-validate_linux_path i.web_root w) refl (ground arith)
