-- ===== src/NginxRuntime/Tests.antt =====
-- A reload of one site on a small system, and the theorems there.
use releasepanel_agent.Base.{
  ◌≡◌, ◌≢◌, refl, arith, false, Option, none, some, List, [], ◌∷◌, ◌++◌, if◌then◌else◌, ◌+◌,
}
use releasepanel_agent.Text.{
  Text, codes, text_eq, ne_of_test, trim_space, trim_left, trim_right, is_space, to_lower,
  lower_rune, contains, has_prefix, Unicode, rune_length, byte_length, contains_any,
}
use releasepanel_agent.FilePath.{
  is_abs, clean, names, resolve, split, visit, join_names, dir, join, not_empty, join_cleaned,
}
use releasepanel_agent.Api.{SiteRuntimeApplyIntent}
use releasepanel_agent.System.{Os, Sys, Disk, link, Event, ok, go, missing, report, found, regular}
use releasepanel_agent.System.Atomic.Settles.{Settles}
use releasepanel_agent.GitDeploy.PathValidate.Allowed.{IsProper}
use releasepanel_agent.NginxRuntime.SiteFiles.{
  site_config_paths, site_config_name, path_under_root, write_atomic_file, ensure_symlink,
}
use releasepanel_agent.NginxRuntime.SiteFiles.Placed.{
  ArePlaced, site_config_paths-ArePlaced, site_config_paths_total,
}
use releasepanel_agent.NginxRuntime.SiteFiles.Written.{
  write_atomic_file-Settles, Linked, ensure_symlink-Linked,
}
use releasepanel_agent.NginxRuntime.WebRoot.{
  runtime_kind, is_domain_rune, check_runes, validate_domain, validate_linux_path,
}
use releasepanel_agent.NginxRuntime.Render.{
  RenderInput, render_site_config, template_kind, build_php_locations, validate_fastcgi_pass,
  includes_php, try_files_for_runtime, app_core, render_http_server, header,
}
use releasepanel_agent.NginxRuntime.Render.Semicolons.{semicolons}
use releasepanel_agent.NginxRuntime.Render.Directives.{
  site_directives, core_directives, render_site_config-semicolons,
}
use releasepanel_agent.GitDeploy.Git.{is_regular}
use releasepanel_agent.GitDeploy.PathValidate.{validate_deploy_path, check_roots}
use releasepanel_agent.NginxRuntime.CertPaths.{
  resolved_cert_path, validate_readable_cert_file, validate_readable_cert_pair,
}
use releasepanel_agent.NginxRuntime.CertPaths.Readable.{
  IsReadable, validate_readable_cert_pair-IsReadable,
}
use releasepanel_agent.NginxRuntime.Rows.{Options}
use releasepanel_agent.NginxRuntime.Converge.{run}
use releasepanel_agent.NginxRuntime.Converge.Refines.{converge-refines-protocol}
use releasepanel_agent.NginxRuntime.Protocol.{Run, ended}
use releasepanel_agent.NginxRuntime.Protocol.Order.{IsTested, run-IsTested}
use releasepanel_agent.NginxRuntime.Protocol.Conclusion.{Concludes, converge-Concludes}
use releasepanel_agent.NginxRuntime.Protocol.Files.{AreOwn, run-touches-own}

-- Letters outside ASCII keep their case here, and `%q` is written without escapes.
instance ascii : Unicode
ascii = record { lower = λ c. c; quote = λ s. codes "\"" ++ (s ++ codes "\"") }

abbrev intent : SiteRuntimeApplyIntent
intent = record {
  site_ulid = codes "01HX";
  domain = codes "a.example";
  deploy_path = codes "/srv/sites/a";
  runtime_type = codes "static";
  runtime_apply_state = codes "reload_requested";
  tls_enabled = false;
  ssl_certificate_path = [];
  ssl_certificate_key_path = [];
  redirect_http_to_https = false;
  tls_ledger_state = [];
}

abbrev options : Options
options = record {
  intent = intent;
  deploy_path_roots = codes "/srv/sites" ∷ [];
  nginx_sites_available_root = codes "/nginx/available";
  nginx_sites_enabled_root = codes "/nginx/enabled";
  nginx_test_argv = codes "nginx" ∷ codes "-t" ∷ [];
  nginx_reload_argv = codes "nginx" ∷ codes "-s" ∷ codes "reload" ∷ [];
  nginx_php_fastcgi_pass = [];
  tls_state_echo = [];
  tls_certificate_path_roots = [];
}

-- Every call succeeds, and so does every command.
abbrev os : Os
os = record {
  look_path = λ s name. ok name;
  exec = λ s c. (record { stdout = []; stderr = codes "syntax is ok"; error = none }, s.disk);
  stat = λ s p. missing (codes "no such file or directory");
  eval_symlinks = λ s p. ok p;
  open_file = λ s p. none;
  post = λ s row. none;
  now = λ s. codes "2026-01-01T00:00:00Z";
  environ = [];
  fault = λ s c. none;
  temp_name = λ s dir pattern. codes "/nginx/available/.rp-nginx-1";
  partial = λ s. 0;
}

-- An old link stands at the enabled path.
abbrev old_disk : Disk
old_disk p =
    if text_eq p (codes "/nginx/enabled/rp-01hx.conf") then some (link (codes "/old")) else none

abbrev start : Sys
start = record { disk = old_disk; log = []; ticks = 0 }

abbrev available : Text
available = codes "/nginx/available/rp-01hx.conf"

abbrev enabled : Text
enabled = codes "/nginx/enabled/rp-01hx.conf"

IsProper-available : IsProper (trim_space (codes "/nginx/available"))
unfolding trim_space trim_right trim_left is_space is_abs has_prefix text_eq names resolve split
    visit
IsProper-available = record { absolute = refl; below_slash = ground arith }

IsProper-enabled : IsProper (trim_space (codes "/nginx/enabled"))
unfolding trim_space trim_right trim_left is_space is_abs has_prefix text_eq names resolve split
    visit
IsProper-enabled = record { absolute = refl; below_slash = ground arith }

site_config_paths-ArePlaced_example :
    ArePlaced (codes "/nginx/available") (codes "/nginx/enabled") (codes "01HX") available enabled
unfolding site_config_paths site_config_name path_under_root to_lower lower_rune clean join
    not_empty join_cleaned join_names names resolve split visit trim_space trim_right trim_left
    is_space is_abs has_prefix text_eq contains
site_config_paths-ArePlaced_example =
    site_config_paths-ArePlaced (codes "/nginx/available") (codes "/nginx/enabled") (codes "01HX")
      {ps = (available, enabled)} refl refl refl

site_config_paths_total_example :
    (ps : Text × Text) × (site_config_paths
        (codes "/nginx/available")
        (codes "/nginx/enabled")
        (codes "01HX")
      ≡ ok ps)
unfolding site_config_name to_lower lower_rune trim_space trim_right trim_left is_space has_prefix
    contains
site_config_paths_total_example =
    site_config_paths_total (codes "/nginx/available") (codes "/nginx/enabled") (codes "01HX")
      IsProper-available IsProper-enabled (ground arith) refl refl

-- The temporary file has another name.
apart : (t : Sys) → available ≢ os.temp_name t (dir available) (codes ".rp-nginx-*")
unfolding text_eq
apart t = ne_of_test available (codes "/nginx/available/.rp-nginx-1") refl

write_atomic_file-Settles_example :
    (e : Option Text) × ((write_atomic_file os available (codes "server {}") start).0 ≡ go e)
    × Settles os
        (codes ".rp-nginx-*")
        available
        apart
        0o644
        (ok (codes "server {}"))
        start.disk
        e
        (write_atomic_file os available (codes "server {}") start).1.disk
write_atomic_file-Settles_example =
    write_atomic_file-Settles os available (codes "server {}") start apart

ensure_symlink-Linked_example :
    (e : Option Text) × ((ensure_symlink os enabled available start).0 ≡ go e)
    × Linked start.disk enabled available e (ensure_symlink os enabled available start).1.disk
ensure_symlink-Linked_example = ensure_symlink-Linked os enabled available start

converge-refines-protocol_example :
    Run os options []
      (ended (run os (some (report os)) options start).0)
      (run os (some (report os)) options start).1.log
converge-refines-protocol_example = converge-refines-protocol os options start

run-IsTested_example :
    (new : List Event) × ((run os (some (report os)) options start).1.log ≡ new ++ [])
    × IsTested options new
run-IsTested_example = run-IsTested options os start

converge-Concludes_example :
    (new : List Event) × ((run os (some (report os)) options start).1.log ≡ new ++ [])
    × Concludes options (run os (some (report os)) options start).0 new
converge-Concludes_example = converge-Concludes options os start

run-touches-own_example :
    (new : List Event) × ((run os (some (report os)) options start).1.log ≡ new ++ [])
    × AreOwn options os new
run-touches-own_example = run-touches-own options os start

abbrev static_site : RenderInput
static_site = record {
  site_ulid = codes "01HX";
  domain = codes "a.example";
  web_root = codes "/srv/sites/a";
  runtime_type = codes "static";
  php_fastcgi_pass = [];
  tls = none;
}

abbrev static_conf : Text
static_conf =
    codes
      "# ReleasePanel bounded nginx site — site_ulid=01HX — agent-managed\nserver {\n    listen 80;\n    listen [::]:80;\n    server_name a.example;\n    root /srv/sites/a;\n    index index.html index.php;\n\n    location / {\n        try_files $uri $uri/ =404;\n    }\n}\n"

render_site_config-semicolons_example :
    semicolons static_conf
    ≡ semicolons (trim_space (codes "01HX"))
      + site_directives (core_directives (template_kind (codes "static"))) none
unfolding render_site_config template_kind build_php_locations validate_domain validate_linux_path
    validate_fastcgi_pass includes_php try_files_for_runtime app_core render_http_server header
    runtime_kind is_domain_rune check_runes rune_length byte_length contains_any to_lower lower_rune
    trim_space trim_right trim_left is_space is_abs has_prefix text_eq
render_site_config-semicolons_example =
    render_site_config-semicolons static_site {conf = static_conf} refl

-- Every path is a regular file here.
abbrev file_os : Os
file_os = record os { stat = λ s p. found (record { kind = regular; perm = 0o600 }) }

abbrev cert_roots : List Text
cert_roots = codes "/tls" ∷ []

validate_readable_cert_pair-IsReadable_example :
    IsReadable file_os start cert_roots (trim_space (codes "/tls/a.pem"))
    × IsReadable file_os start cert_roots (trim_space (codes "/tls/a.key"))
unfolding validate_readable_cert_pair validate_readable_cert_file resolved_cert_path
    validate_linux_path validate_deploy_path check_roots is_regular contains_any contains clean
    join_names names resolve split visit trim_space trim_right trim_left is_space is_abs has_prefix
    text_eq
validate_readable_cert_pair-IsReadable_example =
    validate_readable_cert_pair-IsReadable file_os start cert_roots (codes "/tls/a.pem")
      (codes "/tls/a.key") (ground arith) refl
