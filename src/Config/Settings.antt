-- ===== src/Config/Settings.antt =====
-- The `Config` of internal/config/config.go, and the methods that read it.
pub mod Interval
use Prim.Native.Nat.{◌%◌, ◌^◌}
use releasepanel_agent.Base.{
  ℕ, ◌*◌, Bool, not, ◌&&◌, ◌||◌, List, [], ◌∷◌, ◌==◌, leb, ltb, if◌then◌else◌, is_empty,
}
use releasepanel_agent.Text.{Text, codes, trim_space}
use releasepanel_agent.Config.Probes.{RuntimeDependencyProbe, Spec}

pub record Config : Type 0 where
  pub central_base_url : Text
  -- An `int`, by its bit pattern.
  pub poll_interval_seconds : ℕ
  pub state_dir : Text
  pub log_dir : Text
  pub skip_tls_verify : Bool
  pub manifest_reconcile_enabled : Bool
  pub agent_ping_token_file : Text
  pub runtime_deploy_path_roots : List Text
  pub github_ssh_known_hosts_file : Text
  pub nginx_sites_available_root : Text
  pub nginx_sites_enabled_root : Text
  pub nginx_test_argv : List Text
  pub nginx_reload_argv : List Text
  pub nginx_php_fastcgi_pass : Text
  pub tls_certificate_path_roots : List Text
  pub runtime_dependency_probes : List RuntimeDependencyProbe
  pub probe_specs : List Spec

-- An empty slice of specs and nil are one list.
unfoldable pub runtime_probe_specs : Config → List Spec
runtime_probe_specs c = c.probe_specs

-- `n > 0` for the bit pattern of an int64.
unfoldable pub is_positive : ℕ → Bool
is_positive n = not (n == 0) && ltb n (2 ^ 63)

-- `time.Second` in nanoseconds, and the default of 30 of them.
abbrev pub second : ℕ
second = 1000000000

abbrev pub default_poll_interval : ℕ
default_poll_interval = 30 * second

-- A `time.Duration` by its bit pattern; the product wraps around.
unfoldable pub poll_interval : Config → ℕ
unfolding is_positive
poll_interval c =
    if not (is_positive c.poll_interval_seconds)
    then default_poll_interval
    else c.poll_interval_seconds * second % 2 ^ 64

unfoldable pub nginx_runtime_configured : Config → Bool
nginx_runtime_configured c =
    not (is_empty (trim_space c.nginx_sites_available_root))
    && not (is_empty (trim_space c.nginx_sites_enabled_root))

unfoldable pub resolved_nginx_test_argv : Config → List Text
resolved_nginx_test_argv c =
    if not (is_empty c.nginx_test_argv)
    then c.nginx_test_argv
    else codes "/usr/sbin/nginx" ∷ codes "-t" ∷ []

unfoldable pub resolved_nginx_reload_argv : Config → List Text
resolved_nginx_reload_argv c =
    if not (is_empty c.nginx_reload_argv)
    then c.nginx_reload_argv
    else codes "/usr/sbin/nginx" ∷ codes "-s" ∷ codes "reload" ∷ []

unfoldable pub resolved_nginx_php_fastcgi_pass : Config → Text
resolved_nginx_php_fastcgi_pass c =
    if not (is_empty (trim_space c.nginx_php_fastcgi_pass))
    then trim_space c.nginx_php_fastcgi_pass
    else codes "unix:/run/php/php8.3-fpm.sock"
