-- ===== src/Health.antt =====
-- internal/health/health.go and the probes of internal/runtime that it runs.
pub mod Collected
use releasepanel_agent.Base.{
  ℕ, Bool, true, false, Option, none, some, List, [], ◌∷◌, ◌++◌, if◌then◌else◌,
}
use releasepanel_agent.Text.{Text, codes, trim_space}
use releasepanel_agent.System.{
  Os, M, Result, ok, err, ExecReply, look_path, now, stat, go, pure, ◌>>=◌, StatReply, found,
  missing, failed, regular, directory, symlink, socket, other, ◌>>◌, leave, check,
}
use releasepanel_agent.Api.{HealthCheck, HealthReport, schema_v1}
use releasepanel_agent.Inventory.{HostFacts, run_with}

-- Whether a probe passed, and what it says.
pub record Verdict : Type 0 where
  pub passed : Bool
  pub detail : Text

unfoldable pub succeeded : Option Text → Bool
succeeded none = true
succeeded (some e) = false

unfoldable pub is_no_dir : StatReply → Bool
is_no_dir (missing e) = false
is_no_dir (failed e) = false
is_no_dir (found fi) = elim fi.kind [
  | regular ↦ true
  | directory ↦ false
  | symlink ↦ true
  | socket ↦ true
  | other ↦ true
]

unfoldable pub verdict_of : ExecReply → Verdict
unfolding succeeded
verdict_of r = record { passed = succeeded r.error; detail = trim_space (r.stdout ++ r.stderr) }

module _ (os : Os) where
  unfoldable pub run_found : Text → List Text → Result Text → M Verdict
  unfolding verdict_of
  run_found message args (err e) = pure (record { passed = false; detail = message })
  run_found message args (ok path) = do r ← run_with os path args; pure (verdict_of r)

  -- `nginx.ConfigTest`.
  unfoldable pub config_test : M Verdict
  unfolding run_found
  config_test = do
    path ← look_path os (codes "nginx")
    run_found (codes "nginx binary not found") (codes "-t" ∷ []) path

  -- `php.CLIProbe`.
  unfoldable pub cli_probe : M Verdict
  unfolding run_found
  cli_probe = do
    path ← look_path os (codes "php")
    run_found (codes "php binary not found") (codes "-v" ∷ []) path

  unfoldable pub socket_among : List Text → M Verdict
  unfolding is_no_dir
  socket_among [] =
      pure (record { passed = false; detail = codes "no known php-fpm unix socket found" })
  socket_among (p ∷ ps) =
      let rest = socket_among ps in
      (do
        st ← stat os p
        if is_no_dir st
            then pure (record { passed = true; detail = codes "socket " ++ p })
            else rest)

  abbrev pub fpm_socket_hints : List Text
  fpm_socket_hints =
      codes "/run/php/php-fpm.sock"
      ∷ codes "/run/php/php8.2-fpm.sock"
      ∷ codes "/run/php/php8.3-fpm.sock"
      ∷ codes "/var/run/php/php-fpm.sock"
      ∷ []

  -- `php.FPMListenProbe`.
  unfoldable pub fpm_listen_probe : M Verdict
  unfolding socket_among
  fpm_listen_probe = socket_among fpm_socket_hints

  abbrev check_of : Text → Verdict → ℕ → HealthCheck
  check_of name v ms = record {
    name = name;
    passed = v.passed;
    detail = v.detail;
    duration_ms = ms;
  }

  unfoldable pub collect_health : HostFacts → Text → M HealthReport
  unfolding config_test cli_probe fpm_listen_probe
  collect_health facts node_id = do
    at ← now os
    nginx ← config_test
    nginx_ms ← (λ s. (go (facts.elapsed s), s))
    php ← cli_probe
    php_ms ← (λ s. (go (facts.elapsed s), s))
    fpm ← fpm_listen_probe
    fpm_ms ← (λ s. (go (facts.elapsed s), s))
    pure (record {
      schema_version = schema_v1;
      node_id = node_id;
      collected_at = at;
      checks =
          check_of (codes "nginx_config_test") nginx nginx_ms
          ∷ check_of (codes "php_cli") php php_ms
          ∷ check_of (codes "php_fpm_socket") fpm fpm_ms
          ∷ [];
    })

  unfoldable pub path_or_exit : Result Text → M Text
  path_or_exit (ok path) = pure path
  path_or_exit (err e) = leave (some e)

  -- `nginx.Reload`: the reload is reached only when the configuration is valid.
  unfoldable pub reload : M (Unit {0})
  unfolding path_or_exit
  reload = do
    found_path ← look_path os (codes "nginx")
    path ← path_or_exit found_path
    test ← run_with os path (codes "-t" ∷ [])
    check test.error
    rel ← run_with os path (codes "-s" ∷ codes "reload" ∷ [])
    leave rel.error
