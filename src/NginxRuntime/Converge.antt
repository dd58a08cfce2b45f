-- ===== src/NginxRuntime/Converge.antt =====
-- internal/nginxruntime/converge.go: `Run`, the apply leg and the reload leg.
mod Receipts
mod Writes
mod Links
mod Legs
pub mod Refines
use releasepanel_agent.NginxRuntime.Rows.{
  state_requested, state_applying, state_applied, state_reload_requested, state_reload_applied,
  state_failed, Options, row_at, executable, argv_outcome, row_runtime, row_reload_applied,
  failed_row, run_program, run_argv,
}
use releasepanel_agent.Base.{
  Bool, true, false, not, ◌||◌, Option, none, some, List, [], ◌∷◌, ◌++◌, if◌then◌else◌, is_empty,
}
use releasepanel_agent.Text.{Text, codes, text_eq, trim_space, to_lower, truncate_runes, Unicode}
use releasepanel_agent.FilePath.{clean}
use releasepanel_agent.Api.{SiteRuntimeApplyIntent, SiteRuntimeReportRow}
use releasepanel_agent.System.{
  Os, Sys, M, Reporter, Command, ExecReply, Result, ok, err, go, now, exec, mkdir_all, pure, leave,
  result, ◌>>=◌, ◌>>◌,
}
use releasepanel_agent.System.Files.{touch}
use releasepanel_agent.GitDeploy.PathValidate.{validate_deploy_path}
use releasepanel_agent.NginxRuntime.WebRoot.{resolve_web_root}
use releasepanel_agent.NginxRuntime.TlsIntent.{
  TlsMaterialization, tls_materialization_from_intent, tls_observation_after_reload,
}
use releasepanel_agent.NginxRuntime.Render.{RenderInput, render_site_config}
use releasepanel_agent.NginxRuntime.CertPaths.{validate_readable_cert_pair}
use releasepanel_agent.NginxRuntime.SiteFiles.{
  bounded_fail, site_config_paths, write_atomic_file, ensure_symlink,
}

-- `tls` of `Run`, the echo of the ledger's TLS state.
unfoldable pub tls_echo : Options → Text
tls_echo o = let tls = trim_space o.tls_state_echo in if is_empty tls then codes "none" else tls

-- `cur` of `Run`.
unfoldable pub ledger_state : ⦃u : Unicode⦄ → Options → Text
ledger_state o = trim_space (to_lower o.intent.runtime_apply_state)

module _ (os : Os) (reporter : Reporter) (o : Options) where
  -- `return reporter(failedRow(…))`.
  unfoldable pub fail : {A : Type 0} → Text → M A
  fail reason = do r ← failed_row os o.intent.site_ulid (tls_echo o) reason; e ← reporter r; leave e

  -- `_ = reporter(failedRow(…)); return err`.
  unfoldable pub fail_with : {A : Type 0} → Text → Text → M A
  fail_with reason e = do
    r ← failed_row os o.intent.site_ulid (tls_echo o) reason
    reporter r
    leave (some e)

  unfoldable pub accept : (Text → Text) → Option Text → M (Unit {0})
  accept reason none = pure tt
  accept reason (some e) = fail (reason e)

  unfoldable pub need : {A : Type 0} → (Text → Text) → Result A → M A
  need reason (ok a) = pure a
  need reason (err e) = fail (reason e)

  abbrev bounded : Text → Text → Text
  bounded prefix e = bounded_fail prefix (some e)

  -- The pair of certificates must be readable now.
  check_pair : TlsMaterialization → Option Text → M (Option TlsMaterialization)
  check_pair mat none = pure (some mat)
  check_pair mat (some e) =
      fail_with (bounded (codes "certificate path validation failed") e)
        (codes "certificate path validation failed")

  check_materialization : Result (Option TlsMaterialization) → M (Option TlsMaterialization)
  unfolding check_pair
  check_materialization (err e) = fail_with e e
  check_materialization (ok none) = pure none
  check_materialization (ok (some mat)) =
      if is_empty o.tls_certificate_path_roots
      then fail_with (codes "tls_certificate_path_roots not configured")
          (codes "tls_certificate_path_roots not configured")
      else λ s.
          check_pair mat
            (validate_readable_cert_pair os s mat.certificate_path mat.certificate_key_path
              o.tls_certificate_path_roots)
            s

  unfoldable pub validate_tls_materialization : M (Option TlsMaterialization)
  unfolding check_materialization
  validate_tls_materialization = check_materialization (tls_materialization_from_intent o.intent)

  made : Text → Option Text → M (Unit {0})
  made prefix none = pure tt
  made prefix (some e) = fail_with (bounded prefix e) (bounded prefix e)

  unfoldable pub prepare_nginx_dirs : M (Unit {0})
  unfolding made
  prepare_nginx_dirs =
      let a = trim_space o.nginx_sites_available_root in
      let e = trim_space o.nginx_sites_enabled_root in
      if is_empty a || is_empty e
      then fail_with (codes "nginx sites roots not configured")
          (codes "nginx sites roots not configured")
      else (do
        available ← touch os (mkdir_all (clean a))
        made (codes "mkdir nginx sites-available root failed") available
        enabled ← touch os (mkdir_all (clean e))
        made (codes "mkdir nginx sites-enabled root failed") enabled)

module _ (o : Options) where
  -- The TLS state of a reload that has gone through.
  unfoldable pub tls_out : ⦃u : Unicode⦄ → Text
  tls_out =
      let adv = tls_observation_after_reload o.intent in if is_empty adv then tls_echo o else adv

  abbrev pub render_input : Text → Option TlsMaterialization → RenderInput
  render_input web_root tls_mat = record {
    site_ulid = o.intent.site_ulid;
    domain = o.intent.domain;
    web_root = web_root;
    runtime_type = o.intent.runtime_type;
    php_fastcgi_pass = o.nginx_php_fastcgi_pass;
    tls = tls_mat;
  }

module _ ⦃u : Unicode⦄ (os : Os) (reporter : Reporter) (o : Options) where
  -- What both legs check first: the web root, and the certificates of a TLS site.
  unfoldable pub prepare : M (Text × Option TlsMaterialization)
  prepare = do
    let deploy_path = trim_space o.intent.deploy_path
    accept os reporter o (λ e. codes "invalid deploy_path: " ++ e)
        (validate_deploy_path deploy_path o.deploy_path_roots)
    web_root ← need os reporter o (λ e. e) (resolve_web_root deploy_path o.intent.runtime_type)
    accept os reporter o (λ e. codes "invalid web root: " ++ e)
        (validate_deploy_path web_root o.deploy_path_roots)
    tls_mat ← validate_tls_materialization os reporter o
    prepare_nginx_dirs os reporter o
    pure (web_root, tls_mat)

  -- What both legs do then: the file, its link, and nginx's test of them.
  unfoldable pub materialize : Text × Option TlsMaterialization → M (Unit {0})
  materialize (web_root, tls_mat) = do
    conf ←
        need os reporter o (bounded os reporter o (codes "nginx config render failed"))
          (render_site_config (render_input o web_root tls_mat))
    paths ←
        need os reporter o (λ e. e)
          (site_config_paths o.nginx_sites_available_root o.nginx_sites_enabled_root
            o.intent.site_ulid)
    written ← write_atomic_file os paths.0 conf
    accept os reporter o (bounded os reporter o (codes "write nginx site config failed")) written
    linked ← ensure_symlink os paths.1 paths.0
    accept os reporter o (bounded os reporter o (codes "symlink nginx enabled site failed")) linked
    tested ← run_argv os o.nginx_test_argv
    need os reporter o (bounded os reporter o (codes "nginx validation failed")) tested
    pure tt

  stop_on : Option Text → M (Unit {0})
  stop_on none = pure tt
  stop_on (some e) = leave (some e)

  announce_applying : Bool → M (Unit {0})
  unfolding stop_on
  announce_applying true = pure tt
  announce_applying false = do
    r ← row_runtime os o.intent.site_ulid (tls_echo o) state_applying []
    e ← reporter r
    stop_on e

  unfoldable pub run_apply_leg : M (Unit {0})
  unfolding announce_applying
  run_apply_leg = do
    prepared ← prepare
    announce_applying (text_eq (ledger_state o) state_applying)
    materialize prepared
    r ← row_runtime os o.intent.site_ulid (tls_echo o) state_applied []
    e ← reporter r
    leave e

  unfoldable pub run_reload_leg : M (Unit {0})
  run_reload_leg = do
    prepared ← prepare
    materialize prepared
    reloaded ← run_argv os o.nginx_reload_argv
    need os reporter o (bounded os reporter o (codes "nginx reload failed")) reloaded
    reload_at ← now os
    r ← row_reload_applied os o.intent.site_ulid (tls_out o) reload_at
    e ← reporter r
    leave e

  unfoldable pub steps : M (Unit {0})
  steps =
      let cur = ledger_state o in
      if text_eq cur state_requested || text_eq cur state_applying
      then run_apply_leg
      else if text_eq cur state_reload_requested
      then run_reload_leg
      else leave none

-- `Run`; a nil reporter is refused.
unfoldable pub run : ⦃u : Unicode⦄ → Os → Option Reporter → Options → Sys → Option Text × Sys
unfolding steps
run os none o s = (some (codes "reporter nil"), s)
run os (some reporter) o s = let (r, t) = steps os reporter o s in (result r, t)
