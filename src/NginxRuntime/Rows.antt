-- ===== src/NginxRuntime/Rows.antt =====
-- internal/nginxruntime/converge.go: the states, the options, the receipts and nginx's commands.
use releasepanel_agent.Base.{Option, none, some, List, [], ◌∷◌, ◌++◌, if◌then◌else◌, is_empty}
use releasepanel_agent.Text.{Text, codes, trim_space, truncate_runes}
use releasepanel_agent.Api.{SiteRuntimeApplyIntent, SiteRuntimeReportRow}
use releasepanel_agent.System.{Os, M, Result, ok, err, now, exec, pure, ◌>>=◌}

abbrev pub state_requested : Text
state_requested = codes "requested"

abbrev pub state_applying : Text
state_applying = codes "applying"

abbrev pub state_applied : Text
state_applied = codes "applied"

abbrev pub state_reload_requested : Text
state_reload_requested = codes "reload_requested"

abbrev pub state_reload_applied : Text
state_reload_applied = codes "reload_applied"

abbrev pub state_failed : Text
state_failed = codes "failed"

pub record Options : Type 0 where
  pub intent : SiteRuntimeApplyIntent
  pub deploy_path_roots : List Text
  pub nginx_sites_available_root : Text
  pub nginx_sites_enabled_root : Text
  pub nginx_test_argv : List Text
  pub nginx_reload_argv : List Text
  pub nginx_php_fastcgi_pass : Text
  pub tls_state_echo : Text
  pub tls_certificate_path_roots : List Text

-- A row at the time `at` of the clock, with every field of a deployment empty.
unfoldable pub row_at : Text → Text → Text → Text → Text → Text → SiteRuntimeReportRow
row_at site tls apply_state reload_at fail at = record {
  site_ulid = site;
  tls_state = tls;
  observed_at = at;
  repository_deploy_state = [];
  repository_deploy_failure_reason = [];
  observed_commit_sha = [];
  observed_commit_message = [];
  observed_commit_author = [];
  observed_commit_observed_at = [];
  runtime_apply_state = apply_state;
  runtime_reload_observed_at = reload_at;
  failure_reason = fail;
}

-- The first word of a command line, if it names a program.
unfoldable pub executable : List Text → Option (Text × List Text)
executable [] = none
executable (program ∷ args) = if is_empty (trim_space program) then none else some (program, args)

unfoldable pub argv_outcome : Text → Option Text → Result Text
argv_outcome out none = ok out
argv_outcome out (some e) =
    if is_empty out then err e else err (e ++ (codes ": " ++ truncate_runes out 4000))

module _ (os : Os) where
  unfoldable pub row_runtime : Text → Text → Text → Text → M SiteRuntimeReportRow
  unfolding row_at
  row_runtime site tls apply_state fail = do
    at ← now os
    pure (row_at site tls apply_state [] fail at)

  unfoldable pub row_reload_applied : Text → Text → Text → M SiteRuntimeReportRow
  unfolding row_at
  row_reload_applied site tls reload_at = do
    at ← now os
    pure (row_at site tls state_reload_applied reload_at [] at)

  unfoldable pub failed_row : Text → Text → Text → M SiteRuntimeReportRow
  unfolding row_at
  failed_row site tls reason = do
    at ← now os
    pure (row_at site tls state_failed [] (truncate_runes reason 19000) at)

  -- Both outputs of the process go to one buffer; the reply's texts are used only as the whole
  -- that they make.
  unfoldable pub run_program : Option (Text × List Text) → M (Result Text)
  unfolding argv_outcome
  run_program none = pure (err (codes "nginx argv missing executable"))
  run_program (some (program, args)) = do
    r ← exec os (record { path = program; args = args; work_dir = []; env = os.environ })
    pure (argv_outcome (trim_space (r.stdout ++ r.stderr)) r.error)

  unfoldable pub run_argv : List Text → M (Result Text)
  unfolding executable run_program
  run_argv argv = run_program (executable argv)
