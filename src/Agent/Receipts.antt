-- ===== src/Agent/Receipts.antt =====
-- cmd/agent/main.go: the reporters that `cmdRun` hands to the executors.
use releasepanel_agent.Base.{
  Bool, true, false, not, ◌&&◌, Option, none, some, List, [], ◌∷◌, ◌++◌, if◌then◌else◌, is_empty,
}
use releasepanel_agent.Text.{Text, codes, text_eq, trim_space, to_lower, contains, Unicode}
use releasepanel_agent.System.{Os, Result, ok, err, Action, pure, ◌>>=◌, ◌>>◌}
use releasepanel_agent.Api.{
  SiteRuntimeReportRow, SiteRuntimeApplyIntent, AgentPingPostBody, AgentPingResponse,
  RuntimeDependencyReportRow, schema_v1,
}
use releasepanel_agent.Central.{Http, Json}
use releasepanel_agent.Central.Ping.{PingClient, post_ping}
use releasepanel_agent.State.{write_json_atomic, site_tls_echo}
use releasepanel_agent.Agent.Loop.{Loop, TlsEcho, insert, files, central, echo, set_echo, print}

-- What a cycle sends with each ping.
pub record Sender : Type 0 where
  pub hostname : Text
  pub agent_version : Text

abbrev pub ping_body :
    Sender → List SiteRuntimeReportRow → List RuntimeDependencyReportRow → AgentPingPostBody
ping_body me sites dependencies = record {
  schema_version = schema_v1;
  hostname = me.hostname;
  agent_version = me.agent_version;
  site_runtime_reports = sites;
  runtime_dependency_reports = dependencies;
}

module _ (os : Os) (log_dir state_dir : Text) (encode_echo : TlsEcho → Result Text) where
  -- `saveTlsEchoMap`; its error is only printed.
  unfoldable pub save_tls_echo_map : TlsEcho → Action Loop (Option Text)
  unfolding files write_json_atomic
  save_tls_echo_map m = files (write_json_atomic os (site_tls_echo state_dir) (encode_echo m) 0o600)

  unfoldable pub print_if : Text → Option Text → Action Loop (Unit {0})
  print_if what none = pure tt
  print_if what (some e) = print os log_dir (what ++ e)

  unfoldable pub keep_tls : SiteRuntimeReportRow → Action Loop (Unit {0})
  unfolding save_tls_echo_map print_if insert
  keep_tls row = do
    m ← echo
    set_echo (insert row.site_ulid row.tls_state m)
    saved ← save_tls_echo_map (insert row.site_ulid row.tls_state m)
    print_if (codes "persist site_tls_echo: ") saved

  unfoldable pub print_when : Bool → Text → Action Loop (Unit {0})
  print_when true msg = print os log_dir msg
  print_when false msg = pure tt

  -- What the reporter of a deployment prints.
  unfoldable pub tell_deploy : SiteRuntimeReportRow → Action Loop (Unit {0})
  unfolding print_when
  tell_deploy row = do
    print_when
        (text_eq row.repository_deploy_state (codes "applied")
          && not (is_empty (trim_space row.observed_commit_sha)))
        (codes "observed commit advanced site="
          ++ (row.site_ulid ++ (codes " sha=" ++ row.observed_commit_sha)))
    print_when (text_eq row.repository_deploy_state (codes "failed"))
        (codes "repository deploy failed site=" ++ row.site_ulid)

  unfoldable pub failure_line : ⦃u : Unicode⦄ → SiteRuntimeReportRow → Text
  failure_line row =
      if contains (to_lower row.failure_reason) (codes "certificate")
      then codes "certificate path missing site=" ++ row.site_ulid
      else if contains (to_lower row.failure_reason) (codes "validation")
      then codes "nginx validation failed site=" ++ row.site_ulid
      else codes "nginx runtime converge failed site=" ++ row.site_ulid

  -- What the reporter of a convergence prints.
  unfoldable pub tell_runtime :
      ⦃u : Unicode⦄ → SiteRuntimeApplyIntent → SiteRuntimeReportRow → Action Loop (Unit {0})
  unfolding failure_line
  tell_runtime intent row =
      if text_eq row.runtime_apply_state (codes "applied")
      then print os log_dir (
          (if intent.tls_enabled
            then codes "tls config materialized site="
            else codes "site config materialized site=")
          ++ row.site_ulid)
      else if text_eq row.runtime_apply_state (codes "reload_applied")
      then print os log_dir (codes "reload observed site=" ++ row.site_ulid)
      else if text_eq row.runtime_apply_state (codes "failed")
      then print os log_dir (failure_line row)
      else pure tt

  module _ (http : Http) (json : Json) (p : PingClient) (me : Sender) where
    unfoldable pub posted :
        (SiteRuntimeReportRow → Action Loop (Unit {0}))
        → SiteRuntimeReportRow
        → Result AgentPingResponse
        → Action Loop (Option Text)
    unfolding keep_tls
    posted tell row (err e) = pure (some e)
    posted tell row (ok r) = do keep_tls row; tell row; pure none

    -- A reporter, which differs only in what it prints.
    unfoldable pub report_row :
        (SiteRuntimeReportRow → Action Loop (Unit {0}))
        → SiteRuntimeReportRow
        → Action Loop (Option Text)
    unfolding posted central post_ping
    report_row tell row = do
      answer ← central (post_ping http json p (ping_body me (row ∷ []) []))
      posted tell row answer
