-- ===== src/Agent/Dispatch.antt =====
-- cmd/agent/main.go: the part of a cycle that pings Central and hands its intents to the executors.
use releasepanel_agent.Base.{some, List, [], ◌∷◌, ◌++◌, if◌then◌else◌, is_empty}
use releasepanel_agent.Text.{Text, codes, text_eq, trim_space, Unicode}
use releasepanel_agent.System.{Os, Result, Action, pure, ◌>>=◌, ◌>>◌}
use releasepanel_agent.System.Files.{read_text, ReadReply, contents, absent, unreadable}
use releasepanel_agent.Api.{
  SiteRepositoryDeployIntent, SiteRuntimeApplyIntent, AgentPingResponse, RuntimeDependencyReportRow,
}
use releasepanel_agent.Config.Origin.{Url}
use releasepanel_agent.Config.Settings.{
  Config, runtime_probe_specs, nginx_runtime_configured, resolved_nginx_test_argv,
  resolved_nginx_reload_argv, resolved_nginx_php_fastcgi_pass,
}
use releasepanel_agent.Central.{Http, Json}
use releasepanel_agent.Central.Ping.{PingClient, new_ping_client, get_ping, post_ping}
use releasepanel_agent.RuntimeProbe.{Host, run_all}
use releasepanel_agent.State.{EnrollmentRecord, site_tls_echo}
use releasepanel_agent.GitDeploy.Executor
use releasepanel_agent.NginxRuntime.Rows
use releasepanel_agent.NginxRuntime.Converge
use releasepanel_agent.Agent.Hosted.{hosted}
use releasepanel_agent.Agent.{normalize_deploy_roots}
use releasepanel_agent.Agent.Loop.{
  Loop, TlsEcho, echo_of, tls_for, key_path, central, reading, probing, echo, set_echo, print,
  complain, complain_if, then_or,
}
use releasepanel_agent.Agent.Receipts.{Sender, ping_body, report_row, tell_deploy, tell_runtime}

unfoldable pub git_options :
    Config → TlsEcho → SiteRepositoryDeployIntent → releasepanel_agent.GitDeploy.Executor.Options
unfolding normalize_deploy_roots key_path tls_for
git_options cfg m intent = record {
  intent = intent;
  allowed_path_roots = normalize_deploy_roots cfg.runtime_deploy_path_roots;
  private_key_path = key_path cfg.state_dir intent.site_ulid;
  known_hosts_path = trim_space cfg.github_ssh_known_hosts_file;
  tls_state_echo = tls_for intent.site_ulid m;
}

unfoldable pub nginx_options :
    Config → TlsEcho → SiteRuntimeApplyIntent → releasepanel_agent.NginxRuntime.Rows.Options
unfolding normalize_deploy_roots tls_for resolved_nginx_test_argv resolved_nginx_reload_argv
    resolved_nginx_php_fastcgi_pass
nginx_options cfg m intent = record {
  intent = intent;
  deploy_path_roots = normalize_deploy_roots cfg.runtime_deploy_path_roots;
  nginx_sites_available_root = trim_space cfg.nginx_sites_available_root;
  nginx_sites_enabled_root = trim_space cfg.nginx_sites_enabled_root;
  nginx_test_argv = resolved_nginx_test_argv cfg;
  nginx_reload_argv = resolved_nginx_reload_argv cfg;
  nginx_php_fastcgi_pass = resolved_nginx_php_fastcgi_pass cfg;
  tls_state_echo = tls_for intent.site_ulid m;
  tls_certificate_path_roots = normalize_deploy_roots cfg.tls_certificate_path_roots;
}

-- What the loop has from its start.
pub record Setting : Type 0 where
  pub os : Os
  pub http : Http
  pub json : Json
  pub host : Host
  pub parse_url : Text → Result Url
  pub encode_echo : TlsEcho → Result Text
  pub decode_echo : Text → Result (List (Text × Text))
  pub cfg : Config
  pub enrolled : EnrollmentRecord
  pub me : Sender

module _ ⦃u : Unicode⦄ (st : Setting) where
  abbrev pub log_dir : Text
  log_dir = st.cfg.log_dir

  -- The loop over the deploy intents, in their order.
  unfoldable pub deploy_sites :
      PingClient → List SiteRepositoryDeployIntent → Action Loop (Unit {0})
  unfolding hosted report_row tell_deploy git_options complain_if
  deploy_sites p [] = pure tt
  deploy_sites p (intent ∷ intents) = do
    m ← echo
    e ←
        hosted
          (λ r.
            releasepanel_agent.GitDeploy.Executor.run st.os (some r) (git_options st.cfg m intent))
          (report_row st.os log_dir st.cfg.state_dir st.encode_echo st.http st.json p st.me
            (tell_deploy st.os log_dir st.cfg.state_dir st.encode_echo))
    complain_if st.os log_dir
        (codes "repository converge site=" ++ (intent.site_ulid ++ codes ": ")) e
    deploy_sites p intents

  unfoldable pub converge_sites : PingClient → List SiteRuntimeApplyIntent → Action Loop (Unit {0})
  unfolding hosted report_row tell_runtime nginx_options complain_if
  converge_sites p [] = pure tt
  converge_sites p (intent ∷ intents) = do
    m ← echo
    e ←
        hosted
          (λ r.
            releasepanel_agent.NginxRuntime.Converge.run st.os (some r)
              (nginx_options st.cfg m intent))
          (report_row st.os log_dir st.cfg.state_dir st.encode_echo st.http st.json p st.me
            (tell_runtime st.os log_dir st.cfg.state_dir st.encode_echo intent))
    complain_if st.os log_dir
        (codes "nginx runtime converge site=" ++ (intent.site_ulid ++ codes ": ")) e
    converge_sites p intents

  -- The intents of one ping.
  unfoldable pub dispatch : PingClient → AgentPingResponse → Action Loop (Unit {0})
  unfolding deploy_sites converge_sites echo_of
  dispatch p r = do
    raw ← reading (read_text st.os (site_tls_echo st.cfg.state_dir))
    set_echo (echo_of st.decode_echo raw)
    deploy_sites p r.site_repository_deploy_intents
    if nginx_runtime_configured st.cfg
        then converge_sites p r.site_runtime_apply_intents
        else pure tt

  unfoldable pub tell_probes : List RuntimeDependencyReportRow → Action Loop (Unit {0})
  tell_probes [] = pure tt
  tell_probes (r ∷ rs) =
      let rest = tell_probes rs in
      if text_eq r.state (codes "observed")
      then rest
      else (do print st.os log_dir (r.dependency ++ (codes " probe " ++ r.state)); rest)

  unfoldable pub report_probes : PingClient → Action Loop (Unit {0})
  unfolding tell_probes then_or
  report_probes p = if is_empty (runtime_probe_specs st.cfg) then pure tt else (do
    reports ← probing (run_all st.host (runtime_probe_specs st.cfg))
    answer ← central (post_ping st.http st.json p (ping_body st.me [] reports))
    then_or st.os log_dir (codes "post ping runtime_dependency_reports: ")
        (λ r. tell_probes reports) answer)

  unfoldable pub ping_with : PingClient → Action Loop (Unit {0})
  unfolding dispatch report_probes then_or
  ping_with p = do
    report_probes p
    answer ← central (get_ping st.http st.json p)
    then_or st.os log_dir (codes "get ping: ") (dispatch p) answer

  unfoldable pub with_token : ReadReply → Action Loop (Unit {0})
  unfolding ping_with then_or complain
  with_token (contents raw) = then_or st.os log_dir (codes "ping client: ") ping_with (
      new_ping_client st.parse_url st.enrolled.central_base_url st.cfg.skip_tls_verify
        (trim_space raw))
  with_token (absent e) = complain st.os log_dir (codes "read agent_ping_token_file: ") e
  with_token (unreadable e) = complain st.os log_dir (codes "read agent_ping_token_file: ") e

  unfoldable pub ping_section : Action Loop (Unit {0})
  unfolding with_token
  ping_section = if is_empty (trim_space st.cfg.agent_ping_token_file) then pure tt else (do
    raw ← reading (read_text st.os (trim_space st.cfg.agent_ping_token_file))
    with_token raw)
