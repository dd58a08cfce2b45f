-- ===== src/Agent/Tests.antt =====
-- The theorems on the agent's loop at a small agent.
use releasepanel_agent.Base.{
  ◌≡◌, ◌↔◌, refl, true, false, Option, none, some, List, [], ◌∷◌, ◌++◌, if◌then◌else◌,
}
use releasepanel_agent.Text.{Text, codes, text_eq, Unicode, has_prefix}
use releasepanel_agent.FilePath.{names, is_abs, NoSlash}
use releasepanel_agent.System.{Os, Result, ok, err, go, missing, file}
use releasepanel_agent.Config.Origin.{Url}
use releasepanel_agent.Config.Settings.{Config}
use releasepanel_agent.Api.{
  SiteRuntimeReportRow, SiteRepositoryDeployIntent, SiteRuntimeApplyIntent,
}
use releasepanel_agent.Central.{Http, Json, Client}
use releasepanel_agent.Central.Ping.{PingClient}
use releasepanel_agent.RuntimeProbe.{Host, no_error, content, delivered}
use releasepanel_agent.State.{repository_deploy_keys_dir}
use releasepanel_agent.Agent.Loop.{Loop, TlsEcho, key_path}
use releasepanel_agent.Agent.Receipts.{Sender, report_row, tell_deploy, tell_runtime}
use releasepanel_agent.Agent.Dispatch.{Setting, log_dir}
use releasepanel_agent.Agent.Cycle.{Files, no_counters, new_convergence}
use releasepanel_agent.Agent.Reported.{IsReported, report_row-IsReported}
use releasepanel_agent.Agent.Keys.{key_path_iff}
use releasepanel_agent.GitDeploy.PathValidate.{validate_deploy_path}
use releasepanel_agent.Agent.{normalize_deploy_roots, validate_deploy_path-normalize_deploy_roots}

abbrev roots : List Text
roots = codes "  " ∷ codes " /srv/sites\n" ∷ []

validate_deploy_path-normalize_deploy_roots_example :
    (validate_deploy_path (codes "/srv/sites/a") (normalize_deploy_roots roots) ≡ none)
    ↔ (validate_deploy_path (codes "/srv/sites/a") roots ≡ none)
validate_deploy_path-normalize_deploy_roots_example =
    validate_deploy_path-normalize_deploy_roots (codes "/srv/sites/a") roots

-- A small agent: Central takes everything and asks for one site.
instance ascii : Unicode
ascii = record { lower = λ c. c; quote = λ s. s }

abbrev os : Os
os = record {
  look_path = λ s name. err (codes "not found");
  exec = λ s c. (record { stdout = []; stderr = []; error = none }, s.disk);
  stat = λ s p. missing (codes "no such file or directory");
  eval_symlinks = λ s p. ok p;
  open_file = λ s p. none;
  post = λ s row. none;
  now = λ s. codes "2026-01-01T00:00:00Z";
  environ = [];
  fault = λ s c. none;
  temp_name = λ s dir pattern. codes "/tmp/.rp-1";
  partial = λ s. 0;
}

abbrev http : Http
http = record {
  respond = λ w req. ok (record { status = 200; body = codes "{}"; broken = none });
  bad_request = λ method url. none;
  resolve = λ u path. codes "https://a.example" ++ path;
  redacted = λ u path. codes "https://a.example" ++ path;
  path_escape = λ s. s;
}

abbrev wanted_site : SiteRepositoryDeployIntent
wanted_site = record {
  site_ulid = codes "s1";
  deploy_path = codes "/srv/sites/s1";
  git_ssh_url = codes "git@a.example:x/y.git";
  branch = codes "main";
  desired_commit_sha = [];
  deploy_state = codes "requested";
  repository_deploy_key_configured = true;
}

abbrev wanted_runtime : SiteRuntimeApplyIntent
wanted_runtime = record {
  site_ulid = codes "s1";
  domain = codes "a.example";
  deploy_path = codes "/srv/sites/s1";
  runtime_type = codes "static";
  runtime_apply_state = codes "requested";
  tls_enabled = false;
  ssl_certificate_path = [];
  ssl_certificate_key_path = [];
  redirect_http_to_https = false;
  tls_ledger_state = [];
}

abbrev json : Json
json = record {
  enroll_request = λ r. ok (codes "{}");
  enroll_response = λ t. err (codes "unexpected");
  inventory = λ r. ok (codes "{}");
  health = λ r. ok (codes "{}");
  heartbeat = λ r. ok (codes "{}");
  convergence = λ r. ok (codes "{}");
  ping_body = λ r. ok (codes "{}");
  ping_response = λ t. ok (record {
    site_repository_deploy_intents = wanted_site ∷ [];
    site_runtime_apply_intents = [];
  });
  fingerprint = λ t. none;
}

abbrev origin : Url
origin = record {
  scheme = codes "https";
  host = codes "a.example";
  path = [];
  raw_query = [];
  fragment = [];
}

abbrev row : SiteRuntimeReportRow
row = record {
  site_ulid = codes "s1";
  tls_state = codes "active";
  observed_at = codes "2026-01-01T00:00:00Z";
  repository_deploy_state = codes "applied";
  repository_deploy_failure_reason = [];
  observed_commit_sha = codes "abc";
  observed_commit_message = [];
  observed_commit_author = [];
  observed_commit_observed_at = [];
  runtime_apply_state = [];
  runtime_reload_observed_at = [];
  failure_reason = [];
}

abbrev cfg : Config
cfg = record {
  central_base_url = codes "https://a.example";
  poll_interval_seconds = 60;
  state_dir = codes "/var/lib/rp";
  log_dir = codes "/var/log/rp";
  skip_tls_verify = false;
  manifest_reconcile_enabled = true;
  agent_ping_token_file = codes "/etc/rp/token";
  runtime_deploy_path_roots = codes "/srv/sites" ∷ [];
  github_ssh_known_hosts_file = [];
  nginx_sites_available_root = [];
  nginx_sites_enabled_root = [];
  nginx_test_argv = [];
  nginx_reload_argv = [];
  nginx_php_fastcgi_pass = [];
  tls_certificate_path_roots = [];
  runtime_dependency_probes = [];
  probe_specs = [];
}

abbrev host : Host
host = record {
  stat = λ l path. missing (codes "no such file or directory");
  dial = λ l network addr. none;
  combined_output = λ l c. record { output = []; error = no_error };
  read_file = λ l path. content [];
  kill = λ l pid. delivered;
  done = λ l. false;
  now = λ l. codes "2026-01-01T00:00:00Z";
  environ = [];
  split_host_port = λ addr. none;
  join_host_port = λ name port. name ++ port;
}

abbrev me : Sender
me = record { hostname = codes "h1"; agent_version = codes "1.0" }

abbrev encode_echo : TlsEcho → Result Text
encode_echo m = ok (codes "{}")

abbrev setting : Setting
setting = record {
  os = os;
  http = http;
  json = json;
  host = host;
  parse_url = λ t. ok origin;
  encode_echo = encode_echo;
  decode_echo = λ t. ok [];
  cfg = cfg;
  enrolled = record {
    schema_version = 1;
    node_id = codes "n1";
    api_key = codes "k1";
    central_base_url = codes "https://a.example";
    enrolled_at = codes "2026-01-01T00:00:00Z";
  };
  me = me;
}

abbrev loop : Loop
loop = record {
  machine = record {
    sys = record {
      disk = λ p. if text_eq p (codes "/etc/rp/token") then some (file (codes "t1") 384) else none;
      log = [];
      ticks = 0;
    };
    wire = [];
  };
  rt = no_counters;
  conv = new_convergence (codes "2026-01-01T00:00:00Z");
  tls_echo = [];
  asked = [];
}

abbrev kept_files : Files
kept_files = record {
  encode_runtime = λ rt. ok (codes "{}");
  decode_runtime = λ t. ok no_counters;
  decode_convergence = λ t. err (codes "unexpected");
  encode_inventory = λ i. ok (codes "{}");
  encode_event = λ at n e. ok (codes "{}");
  has_passed = λ t at. true;
  facts = record {
    hostname = λ s. codes "h1";
    statfs = λ s p. none;
    goos = codes "linux";
    goarch = codes "amd64";
    elapsed = λ s. 1;
  };
  remote = record {
    fetch_desired = λ s. ok ([], []);
    post_convergence = λ s r. none;
    fingerprint_of = λ t. none;
    encode_run = λ r. codes "{}";
    is_exist = λ e. false;
    encode_convergence = λ c. ok (codes "{}");
    run_id = λ s. codes "r1";
  };
}

abbrev node : Client
node = record {
  base_url = origin;
  skip_tls_verify = false;
  node_id = codes "n1";
  api_key = codes "k1";
}

abbrev pinger : PingClient
pinger = record { base_url = origin; skip_tls_verify = false; token = codes "t1" }

report_row-IsReported_example :
    let report =
      report_row os (codes "/var/log/rp") (codes "/var/lib/rp") encode_echo http json pinger me in
    let deployed =
      report (tell_deploy os (codes "/var/log/rp") (codes "/var/lib/rp") encode_echo) row loop in
    let converged =
      report
        (tell_runtime os (codes "/var/log/rp") (codes "/var/lib/rp") encode_echo wanted_runtime)
        row
        loop in
    let kept =
      IsReported os
        (codes "/var/log/rp")
        (codes "/var/lib/rp")
        encode_echo
        http
        json
        pinger
        me
        row
        loop in
    ((e : Option Text) × (deployed.0 ≡ go e) × kept e deployed.1)
    × ((e : Option Text) × (converged.0 ≡ go e) × kept e converged.1)
report_row-IsReported_example =
    report_row-IsReported os (codes "/var/log/rp") (codes "/var/lib/rp") encode_echo http json
      pinger me wanted_runtime row loop

key_path_iff_example :
    (names (key_path (codes "/var/lib/rp") (codes "../../x"))
      ≡ names (repository_deploy_keys_dir (codes "/var/lib/rp"))
        ++ (codes "../../x" ++ codes ".key") ∷ [])
    ↔ NoSlash (codes "../../x")
unfolding is_abs has_prefix
key_path_iff_example = key_path_iff (codes "/var/lib/rp") (codes "../../x") refl
