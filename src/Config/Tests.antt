-- ===== src/Config/Tests.antt =====
-- The theorems on the configuration at small inputs.
use releasepanel_agent.Base.{
  ◌*◌, ◌≢◌, true, false, arith, inl, ◌≡◌, ◌≤◌, ◌↔◌, refl, Option, none, some, [], ◌∷◌, ◌++◌, ◌==◌,
  length, All, if◌then◌else◌,
}
use releasepanel_agent.Text.{
  Text, codes, text_eq, trim_space, trim_left, trim_right, is_space, to_lower, lower_rune,
  has_prefix, byte_length, rune_length, Unicode, contains,
}
use releasepanel_agent.FilePath.{is_abs, clean, join_names, names, resolve, split, visit}
use releasepanel_agent.System.{Result, ok, err}
use releasepanel_agent.Config.Probes.{
  RuntimeDependencyProbe, Spec, guarded, compile_runtime_dependency_probes,
}
use releasepanel_agent.Config.Probes.Valid.{IsValid, compile_runtime_dependency_probes-IsValid}
use releasepanel_agent.NginxRuntime.SiteFiles.{site_config_paths, site_config_name}
use releasepanel_agent.Config.Settings.{
  Config, is_positive, poll_interval, second, default_poll_interval, nginx_runtime_configured,
}
use releasepanel_agent.Config.Settings.Interval.{poll_interval_lem}
use releasepanel_agent.Config.Load.{Source, load}
use releasepanel_agent.Config.Load.Accepted.{Loads, load_iff}
use releasepanel_agent.Config.Load.Sites.{load-site_config_paths, load-IsComplete}
use releasepanel_agent.Config.Origin.{Url, IsOrigin, validate_http_origin, validate_http_origin_iff}

instance ascii : Unicode
ascii = record { lower = λ c. c; quote = λ s. codes "\"" ++ (s ++ codes "\"") }

-- Every address but the empty one has a host and a port here.
abbrev split_local : Text → Option (Text × Text)
split_local [] = none
split_local (c ∷ s) = some (codes "127.0.0.1", codes "6379")

abbrev redis : RuntimeDependencyProbe
redis = record {
  kind = codes "Redis ";
  socket = [];
  tcp = codes "127.0.0.1:6379";
  systemctl_argv = codes "/bin/systemctl" ∷ codes "is-active" ∷ [];
  pid_file = [];
}

abbrev redis_spec : Spec
redis_spec = record {
  dependency = codes "redis";
  socket_path = [];
  tcp_addr = codes "127.0.0.1:6379";
  systemctl_argv = codes "/bin/systemctl" ∷ codes "is-active" ∷ [];
  pid_file = [];
}

compile_runtime_dependency_probes-IsValid_example :
    (length (redis ∷ []) ≤ 32)
    × (length (redis_spec ∷ []) ≡ length (redis ∷ []))
    × All (IsValid split_local) (redis_spec ∷ [])
unfolding compile_runtime_dependency_probes trim_space trim_left trim_right is_space to_lower
    lower_rune text_eq is_abs has_prefix byte_length rune_length
compile_runtime_dependency_probes-IsValid_example =
    compile_runtime_dependency_probes-IsValid split_local (redis ∷ []) {specs = redis_spec ∷ []}
      refl

-- A parser for one address.
abbrev parse_one : Text → Result Url
parse_one s =
    if text_eq s (codes "https://a.example")
    then ok (record {
      scheme = codes "https";
      host = codes "a.example";
      path = [];
      raw_query = [];
      fragment = [];
    })
    else err (codes "invalid")

validate_http_origin_iff_example :
    (validate_http_origin parse_one (codes "https://a.example/") ≡ none) ↔ (
      (url : Url) × (parse_one
          (trim_right (λ c. c == b'/') (trim_space (codes "https://a.example/")))
        ≡ ok url)
      × IsOrigin url)
validate_http_origin_iff_example = validate_http_origin_iff parse_one (codes "https://a.example/")

-- A file with Central's address and the two roots of the sites.
abbrev file_config : Config
file_config = record {
  central_base_url = codes "https://a.example";
  poll_interval_seconds = 60;
  state_dir = [];
  log_dir = codes "/var/log/rp";
  skip_tls_verify = false;
  manifest_reconcile_enabled = false;
  agent_ping_token_file = codes "/etc/rp/token";
  runtime_deploy_path_roots = codes "/srv" ∷ [];
  github_ssh_known_hosts_file = [];
  nginx_sites_available_root = codes "/nginx/available";
  nginx_sites_enabled_root = codes "/nginx/enabled";
  nginx_test_argv = [];
  nginx_reload_argv = [];
  nginx_php_fastcgi_pass = [];
  tls_certificate_path_roots = [];
  runtime_dependency_probes = [];
  probe_specs = [];
}

abbrev source : Source
source = record {
  getenv = λ name. [];
  read_file = λ path. ok (codes "central_base_url: https://a.example");
  unmarshal = λ raw. ok file_config;
  parse_url = parse_one;
  split_host_port = split_local;
}

abbrev loaded_config : Config
loaded_config = record file_config { state_dir = codes "/var/lib/releasepanel-agent" }

-- The file is accepted, and the state directory is the default.
loads : load source [] ≡ ok loaded_config
unfolding load guarded validate_http_origin text_eq trim_right trim_space trim_left is_space is_abs
    has_prefix clean join_names names resolve split visit compile_runtime_dependency_probes
loads = refl

load_iff_example : (load source [] ≡ ok loaded_config) ↔ Loads source [] loaded_config
load_iff_example = load_iff source [] loaded_config

load-site_config_paths_example :
    (ps : Text × Text) × (site_config_paths loaded_config.nginx_sites_available_root
        loaded_config.nginx_sites_enabled_root
        (codes "01HX")
      ≡ ok ps)
unfolding nginx_runtime_configured trim_space trim_right trim_left is_space contains
    site_config_name to_lower lower_rune
load-site_config_paths_example =
    load-site_config_paths source [] loaded_config (codes "01HX") loads refl (λ e. ground arith)
      refl refl

load-IsComplete_example :
    (loaded_config.state_dir ≢ [])
    × (loaded_config.log_dir ≢ [])
    × (length loaded_config.probe_specs ≤ 32)
    × All (IsValid split_local) loaded_config.probe_specs
load-IsComplete_example = load-IsComplete source [] loaded_config loads

poll_interval_lem_example :
    (is_positive (poll_interval file_config) ≡ true)
    × (poll_interval file_config ≡ (
        if is_positive file_config.poll_interval_seconds
        then file_config.poll_interval_seconds * second
        else default_poll_interval))
poll_interval_lem_example = poll_interval_lem file_config (inl (omega arith))

abbrev too_long : Config
too_long = record file_config { poll_interval_seconds = 10000000000 }
