-- ===== src/Config/Load.antt =====
-- internal/config/config.go, `Load`. The YAML reader is the parameter `unmarshal`, and
-- `url.Parse` and `net.SplitHostPort` are parameters too.
pub mod Accepted
pub mod Sites
use releasepanel_agent.Base.{
  Bool, not, ◌&&◌, ◌||◌, Option, none, some, List, [], ◌++◌, ◌∷◌, if◌then◌else◌, is_empty,
}
use releasepanel_agent.Text.{Text, codes, text_eq, trim_space, Unicode}
use releasepanel_agent.FilePath.{is_abs, clean}
use releasepanel_agent.System.{Result, ok, err}
use releasepanel_agent.Config.Origin.{Url, validate_http_origin}
use releasepanel_agent.Config.Probes.{Spec, compile_runtime_dependency_probes, guarded}
use releasepanel_agent.Config.Settings.{Config}

-- The environment and the files that `Load` reads, with the libraries that it calls.
pub record Source : Type 0 where
  pub getenv : Text → Text
  pub read_file : Text → Result Text
  pub unmarshal : Text → Result Config
  pub parse_url : Text → Result Url
  pub split_host_port : Text → Option (Text × Text)

-- A value unless it is empty.
unfoldable pub or_else : Text → Text → Text
or_else s t = if is_empty s then t else s

unfoldable pub prefixed : {A : Type 0} → Text → Result A → Result A
prefixed message (ok a) = ok a
prefixed message (err e) = err (message ++ e)

unfoldable pub prefixed_error : Text → Option Text → Option Text
prefixed_error message none = none
prefixed_error message (some e) = some (message ++ e)

unfoldable pub check_central : ⦃u : Unicode⦄ → (Text → Result Url) → Text → Option Text
unfolding prefixed_error
check_central parse url =
    if is_empty url
    then some (codes "central_base_url is required")
    else prefixed_error (codes "central_base_url: ") (validate_http_origin parse url)

unfoldable pub check_ping_roots : Text → List Text → Option Text
check_ping_roots token_file roots =
    if not (is_empty (trim_space token_file)) && is_empty roots
    then some (codes "runtime_deploy_path_roots is required when agent_ping_token_file is set")
    else none

unfoldable pub is_root : Text → Bool
is_root p = text_eq (clean p) (codes "/")

-- `a != b` for Booleans.
unfoldable pub differs : Bool → Bool → Bool
differs a b = (a && not b) || (not a && b)

-- The trimmed roots of the sites.
unfoldable pub check_sites_roots : Text → Text → Option Text
unfolding differs is_root
check_sites_roots ar er =
    if differs (not (is_empty ar)) (not (is_empty er))
    then some (
        codes
          "nginx_sites_available_root and nginx_sites_enabled_root must both be set or both empty")
    else if not (is_empty ar)
    then (if not (is_abs ar) || not (is_abs er)
        then some (codes "nginx sites roots must be absolute paths")
        else if is_root ar || is_root er
        then some (codes "nginx sites roots reject filesystem root")
        else none)
    else none

module _ ⦃u : Unicode⦄ (src : Source) where
  unfoldable pub config_path : Text → Text
  unfolding or_else
  config_path path =
      or_else (or_else path (src.getenv (codes "RELEASEPANEL_CONFIG")))
        (codes "/etc/releasepanel-agent/config.yaml")

  unfoldable pub with_dirs : Config → Config
  unfolding or_else
  with_dirs cfg = record cfg {
    state_dir =
        or_else (or_else cfg.state_dir (src.getenv (codes "RELEASEPANEL_STATE_DIR")))
          (codes "/var/lib/releasepanel-agent");
    log_dir =
        or_else (or_else cfg.log_dir (src.getenv (codes "RELEASEPANEL_LOG_DIR")))
          (codes "/var/log/releasepanel-agent");
  }

  unfoldable pub with_specs : Config → Result (List Spec) → Result Config
  unfolding with_dirs
  with_specs cfg (err e) = err e
  with_specs cfg (ok specs) = ok (record (with_dirs cfg) { probe_specs = specs })

  -- The checks on what the file holds, and the defaults.
  unfoldable pub checked : Config → Result Config
  unfolding check_central check_ping_roots check_sites_roots with_specs
  checked cfg = guarded (check_central src.parse_url cfg.central_base_url) (
      guarded (check_ping_roots cfg.agent_ping_token_file cfg.runtime_deploy_path_roots) (
        guarded
          (check_sites_roots (trim_space cfg.nginx_sites_available_root)
            (trim_space cfg.nginx_sites_enabled_root))
          (with_specs cfg
            (compile_runtime_dependency_probes src.split_host_port cfg.runtime_dependency_probes))))

  unfoldable pub decoded : Result Config → Result Config
  unfolding checked
  decoded (err e) = err (codes "parse config: " ++ e)
  decoded (ok cfg) = checked cfg

  unfoldable pub on_content : Text → Result Text → Result Config
  unfolding decoded
  on_content path (err e) = err (codes "read config " ++ (u.quote path ++ (codes ": " ++ e)))
  on_content path (ok raw) = decoded (src.unmarshal raw)

  unfoldable pub load : Text → Result Config
  unfolding config_path on_content
  load path = on_content (config_path path) (src.read_file (config_path path))
