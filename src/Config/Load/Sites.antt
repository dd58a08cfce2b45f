-- ===== src/Config/Load/Sites.antt =====
-- What a loaded configuration means for the convergence of nginx's sites.
use releasepanel_agent.Base.{◌≡◌, ◌≢◌, inl, inr, arith, true, false, [], All, length, ◌≤◌}
use releasepanel_agent.Text.{Text, codes, trim_space, contains, Unicode}
use releasepanel_agent.System.{ok}
use releasepanel_agent.GitDeploy.PathValidate.Allowed.{IsProper}
use releasepanel_agent.NginxRuntime.SiteFiles.{site_config_paths, site_config_name}
use releasepanel_agent.NginxRuntime.SiteFiles.Placed.{site_config_paths_total}
use releasepanel_agent.Config.Probes.Valid.{IsValid, compile_runtime_dependency_probes-IsValid}
use releasepanel_agent.Config.Settings.{Config, nginx_runtime_configured}
use releasepanel_agent.Config.Load.{Source, load, or_else, with_dirs}
use releasepanel_agent.Config.Load.Accepted.{AreSitesRoots, load_iff}

configured_lem :
    (c : Config)
    → nginx_runtime_configured c ≡ true
    → AreSitesRoots
        (trim_space c.nginx_sites_available_root)
        (trim_space c.nginx_sites_enabled_root)
    → IsProper (trim_space c.nginx_sites_available_root)
      × IsProper (trim_space c.nginx_sites_enabled_root)
unfolding nginx_runtime_configured
configured_lem c h (inl e) = ground arith
configured_lem c h (inr p) = p

-- Under a configuration that `Load` returned and that sets the roots of the sites, `siteConfigPaths`
-- gives paths for every site whose identifier is not blank and makes a file name with neither a
-- separator nor `..`.
pub load-site_config_paths :
    ⦃u : Unicode⦄ (src : Source) (path : Text) (cfg : Config) (id : Text)
    → load src path ≡ ok cfg
    → nginx_runtime_configured cfg ≡ true
    → trim_space id ≢ []
    → contains (site_config_name (trim_space id)) (codes "..") ≡ false
    → contains (site_config_name (trim_space id)) (codes "/") ≡ false
    → (ps : Text × Text) × (site_config_paths cfg.nginx_sites_available_root
          cfg.nginx_sites_enabled_root id
        ≡ ok ps)
unfolding with_dirs
load-site_config_paths src path cfg id h c n dots slash =
    let l = (load_iff src path cfg).0 h in
    let (a, e) = configured_lem cfg c (rw l.filled_in l.acceptable.sites_roots) in
    site_config_paths_total cfg.nginx_sites_available_root cfg.nginx_sites_enabled_root id a e n
      dots slash

or_else-ne-nil : (s t : Text) → t ≢ [] → or_else s t ≢ []
unfolding or_else
or_else-ne-nil s t h = ground arith

-- A configuration that `Load` returned names a directory for the state and one for the logs, and
-- its probes are at most 32 and all valid.
pub load-IsComplete :
    ⦃u : Unicode⦄ (src : Source) (path : Text) (cfg : Config)
    → load src path ≡ ok cfg
    → (cfg.state_dir ≢ [])
      × (cfg.log_dir ≢ [])
      × (length cfg.probe_specs ≤ 32)
      × All (IsValid src.split_host_port) cfg.probe_specs
unfolding with_dirs
load-IsComplete src path cfg h =
    let l = (load_iff src path cfg).0 h in
    let (few, same, valid) =
      compile_runtime_dependency_probes-IsValid src.split_host_port l.raw.runtime_dependency_probes
        l.compiled in
    rw l.filled_in (
      or_else-ne-nil (or_else l.raw.state_dir (src.getenv (codes "RELEASEPANEL_STATE_DIR")))
          (codes "/var/lib/releasepanel-agent") (ground arith),
      or_else-ne-nil (or_else l.raw.log_dir (src.getenv (codes "RELEASEPANEL_LOG_DIR")))
          (codes "/var/log/releasepanel-agent") (ground arith),
      omega (arith, few, same),
      valid,
    )
