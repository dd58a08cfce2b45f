-- ===== src/Health/Collected.antt =====
-- internal/health: rules for `Collect` and its probes.
use releasepanel_agent.Base.{List, [], ◌∷◌}
use releasepanel_agent.Text.{Text}
use releasepanel_agent.System.{Os, Result, ok, err}
use releasepanel_agent.System.Goes.{
  Goes, Goes-bind, Goes-pure, Goes-if, Goes-ask, exec-Goes, look_path-Goes, now-Goes, stat-Goes,
}
use releasepanel_agent.Inventory.{HostFacts}
use releasepanel_agent.Health.{
  run_found, config_test, cli_probe, socket_among, fpm_listen_probe, is_no_dir, fpm_socket_hints,
  collect_health,
}

module _ (os : Os) where
  run_found-Goes :
      (message : Text) (args : List Text) (path : Result Text)
      → Goes (run_found os message args path)
  unfolding run_found
  run_found-Goes message args (err e) = Goes-pure _
  run_found-Goes message args (ok path) = Goes-bind (exec-Goes os _) λ r. Goes-pure _

  socket_among-Goes : (ps : List Text) → Goes (socket_among os ps)
  unfolding socket_among
  socket_among-Goes [] = Goes-pure _
  socket_among-Goes (p ∷ ps) =
      Goes-bind (stat-Goes os p) λ st. Goes-if (is_no_dir st) (Goes-pure _) (socket_among-Goes ps)

  fpm_listen_probe-Goes : Goes (fpm_listen_probe os)
  unfolding fpm_listen_probe
  fpm_listen_probe-Goes = socket_among-Goes (fpm_socket_hints os)

  pub collect_health-Goes :
      (facts : HostFacts) (node_id : Text) → Goes (collect_health os facts node_id)
  unfolding collect_health config_test cli_probe
  collect_health-Goes facts node_id = Goes-bind (now-Goes os) λ at.
      Goes-bind (Goes-bind (look_path-Goes os _) (run_found-Goes _ _)) λ nginx.
        Goes-bind (Goes-ask _) λ nginx_ms.
          Goes-bind (Goes-bind (look_path-Goes os _) (run_found-Goes _ _)) λ php.
            Goes-bind (Goes-ask _) λ php_ms.
              Goes-bind fpm_listen_probe-Goes λ fpm. Goes-bind (Goes-ask _) λ fpm_ms. Goes-pure _
