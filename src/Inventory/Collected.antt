-- ===== src/Inventory/Collected.antt =====
-- internal/inventory: rules for `Collect` and its parts.
use releasepanel_agent.Base.{List, [], ◌∷◌, none, is_empty}
use releasepanel_agent.Text.{Text, codes}
use releasepanel_agent.System.{Os, M, Result, ok, err}
use releasepanel_agent.System.Files.{ReadReply, contents, absent, unreadable}
use releasepanel_agent.System.Goes.{
  Goes, Goes-bind, Goes-pure, Goes-if, Goes-ask, exec-Goes, look_path-Goes, now-Goes,
  read_text-Goes,
}
use releasepanel_agent.Inventory.{
  HostFacts, nginx_at, nginx_inventory, php_at, php_inventory, id_from, machine_id_from, machine_id,
  collect,
}

module _ (os : Os) where
  nginx_at-Goes : (path : Result Text) → Goes (nginx_at os path)
  unfolding nginx_at
  nginx_at-Goes (err e) = Goes-pure none
  nginx_at-Goes (ok path) =
      Goes-if (is_empty path) (Goes-pure none) (Goes-bind (exec-Goes os _) λ r. Goes-pure _)

  php_at-Goes : (path : Result Text) → Goes (php_at os path)
  unfolding php_at
  php_at-Goes (err e) = Goes-pure none
  php_at-Goes (ok path) =
      Goes-if (is_empty path) (Goes-pure none) (Goes-bind (exec-Goes os _) λ r. Goes-pure _)

  id_from-Goes :
      (ps : List Text) (r : ReadReply) (others : M Text)
      → Goes others
      → Goes (id_from os ps r others)
  unfolding id_from
  id_from-Goes ps (contents b) others h = Goes-pure _
  id_from-Goes ps (absent e) others h = h
  id_from-Goes ps (unreadable e) others h = h

  machine_id_from-Goes : (ps : List Text) → Goes (machine_id_from os ps)
  unfolding machine_id_from
  machine_id_from-Goes [] = Goes-pure []
  machine_id_from-Goes (p ∷ ps) =
      Goes-bind (read_text-Goes os p) λ r. id_from-Goes ps r _ (machine_id_from-Goes ps)

  machine_id-Goes : Goes (machine_id os)
  unfolding machine_id
  machine_id-Goes =
      machine_id_from-Goes (codes "/etc/machine-id" ∷ codes "/var/lib/dbus/machine-id" ∷ [])

  pub collect-Goes :
      (facts : HostFacts) (hostname version : Text) → Goes (collect os facts hostname version)
  unfolding collect nginx_inventory php_inventory
  collect-Goes facts hostname version = Goes-bind (Goes-ask _) λ own.
      Goes-bind (Goes-ask _) λ mount.
        Goes-bind (Goes-bind (look_path-Goes os _) nginx_at-Goes) λ ngx.
          Goes-bind (Goes-bind (look_path-Goes os _) php_at-Goes)
            λ ph. Goes-bind (now-Goes os) λ at. Goes-bind machine_id-Goes λ id. Goes-pure _
