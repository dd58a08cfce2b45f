-- ===== src/NginxRuntime/SiteFiles/Placed.antt =====
-- Where the files of a site are.
use releasepanel_agent.Base.{◌≡◌, ◌≢◌, true, false, none, [], ◌∷◌, ◌++◌, arith}
use releasepanel_agent.Text.{
  Text, codes, text_eq_iff, trim_space, contains, has_prefix, to_lower, Unicode,
}
use releasepanel_agent.FilePath.{is_abs, names, join, NoSlash, clean}
use releasepanel_agent.FilePath.Names.{IsName}
use releasepanel_agent.FilePath.Child.{names-join, is_abs-join}
use releasepanel_agent.GitDeploy.PathValidate.Allowed.{IsProper, is_abs-not_empty}
use releasepanel_agent.FilePath.Below.{text_below}
use releasepanel_agent.System.{ok}
use releasepanel_agent.NginxRuntime.SiteFiles.{
  path_under_root, site_config_name, site_config_paths, first_error, unless_error,
}

contains_slash : (s : Text) → contains s (codes "/") ≡ false → NoSlash s
unfolding contains has_prefix
contains_slash [] h = tt
contains_slash (c ∷ s) h = (ground arith, contains_slash s (ground arith))

site_config_name-IsName :
    ⦃u : Unicode⦄ (id : Text)
    → contains (site_config_name id) (codes "/") ≡ false
    → IsName (site_config_name id)
unfolding site_config_name
site_config_name-IsName id h = record {
  no_slash = contains_slash (site_config_name id) h;
  ne_nil = ground arith;
  ne_dot = ground arith;
  ne_dots = ground arith;
}

-- The two paths of a site, below cleaned roots.
pub record ArePlaced ⦃u : Unicode⦄ (available_root enabled_root id available enabled : Text)
    : Type 0 where
  pub available_child :
      names available
      ≡ names (trim_space available_root)
        ++ (codes "rp-" ++ (to_lower (trim_space id) ++ codes ".conf")) ∷ []
  pub enabled_child :
      names enabled
      ≡ names (trim_space enabled_root)
        ++ (codes "rp-" ++ (to_lower (trim_space id) ++ codes ".conf")) ∷ []

-- What the checks that come before the paths say.
site_config_paths_made :
    ⦃u : Unicode⦄ (available_root enabled_root id : Text) {ps : Text × Text}
    → site_config_paths available_root enabled_root id ≡ ok ps
    → (contains (site_config_name (trim_space id)) (codes "/") ≡ false)
      × (ps.0 ≡ join (trim_space available_root ∷ site_config_name (trim_space id) ∷ []))
      × (ps.1 ≡ join (trim_space enabled_root ∷ site_config_name (trim_space id) ∷ []))
unfolding site_config_paths unless_error
site_config_paths_made available_root enabled_root id h = ground arith

-- With absolute roots, the paths that `siteConfigPaths` gives are direct children of the two
-- roots, both named `rp-<id>.conf` with the site's identifier trimmed and in lower case.
pub site_config_paths-ArePlaced :
    ⦃u : Unicode⦄ (available_root enabled_root id : Text) {ps : Text × Text}
    → is_abs (trim_space available_root) ≡ true
    → is_abs (trim_space enabled_root) ≡ true
    → site_config_paths available_root enabled_root id ≡ ok ps
    → ArePlaced available_root enabled_root id ps.0 ps.1
unfolding site_config_name
site_config_paths-ArePlaced available_root enabled_root id {ps} ha he h =
    let (slashless, qa, qe) = site_config_paths_made available_root enabled_root id h in
    let name = site_config_name-IsName (trim_space id) slashless in
    record {
      available_child = rw qa (names-join (trim_space available_root) _ ha name);
      enabled_child = rw qe (names-join (trim_space enabled_root) _ he name);
    }

path_under_root-join :
    (root c : Text) → IsProper root → IsName c → path_under_root (join (root ∷ c ∷ [])) root ≡ none
unfolding path_under_root
path_under_root-join root c h n = ground (
  arith,
  text_eq_iff (clean (join (root ∷ c ∷ []))) (clean root),
  text_below (join (root ∷ c ∷ [])) root (is_abs-join root c h.absolute n.ne_nil) h.absolute
      h.below_slash (c ∷ [], names-join root c h.absolute n),
)

-- `siteConfigPaths` gives paths for every identifier that is not blank and whose file
-- name has neither a separator nor `..`, when both roots are absolute and not `/`.
pub site_config_paths_total :
    ⦃u : Unicode⦄ (available_root enabled_root id : Text)
    → IsProper (trim_space available_root)
    → IsProper (trim_space enabled_root)
    → trim_space id ≢ []
    → contains (site_config_name (trim_space id)) (codes "..") ≡ false
    → contains (site_config_name (trim_space id)) (codes "/") ≡ false
    → (ps : Text × Text) × (site_config_paths available_root enabled_root id ≡ ok ps)
unfolding site_config_paths unless_error first_error
site_config_paths_total available_root enabled_root id ha he n dots slash =
    let name = site_config_name-IsName (trim_space id) slash in
    (
      (
        join (trim_space available_root ∷ site_config_name (trim_space id) ∷ []),
        join (trim_space enabled_root ∷ site_config_name (trim_space id) ∷ []),
      ),
      ground (
        arith,
        path_under_root-join (trim_space available_root) _ ha name,
        path_under_root-join (trim_space enabled_root) _ he name,
        is_abs-not_empty (trim_space available_root) ha.absolute,
        is_abs-not_empty (trim_space enabled_root) he.absolute,
        n,
      ),
    )
