-- ===== src/NginxRuntime/SiteFiles.antt =====
-- internal/nginxruntime/converge.go: the paths of a site's configuration, and how the file and the
-- symbolic link there are written.
pub mod Placed
pub mod Written
use releasepanel_agent.Base.{
  Bool, true, false, not, ◌||◌, Option, none, some, [], ◌∷◌, ◌++◌, if◌then◌else◌, is_empty,
}
use releasepanel_agent.Text.{
  Text, codes, text_eq, trim_space, to_lower, has_prefix, contains, truncate_runes, Unicode,
}
use releasepanel_agent.FilePath.{clean, join, dir}
use releasepanel_agent.System.{
  Os, M, Result, ok, err, Node, file, link, pure, leave, call, deferred, check, ◌>>=◌, ◌>>◌,
  mkdir_all, sync, close, remove, write, chmod, rename, symlink_to,
}
use releasepanel_agent.System.Files.{touch, look, follow}
use releasepanel_agent.System.Atomic.{got, replace_file}

unfoldable pub bounded_fail : Text → Option Text → Text
bounded_fail prefix none = prefix
bounded_fail prefix (some e) = truncate_runes (prefix ++ (codes ": " ++ e)) 19000

unfoldable pub path_under_root : Text → Text → Option Text
path_under_root p root =
    let pc = clean p in
    let rc = clean root in
    if text_eq pc rc || has_prefix pc (rc ++ codes "/")
    then none
    else some (codes "path outside nginx root")

unfoldable pub site_config_name : ⦃u : Unicode⦄ → Text → Text
site_config_name id = codes "rp-" ++ (to_lower id ++ codes ".conf")

-- The first of two errors.
first_error : Option Text → Option Text → Option Text
first_error none e = e
first_error (some e) _ = some e

unless_error : {A : Type 0} → Option Text → A → Result A
unless_error none a = ok a
unless_error (some e) a = err e

-- The paths of the available file and of the enabled link.
unfoldable pub site_config_paths : ⦃u : Unicode⦄ → Text → Text → Text → Result (Text × Text)
unfolding first_error unless_error
site_config_paths available_root enabled_root site_ulid =
    let ar = trim_space available_root in
    let er = trim_space enabled_root in
    let id = trim_space site_ulid in
    let name = site_config_name id in
    let ap = join (ar ∷ name ∷ []) in
    let ep = join (er ∷ name ∷ []) in
    if is_empty ar || is_empty er
    then err (codes "nginx sites roots not configured")
    else if is_empty id
    then err (codes "empty site_ulid")
    else if contains name (codes "..") || contains name (codes "/")
    then err (codes "invalid site_ulid")
    else unless_error (first_error (path_under_root ap ar) (path_under_root ep er)) (ap, ep)

module _ (os : Os) where
  unfoldable pub write_atomic_file : Text → Text → M (Option Text)
  write_atomic_file path content =
      call (replace_file os (codes ".rp-nginx-*") 0o644 path (ok content))

  -- A link that is right already is kept.
  unfoldable pub drop_stale : Text → Bool → M (Unit {0})
  drop_stale linkpath true = leave none
  drop_stale linkpath false = do removed ← touch os (remove linkpath); check removed

  -- What stands at the place of the link: nothing is done to a file.
  unfoldable pub replace_stale : Text → Text → Option Node → M (Unit {0})
  unfolding drop_stale
  replace_stale linkpath target none = pure tt
  replace_stale linkpath target (some (file content mode)) =
      leave (some (codes "nginx enabled path exists and is not a symlink"))
  replace_stale linkpath target (some (link old)) = do
    read ← follow os linkpath
    cur ← got read
    drop_stale linkpath (text_eq cur target)

  unfoldable pub ensure_symlink_steps : Text → Text → M (Unit {0})
  unfolding replace_stale
  ensure_symlink_steps linkpath target = do
    seen ← look os linkpath
    node ← got seen
    replace_stale linkpath target node
    linked ← touch os (symlink_to target linkpath)
    leave linked

  unfoldable pub ensure_symlink : Text → Text → M (Option Text)
  unfolding ensure_symlink_steps
  ensure_symlink linkpath target = call (ensure_symlink_steps linkpath target)
