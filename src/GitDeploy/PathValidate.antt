-- ===== src/GitDeploy/PathValidate.antt =====
-- internal/gitdeploy/pathvalidate.go. An `error` is the option of its message.
pub mod Allowed
use releasepanel_agent.Base.{
  ◌||◌, not, Option, none, some, List, [], ◌∷◌, ◌++◌, if◌then◌else◌, is_empty,
}
use releasepanel_agent.Text.{Text, codes, text_eq, has_prefix, contains, trim_space}
use releasepanel_agent.FilePath.{is_abs, clean}

-- The loop over the allowed roots, for a cleaned path.
unfoldable pub check_roots : Text → List Text → Option Text
check_roots path [] = some (codes "deploy path outside allowed runtime roots")
check_roots path (root ∷ roots) =
    let rest = check_roots path roots in
    let r = trim_space root in
    if is_empty r
    then rest
    else if not (is_abs r)
    then some (codes "runtime deploy path root must be absolute")
    else if text_eq (clean r) (codes "/")
    then some (codes "runtime deploy path root rejects filesystem root")
    else if text_eq path (clean r) || has_prefix path (clean r ++ codes "/")
    then none
    else rest

unfoldable pub validate_deploy_path : Text → List Text → Option Text
unfolding check_roots
validate_deploy_path path roots =
    let p = trim_space path in
    if is_empty p
    then some (codes "deploy path empty")
    else if not (is_abs p)
    then some (codes "deploy path must be absolute")
    else if text_eq (clean p) (codes "/") || text_eq (clean p) (codes ".")
    then some (codes "deploy path rejects root")
    else if contains (clean p) (codes "..")
    then some (codes "deploy path traversal rejected")
    else if is_empty roots
    then some (codes "no runtime deploy path roots configured")
    else check_roots (clean p) roots
