-- ===== src/NginxRuntime/CertPaths.antt =====
-- internal/nginxruntime/certpaths.go
pub mod Readable
use releasepanel_agent.Base.{not, ◌||◌, Option, none, some, List, ◌++◌, if◌then◌else◌, is_empty}
use releasepanel_agent.Text.{Text, codes, trim_space}
use releasepanel_agent.FilePath.{clean}
use releasepanel_agent.System.{Os, Sys, Result, ok, err, StatReply, found, missing, failed}
use releasepanel_agent.GitDeploy.PathValidate.{validate_deploy_path}
use releasepanel_agent.GitDeploy.Git.{is_regular}
use releasepanel_agent.NginxRuntime.WebRoot.{validate_linux_path}

resolved_or : Text → Result Text → Text
resolved_or p (ok r) = clean r
resolved_or p (err e) = p

-- The file behind the symbolic links of a path, or the path where they cannot be followed.
unfoldable pub resolved_cert_path : Os → Sys → Text → Text
unfolding resolved_or
resolved_cert_path os s p = let c = clean p in resolved_or c (os.eval_symlinks s c)

check_open : Option Text → Option Text
check_open none = none
check_open (some e) = some (codes "not readable: " ++ e)

check_stat : StatReply → Option Text → Option Text
unfolding check_open
check_stat (missing e) opened = some (codes "not accessible: " ++ e)
check_stat (failed e) opened = some (codes "not accessible: " ++ e)
check_stat (found i) opened =
    if not (is_regular i.kind) then some (codes "not a regular file") else check_open opened

check_bounds : Option Text → Option Text → Option Text
check_bounds none rest = rest
check_bounds (some e) rest = some (codes "outside tls_certificate_path_roots: " ++ e)

check_linux_path : Option Text → Option Text → Option Text
check_linux_path none rest = rest
check_linux_path (some e) rest = some e

-- It only asks the system, and changes nothing.
unfoldable pub validate_readable_cert_file : Os → Sys → Text → List Text → Option Text
unfolding check_stat check_bounds check_linux_path
validate_readable_cert_file os s p allowed_roots =
    let resolved = resolved_cert_path os s p in
    check_linux_path (validate_linux_path p) (
      check_bounds
        (if is_empty allowed_roots then none else validate_deploy_path resolved allowed_roots)
        (check_stat (os.stat s resolved) (os.open_file s resolved)))

labelled : Text → Option Text → Option Text → Option Text
labelled label (some e) rest = some (label ++ e)
labelled label none rest = rest

unfoldable pub validate_readable_cert_pair : Os → Sys → Text → Text → List Text → Option Text
unfolding labelled
validate_readable_cert_pair os s cert_path key_path allowed_roots =
    let cert = trim_space cert_path in
    let key = trim_space key_path in
    if is_empty cert || is_empty key
    then some (codes "certificate or key path empty")
    else labelled (codes "certificate path: ") (validate_readable_cert_file os s cert allowed_roots)
        (labelled (codes "certificate key path: ")
          (validate_readable_cert_file os s key allowed_roots) none)
