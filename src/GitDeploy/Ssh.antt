-- ===== src/GitDeploy/Ssh.antt =====
-- internal/gitdeploy/ssh.go
pub mod Shell
use releasepanel_agent.Base.{Bool, not, [], ◌∷◌, ◌++◌, if◌then◌else◌, ◌==◌, is_empty}
use releasepanel_agent.Text.{Text, codes, trim_space}
use releasepanel_agent.FilePath.{is_abs, clean}
use releasepanel_agent.System.{Result, ok, err}

-- `strings.ReplaceAll` of a single quote by its quoted form.
replace_quotes : Text → Text
replace_quotes [] = []
replace_quotes (c ∷ s) =
    let rest = replace_quotes s in if c == b'\'' then codes "'\"'\"'" ++ rest else c ∷ rest

shell_single_quote : Text → Text
unfolding replace_quotes
shell_single_quote s = codes "'" ++ (replace_quotes s ++ codes "'")

-- The options on host keys behind the identity.
host_key_options : Text → Result Text
unfolding shell_single_quote
host_key_options hosts =
    if is_empty hosts
    then ok (codes " -o StrictHostKeyChecking=accept-new")
    else if not (is_abs hosts)
    then err (codes "known_hosts path must be absolute")
    else ok (
        codes " -o StrictHostKeyChecking=yes -o UserKnownHostsFile="
        ++ shell_single_quote (clean hosts))

with_identity : Text → Result Text → Result Text
unfolding shell_single_quote
with_identity key (err e) = err e
with_identity key (ok options) =
    ok (codes "ssh -i " ++ (shell_single_quote key ++ (codes " -o IdentitiesOnly=yes" ++ options)))

unfoldable pub git_ssh_command : Text → Text → Result Text
unfolding host_key_options with_identity
git_ssh_command private_key_path known_hosts_file =
    let key = trim_space private_key_path in
    if is_empty key
    then err (codes "empty deploy key path")
    else if not (is_abs key)
    then err (codes "deploy key path must be absolute")
    else with_identity (clean key) (host_key_options (trim_space known_hosts_file))
