-- ===== src/GitDeploy/Tests.antt =====
-- A deployment to a new site on a small system, and the theorems there.
use releasepanel_agent.Base.{
  ◌≡◌, refl, arith, true, none, some, List, [], ◌∷◌, ◌++◌, if◌then◌else◌, All, inl, inr,
}
use releasepanel_agent.Text.{
  Text, codes, text_eq, Unicode, contains, trim_space, trim_left, trim_right, is_space, has_prefix,
  truncate_runes, lower_rune, to_lower,
}
use releasepanel_agent.FilePath.{
  is_abs, clean, names, resolve, split, visit, join_names, back, dir, join,
}
use releasepanel_agent.Api.{SiteRepositoryDeployIntent}
use releasepanel_agent.System.{
  Os, Sys, Event, ok, regular, directory, StatReply, found, missing, ExecReply, report, result,
  ◌>>=◌, continue, look_path, pure, leave, exec, now, stat,
}
use releasepanel_agent.GitDeploy.PathValidate.{validate_deploy_path}
use releasepanel_agent.GitDeploy.PathValidate.Allowed.{
  IsAllowed, IsProper, validate_deploy_path-IsAllowed, IsAllowed-validate_deploy_path,
}
use releasepanel_agent.GitDeploy.Ssh.{git_ssh_command}
use releasepanel_agent.GitDeploy.Ssh.Shell.{shell_words, ssh_args, git_ssh_command-words}
use releasepanel_agent.GitDeploy.Git.Exists.{HasStatTexts}
use releasepanel_agent.GitDeploy.Executor.{
  Options, run, prepare, need, require, branch, deploy_path, git_url, accept, announce,
  announce_unless, apply_phase, fail, fetch_phase, git_or_fail, ledger_state, skip_fetched,
  skip_fetching, steps, tls_echo, desired_sha,
}
use releasepanel_agent.GitDeploy.Git.{
  commit_at, git_outcome, git_repo_exists, is_dir, is_regular, log_fields, observe,
  read_commit_observation, read_head, read_log, run_git, git_verify_commit,
}
use releasepanel_agent.GitDeploy.Rows.{applied_row, bounded_reason, failed_row, row}
use releasepanel_agent.GitDeploy.Executor.Refines.{run-refines-protocol}
use releasepanel_agent.GitDeploy.Protocol.{Run, ended}
use releasepanel_agent.GitDeploy.Protocol.Bounds.{IsKeyed, run-IsBounded}
use releasepanel_agent.GitDeploy.Protocol.Receipts.{
  rank, ranks, ledger_floor, IsRising, run-IsRising,
}
use releasepanel_agent.GitDeploy.Protocol.Justified.{IsJustified, run-IsJustified}
use releasepanel_agent.GitDeploy.Protocol.Conclusion.{Concludes, run-Concludes}

-- Letters outside ASCII keep their case here, and `%q` is written without escapes.
instance ascii : Unicode
ascii = record { lower = λ c. c; quote = λ s. codes "\"" ++ (s ++ codes "\"") }

abbrev intent : SiteRepositoryDeployIntent
intent = record {
  site_ulid = codes "01HX";
  deploy_path = codes " /srv/sites/a ";
  git_ssh_url = codes "git@host:a.git";
  branch = codes "main";
  desired_commit_sha = codes "c0ffee";
  deploy_state = codes "requested";
  repository_deploy_key_configured = true;
}

abbrev options : Options
options = record {
  intent = intent;
  allowed_path_roots = codes "/srv/sites" ∷ codes "/srv" ∷ [];
  private_key_path = codes "/etc/rp/key";
  known_hosts_path = codes "";
  tls_state_echo = codes "";
}

-- The parent directory and the key are there, the site is not.
abbrev stat_new : Text → StatReply
stat_new p =
    if text_eq p (codes "/srv/sites")
    then found (record { kind = directory; perm = 0o755 })
    else if text_eq p (codes "/etc/rp/key")
    then found (record { kind = regular; perm = 0o600 })
    else missing (codes "no such file or directory")

abbrev git_reply : List Text → ExecReply
git_reply [] = record { stdout = []; stderr = []; error = none }
git_reply (word ∷ words) =
    if text_eq word (codes "log")
    then record {
      stdout = codes "c0ffee" ++ 0 ∷ (codes "First" ++ 0 ∷ codes "A <a@b>\n");
      stderr = [];
      error = none;
    }
    else record { stdout = codes "c0ffee\n"; stderr = []; error = none }

abbrev os : Os
os = record {
  look_path = λ s name. ok (codes "/usr/bin/git");
  exec = λ s c. (git_reply c.args, s.disk);
  stat = λ s p. stat_new p;
  eval_symlinks = λ s p. ok p;
  open_file = λ s p. none;
  post = λ s row. none;
  now = λ s. codes "2026-01-01T00:00:00Z";
  environ = [];
  fault = λ s c. none;
  temp_name = λ s dir pattern. dir ++ codes "/tmp";
  partial = λ s. 0;
}

abbrev start : Sys
start = record { disk = λ p. none; log = []; ticks = 0 }

texts : HasStatTexts os
unfolding text_eq
texts = record { stat_text = λ s path e h. ground arith }

-- Such a run returns nil, after its four receipts and five git commands.
run_new_site : (run os (some (report os)) options start).0 ≡ none
unfolding ascii run report result ◌>>=◌ continue prepare look_path need pure require branch
    trim_space trim_right trim_left is_space is_abs has_prefix text_eq clean join_names names
    resolve split visit contains deploy_path git_url accept validate_deploy_path back dir join
    announce announce_unless apply_phase fail fetch_phase git_or_fail ledger_state skip_fetched
    skip_fetching steps tls_echo desired_sha commit_at git_outcome git_repo_exists is_dir is_regular
    log_fields observe read_commit_observation read_head read_log run_git git_verify_commit
    applied_row bounded_reason failed_row row git_ssh_command leave exec now stat truncate_runes
    lower_rune to_lower
run_new_site = refl

-- They are fetching, fetched, applying and applied.
run_new_site_receipts : ranks (run os (some (report os)) options start).1.log ≡ 4 ∷ 3 ∷ 2 ∷ 1 ∷ []
unfolding rank ascii run report result ◌>>=◌ continue prepare look_path need pure require branch
    trim_space trim_right trim_left is_space is_abs has_prefix text_eq clean join_names names
    resolve split visit contains deploy_path git_url accept validate_deploy_path back dir join
    announce announce_unless apply_phase fail fetch_phase git_or_fail ledger_state skip_fetched
    skip_fetching steps tls_echo desired_sha commit_at git_outcome git_repo_exists is_dir is_regular
    log_fields observe read_commit_observation read_head read_log run_git git_verify_commit
    applied_row bounded_reason failed_row row git_ssh_command leave exec now stat truncate_runes
    lower_rune to_lower
run_new_site_receipts = refl

abbrev new_site : Text
new_site = codes "/srv/sites/./a/"

abbrev site_roots : List Text
site_roots = codes " " ∷ codes "/srv/sites" ∷ []

validate_deploy_path-IsAllowed_example : IsAllowed new_site site_roots
unfolding validate_deploy_path trim_space trim_right trim_left is_space is_abs has_prefix text_eq
    clean join_names names resolve split visit contains
validate_deploy_path-IsAllowed_example = validate_deploy_path-IsAllowed new_site site_roots refl

usable_root : IsProper (trim_space (codes "/srv/sites"))
unfolding trim_space trim_right trim_left is_space is_abs has_prefix text_eq names resolve split
    visit
usable_root = record { absolute = refl; below_slash = ground arith }

IsAllowed-validate_deploy_path_example : validate_deploy_path new_site site_roots ≡ none
unfolding trim_space trim_right trim_left is_space
IsAllowed-validate_deploy_path_example =
    IsAllowed-validate_deploy_path new_site site_roots (inl refl, (inr usable_root, tt))
      validate_deploy_path-IsAllowed_example

git_ssh_command-words_example :
    shell_words (
      codes
        "ssh -i '/etc/it'\"'\"'s a key' -o IdentitiesOnly=yes -o StrictHostKeyChecking=accept-new")
    ≡ some (ssh_args (codes " /etc/it's a key") (codes ""))
unfolding git_ssh_command trim_space trim_right trim_left is_space is_abs has_prefix text_eq clean
    join_names names resolve split visit
git_ssh_command-words_example = git_ssh_command-words (codes " /etc/it's a key") (codes "") refl

run-refines-protocol_example :
    Run options []
      (ended (run os (some (report os)) options start).0)
      (run os (some (report os)) options start).1.log
run-refines-protocol_example = run-refines-protocol os options start texts

run-IsBounded_example :
    (new : List Event) × ((run os (some (report os)) options start).1.log ≡ new ++ [])
    × All (IsKeyed options os start) new
run-IsBounded_example = run-IsBounded options os start texts

run-IsRising_example :
    (new : List Event) × ((run os (some (report os)) options start).1.log ≡ new ++ [])
    × IsRising (ledger_floor options) (ranks new)
run-IsRising_example = run-IsRising options os start texts

run-IsJustified_example :
    (new : List Event) × ((run os (some (report os)) options start).1.log ≡ new ++ [])
    × IsJustified options new
run-IsJustified_example = run-IsJustified options os start texts

run-Concludes_example :
    (new : List Event) × ((run os (some (report os)) options start).1.log ≡ new ++ [])
    × Concludes options (run os (some (report os)) options start).0 new
run-Concludes_example = run-Concludes options os start texts
