-- ===== src/GitDeploy/Executor.antt =====
-- internal/gitdeploy/executor.go: `Run`. It is written as three phases: what is checked before the
-- first receipt, the clone or fetch, and the reset with its observation.
mod Receipts
mod Commands
mod Phases
pub mod Keys
pub mod Refines
use Prim.Native.Nat.{bit_and}
use releasepanel_agent.Base.{
  Bool, true, false, not, ◌||◌, Option, none, some, List, [], ◌∷◌, ◌++◌, if◌then◌else◌, ◌==◌,
  is_empty,
}
use releasepanel_agent.Text.{Text, codes, text_eq, trim_space, to_lower, Unicode}
use releasepanel_agent.FilePath.{dir}
use releasepanel_agent.Api.{SiteRepositoryDeployIntent}
use releasepanel_agent.System.{
  Os, Sys, M, Reporter, Result, ok, err, StatReply, found, missing, failed, stat, look_path, pure,
  leave, result, ◌>>=◌, ◌>>◌,
}
use releasepanel_agent.GitDeploy.PathValidate.{validate_deploy_path}
use releasepanel_agent.GitDeploy.Ssh.{git_ssh_command}
use releasepanel_agent.GitDeploy.Rows.{
  state_fetching, state_fetched, state_applying, row, failed_row, applied_row, bounded_reason,
  CommitObservation,
}
use releasepanel_agent.GitDeploy.Git.{
  Git, is_dir, is_regular, git_repo_exists, run_git, git_verify_commit, read_commit_observation,
}

pub record Options : Type 0 where
  pub intent : SiteRepositoryDeployIntent
  pub allowed_path_roots : List Text
  pub private_key_path : Text
  pub known_hosts_path : Text
  pub tls_state_echo : Text

-- The texts that `Run` trims before it uses them.
module _ (o : Options) where
  abbrev pub site : Text
  site = o.intent.site_ulid

  unfoldable pub tls_echo : Text
  tls_echo = let tls = trim_space o.tls_state_echo in if is_empty tls then codes "none" else tls

  unfoldable pub deploy_path : Text
  deploy_path = trim_space o.intent.deploy_path

  unfoldable pub branch : Text
  branch = trim_space o.intent.branch

  unfoldable pub git_url : Text
  git_url = trim_space o.intent.git_ssh_url

  unfoldable pub desired_sha : Text
  desired_sha = trim_space o.intent.desired_commit_sha

  abbrev pub clone_args : List Text
  clone_args = codes "clone" ∷ codes "--branch" ∷ branch ∷ codes "--" ∷ git_url ∷ deploy_path ∷ []

  abbrev pub fetch_args : List Text
  fetch_args = codes "fetch" ∷ codes "origin" ∷ []

  abbrev pub reset_args : Text → List Text
  reset_args target = codes "reset" ∷ codes "--hard" ∷ target ∷ []

-- `cur`, the ledger's state of the intent.
unfoldable pub ledger_state : ⦃u : Unicode⦄ → Options → Text
ledger_state o = trim_space (to_lower o.intent.deploy_state)

module _ (os : Os) (reporter : Reporter) (o : Options) where
  -- `return reporter(failedRow(…))`.
  unfoldable pub fail : {A : Type 0} → Text → M A
  fail reason = do r ← failed_row os (site o) (tls_echo o) reason; e ← reporter r; leave e

  -- A receipt on the way: `Run` returns the error of a refused one.
  stop_on : Option Text → M (Unit {0})
  stop_on none = pure tt
  stop_on (some e) = leave (some e)

  unfoldable pub announce : Text → M (Unit {0})
  unfolding stop_on
  announce state = do r ← row os (site o) (tls_echo o) state [] none; e ← reporter r; stop_on e

  unfoldable pub announce_unless : Bool → Text → M (Unit {0})
  announce_unless skip state = if skip then pure tt else announce state

  unfoldable pub require : Bool → Text → M (Unit {0})
  require holds reason = if holds then pure tt else fail reason

  -- A check that returns an error, and the reason that is reported for it.
  unfoldable pub accept : (Text → Text) → Option Text → M (Unit {0})
  accept reason none = pure tt
  accept reason (some e) = fail (reason e)

  unfoldable pub need : {A : Type 0} → (Text → Text) → Result A → M A
  need reason (ok a) = pure a
  need reason (err e) = fail (reason e)

  abbrev bounded : Text → Text → Text
  bounded prefix e = bounded_reason prefix (some e)

  check_key : StatReply → M (Unit {0})
  check_key (missing e) = fail (codes "deploy private key missing or not a regular file")
  check_key (failed e) = fail (codes "deploy private key missing or not a regular file")
  check_key (found i) =
      if not (is_regular i.kind)
      then fail (codes "deploy private key missing or not a regular file")
      else require (bit_and i.perm 0o077 == 0) (
          codes "deploy private key permissions too permissive (expected not group/world readable)")

  -- Everything that is checked before the first receipt.
  unfoldable pub prepare : M Git
  unfolding check_key
  prepare = do
    found_git ← look_path os (codes "git")
    git_path ← need (λ _. codes "git executable not found") found_git
    require (not (is_empty (branch o) || is_empty (deploy_path o) || is_empty (git_url o)))
        (codes "intent missing branch, deploy_path, or git_ssh_url")
    accept (λ e. codes "invalid deploy path: " ++ e)
        (validate_deploy_path (deploy_path o) o.allowed_path_roots)
    require o.intent.repository_deploy_key_configured
        (codes "repository deploy key not configured on site ledger")
    let key_path = trim_space o.private_key_path
    require (not (is_empty key_path)) (codes "deploy private key path empty")
    key ← stat os key_path
    check_key key
    ssh ← need (λ e. codes "ssh command: " ++ e) (git_ssh_command key_path o.known_hosts_path)
    pure (record { path = git_path; env = os.environ ++ (codes "GIT_SSH_COMMAND=" ++ ssh) ∷ [] })

  check_parent : StatReply → M (Unit {0})
  check_parent (missing e) = fail (codes "deploy path parent directory missing")
  check_parent (failed e) = fail (codes "deploy path parent directory missing")
  check_parent (found i) = require (is_dir i.kind) (codes "deploy path parent directory missing")

  -- The place of a clone must be free.
  check_free : StatReply → M (Unit {0})
  check_free (found i) = fail (codes "deploy path exists but is not a git repository")
  check_free (failed e) = fail (codes "deploy path stat failed")
  check_free (missing e) = pure tt

  -- `if _, err := runGit(…); err != nil { return reporter(failedRow(…)) }`.
  unfoldable pub git_or_fail : Git → Text → List Text → Text → M Text
  git_or_fail git work_dir args prefix = do
    out ← run_git os git work_dir args
    need (bounded prefix) out

  clone : Git → M (Unit {0})
  unfolding check_free
  clone git = do
    st ← stat os (deploy_path o)
    check_free st
    git_or_fail git [] (clone_args o) (codes "site deploy clone failed")
    pure tt

  fetch : Git → M (Unit {0})
  fetch git = do
    git_or_fail git (deploy_path o) (fetch_args o) (codes "site deploy fetch failed")
    pure tt

  download : Git → Bool → M (Unit {0})
  unfolding clone fetch
  download git true = fetch git
  download git false = clone git

  unfoldable pub fetch_phase : Git → M (Unit {0})
  unfolding check_parent download
  fetch_phase git = do
    let parent = dir (deploy_path o)
    accept (λ e. codes "invalid deploy path parent: " ++ e)
        (validate_deploy_path parent o.allowed_path_roots)
    st ← stat os parent
    check_parent st
    there ← git_repo_exists os (deploy_path o)
    repo_exists ← need (λ e. e) there
    download git repo_exists

  -- The commit to reset to: the desired one, if Central names one and git knows it.
  pub choose_target : Git → M Text
  choose_target git = if is_empty (desired_sha o) then pure (codes "origin/" ++ branch o) else (do
    seen ← git_verify_commit os git (deploy_path o) (desired_sha o)
    need (bounded (codes "desired commit not found after fetch")) seen
    pure (desired_sha o))

  unfoldable pub apply_phase : Git → M CommitObservation
  unfolding choose_target
  apply_phase git = do
    target ← choose_target git
    git_or_fail git (deploy_path o) (reset_args o target) (codes "site deploy reset failed")
    commit ← read_commit_observation os git (deploy_path o)
    need (bounded (codes "read observed commit failed")) commit

-- The receipts that the ledger is already past.
module _ ⦃u : Unicode⦄ (o : Options) where
  unfoldable pub skip_fetching : Bool
  skip_fetching = text_eq (ledger_state o) state_fetched || text_eq (ledger_state o) state_applying

  unfoldable pub skip_fetched : Bool
  skip_fetched = text_eq (ledger_state o) state_applying

module _ ⦃u : Unicode⦄ (os : Os) (reporter : Reporter) (o : Options) where
  unfoldable pub steps : M (Unit {0})
  steps = do
    git ← prepare os reporter o
    announce_unless os reporter o (skip_fetching o) state_fetching
    fetch_phase os reporter o git
    announce_unless os reporter o (skip_fetched o) state_fetched
    announce os reporter o state_applying
    commit ← apply_phase os reporter o git
    r ← applied_row os (site o) (tls_echo o) commit
    e ← reporter r
    leave e

-- `Run`; a nil reporter is refused.
unfoldable pub run : ⦃u : Unicode⦄ → Os → Option Reporter → Options → Sys → Option Text × Sys
unfolding steps
run os none o s = (some (codes "reporter nil"), s)
run os (some reporter) o s = let (r, t) = steps os reporter o s in (result r, t)
