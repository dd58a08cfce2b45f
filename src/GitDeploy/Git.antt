-- ===== src/GitDeploy/Git.antt =====
-- internal/gitdeploy/executor.go: the git subprocesses and what is read from their output.
pub mod Exists
use releasepanel_agent.Base.{
  ℕ, Bool, true, false, not, Option, none, some, List, [], ◌∷◌, ◌++◌, if◌then◌else◌, ◌==◌, is_empty,
}
use releasepanel_agent.Text.{Text, codes, trim_space, truncate_runes}
use releasepanel_agent.FilePath.{join}
use releasepanel_agent.System.{
  Os, M, Result, ok, err, Kind, regular, directory, symlink, socket, other, StatReply, found,
  missing, failed, ExecReply, now, exec, stat, pure, ◌>>=◌,
}
use releasepanel_agent.GitDeploy.Rows.{CommitObservation}

unfoldable pub is_dir : Kind → Bool
is_dir directory = true
is_dir regular = false
is_dir symlink = false
is_dir socket = false
is_dir other = false

unfoldable pub is_regular : Kind → Bool
is_regular regular = true
is_regular directory = false
is_regular symlink = false
is_regular socket = false
is_regular other = false

-- What `.git` inside the directory says.
git_dir_verdict : StatReply → Result Bool
unfolding is_dir is_regular
git_dir_verdict (missing e) = ok false
git_dir_verdict (failed e) = err e
git_dir_verdict (found i) =
    if is_dir i.kind
    then ok true
    else if is_regular i.kind
    then ok true
    else err (codes "deploy path .git invalid")

-- The stderr of a failed git, or else its error.
git_message : Text → ExecReply → Text
git_message e r = let msg = trim_space r.stderr in if is_empty msg then e else msg

unfoldable pub git_outcome : Option Text → ExecReply → Result Text
unfolding git_message
git_outcome none r = ok (trim_space r.stdout)
git_outcome (some e) r = err (e ++ (codes ": " ++ truncate_runes (git_message e r) 4000))

split_on : ℕ → Text → List Text
split_on sep [] = [] ∷ []
split_on sep (c ∷ s) = elim (split_on sep s) [
  | [] ↦ [] ∷ []
  | p ∷ ps ↦ if c == sep then [] ∷ p ∷ ps else (c ∷ p) ∷ ps
]

-- `strings.TrimSuffix` of one character.
trim_suffix : ℕ → Text → Text
trim_suffix c [] = []
trim_suffix c (x ∷ []) = if x == c then [] else x ∷ []
trim_suffix c (x ∷ y ∷ s) = x ∷ trim_suffix c (y ∷ s)

-- The three fields of `git log`; a fourth one may only be empty.
three_parts : List Text → Option (Text × Text × Text)
three_parts (a ∷ b ∷ c ∷ []) = some (a, b, c)
three_parts (a ∷ b ∷ c ∷ d ∷ []) = if is_empty d then some (a, b, c) else none
three_parts _ = none

-- The fields of `git log` in its output.
unfoldable pub log_fields : Text → Option (Text × Text × Text)
unfolding split_on trim_suffix three_parts
log_fields raw = three_parts (split_on 0 (trim_suffix 0 (trim_space raw)))

unfoldable pub commit_at : Text → Text × Text × Text → CommitObservation
commit_at at (sha, subject, author) = record {
  sha = trim_space sha;
  subject = truncate_runes (trim_space subject) 9000;
  author = truncate_runes (trim_space author) 500;
  observed_at = at;
}

module _ (os : Os) where
  repo_in : Text → StatReply → M (Result Bool)
  unfolding git_dir_verdict
  repo_in d (missing e) = pure (ok false)
  repo_in d (failed e) = pure (err e)
  repo_in d (found i) =
      if not (is_dir i.kind)
      then pure (err (codes "deploy path is not a directory"))
      else (do g ← stat os (join (d ∷ codes ".git" ∷ [])); pure (git_dir_verdict g))

  unfoldable pub git_repo_exists : Text → M (Result Bool)
  unfolding repo_in
  git_repo_exists d = do st ← stat os d; repo_in d st

-- How git is called: its path and its environment.
pub record Git : Type 0 where
  pub path : Text
  pub env : List Text

abbrev pub rev_parse_args : List Text
rev_parse_args = codes "rev-parse" ∷ codes "HEAD" ∷ []

abbrev pub log_args : List Text
log_args = codes "log" ∷ codes "-1" ∷ codes "-z" ∷ codes "--format=%H%x00%s%x00%an <%ae>" ∷ []

module _ (os : Os) where
  unfoldable pub observe : Option (Text × Text × Text) → M (Result CommitObservation)
  observe none = pure (err (codes "unexpected git log format"))
  observe (some fields) = do at ← now os; pure (ok (commit_at at fields))

  unfoldable pub read_log : Result Text → M (Result CommitObservation)
  unfolding observe
  read_log (err e) = pure (err e)
  read_log (ok raw) = observe (log_fields raw)

module _ (os : Os) (git : Git) where
  unfoldable pub run_git : Text → List Text → M (Result Text)
  unfolding git_outcome
  run_git work_dir args = do
    r ← exec os (record { path = git.path; args = args; work_dir = work_dir; env = git.env })
    pure (git_outcome r.error r)

  unfoldable pub git_verify_commit : Text → Text → M (Result Text)
  unfolding run_git
  git_verify_commit work_dir sha =
      run_git work_dir (codes "cat-file" ∷ codes "-e" ∷ (sha ++ codes "^{commit}") ∷ [])

  unfoldable pub read_head : Text → Result Text → M (Result CommitObservation)
  unfolding read_log run_git
  read_head work_dir (err e) = pure (err e)
  read_head work_dir (ok sha) = do raw ← run_git work_dir log_args; read_log os raw

  unfoldable pub read_commit_observation : Text → M (Result CommitObservation)
  unfolding read_head run_git
  read_commit_observation work_dir = do
    head ← run_git work_dir rev_parse_args
    read_head work_dir head
