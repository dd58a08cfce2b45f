-- ===== src/GitDeploy/Git/Exists.antt =====
-- `gitRepoExists`: it asks and changes nothing, and its errors have a message.
use releasepanel_agent.Base.{◌≡◌, ◌≢◌, refl, Option, [], ◌∷◌, arith, Bool-cases, inl, inr}
use releasepanel_agent.Text.{Text, codes}
use releasepanel_agent.FilePath.{join}
use releasepanel_agent.System.{
  Os, Sys, Result, ok, err, StatReply, found, missing, failed, stat, pure, ◌>>=◌,
}
use releasepanel_agent.System.Ensures.{Ensures, Post}
use releasepanel_agent.GitDeploy.Git.{is_dir, git_dir_verdict, repo_in, git_repo_exists}

-- Errors of `os.Stat` have a message.
pub record HasStatTexts (os : Os) : Type 0 where
  pub stat_text : (s : Sys) (path e : Text) → os.stat s path ≡ failed e → e ≢ []

abbrev pub IsTold : {A : Type 0} → Result A → Type 0
IsTold (ok a) = Unit
IsTold (err e) = e ≢ []

module _ (os : Os) (texts : HasStatTexts os) where
  verdict-IsTold :
      (s : Sys) (path : Text) (st : StatReply) → os.stat s path ≡ st → IsTold (git_dir_verdict st)
  unfolding git_dir_verdict
  verdict-IsTold s path (missing e) q = tt
  verdict-IsTold s path (failed e) q = texts.stat_text s path e q
  verdict-IsTold s path (found i) q = ground arith

  module _ (P : Sys → Type 0) (R : Option Text → Sys → Type 0) (d : Text) where
    repo_in-Post :
        (s : Sys) (st : StatReply)
        → os.stat s d ≡ st
        → P s
        → Post (λ r t. P t × IsTold r) R (repo_in os d st s).0 (repo_in os d st s).1
    unfolding repo_in stat pure ◌>>=◌
    repo_in-Post s (missing e) q h = (h, tt)
    repo_in-Post s (failed e) q h = (h, texts.stat_text s d e q)
    repo_in-Post s (found i) q h = elim (Bool-cases (is_dir i.kind)) [
      | inl e ↦ rw e (h, verdict-IsTold s (join (d ∷ codes ".git" ∷ [])) _ refl)
      | inr e ↦ rw e (h, ground arith)
    ]

    pub Ensures-git_repo_exists : Ensures P (git_repo_exists os d) (λ r t. P t × IsTold r) R
    unfolding git_repo_exists stat ◌>>=◌
    Ensures-git_repo_exists = record { at = λ s h. repo_in-Post s _ refl h }
