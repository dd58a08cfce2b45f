-- ===== src/GitDeploy/Executor/Commands.antt =====
-- The git commands of `Run`, as triples over the protocol.
use releasepanel_agent.Base.{◌≡◌, ◌≢◌, refl, Option, none, some, List, [], ◌∷◌, arith}
use releasepanel_agent.Text.{Text, Unicode, truncate_runes-ne-nil}
use releasepanel_agent.System.Trace
use releasepanel_agent.System.{
  Os, Sys, Event, executed, Result, ok, err, ExecReply, exec, now, pure, ◌>>=◌,
}
use releasepanel_agent.System.Ensures.{Ensures, Ensures-pure, Ensures-bind}
use releasepanel_agent.GitDeploy.Rows.{bounded_reason, CommitObservation}
use releasepanel_agent.GitDeploy.Git.{
  Git, git_outcome, run_git, read_commit_observation, read_head, read_log, observe, log_fields,
  commit_at, rev_parse_args, log_args,
}
use releasepanel_agent.GitDeploy.Executor.{Options, deploy_path}
use releasepanel_agent.GitDeploy.Executor.Receipts.{At, When}
use releasepanel_agent.GitDeploy.Protocol.{
  Run, Stage, broken, reset_to, observed, at_head, IsOpen, Work, after, succeeded, Step,
}

pub bounded_reason-ne-nil :
    (prefix : Text) (e : Text) → prefix ≢ [] → bounded_reason prefix (some e) ≢ []
unfolding bounded_reason
bounded_reason-ne-nil [] e ne = absurd (ne refl)
bounded_reason-ne-nil (c ∷ prefix) e ne = truncate_runes-ne-nil _ 19000 (ground arith)

-- An observed commit, and the output that it was read from.
pub record IsCommit (out : Text) (c : CommitObservation) : Type 0 where
  pub fields : Text × Text × Text
  pub logged : log_fields out ≡ some fields
  pub shown : c ≡ commit_at c.observed_at fields

module _ ⦃u : Unicode⦄ (o : Options) (base : List Event) where
  -- The run has read a commit, or has failed at some stage that is not the end.
  abbrev pub HasRead : Result CommitObservation → Sys → Type 0
  HasRead (ok c) s = (out : Text) × At o base (observed out) s × IsCommit out c
  HasRead (err e) s = (σ : Stage) × IsOpen σ × At o base σ s

module _ ⦃u : Unicode⦄ (os : Os) (o : Options) (base : List Event) where
  ran :
      (σ : Stage) (e : Option Text) (d : Text) (args : List Text) (git : Git) (r : ExecReply)
      (log : List Event)
      → Work o σ d args
      → r.error ≡ e
      → Run o base σ log
      → (t : Sys)
      → t.log
        ≡ executed (record { path = git.path; args = args; work_dir = d; env = git.env }) r ∷ log
      → When o base broken (λ out. At o base (after o σ out)) (git_outcome e r) t
  unfolding git_outcome
  ran σ none d args git r log w q h t p = rw p (Trace.step h (succeeded w q))
  ran σ (some e) d args git r log w q h t p = rw p (Trace.step h (Step.failed w q))

  pub Ensures-run_git :
      {R : Option Text → Sys → Type 0} (git : Git) (σ : Stage) (d : Text) (args : List Text)
      → Work o σ d args
      → Ensures
          (At o base σ)
          (run_git os git d args)
          (λ r. When o base broken (λ out. At o base (after o σ out)) r)
          R
  unfolding run_git exec ◌>>=◌ pure
  Ensures-run_git git σ d args w = record { at = λ s h. ran σ _ d args git _ s.log w refl h _ refl }

  -- What `readCommitObservation` yields: the fields of the last output, once both commands ran.
  Ensures-observe :
      {R : Option Text → Sys → Type 0} (out : Text) (f : Option (Text × Text × Text))
      → log_fields out ≡ f
      → Ensures (At o base (observed out)) (observe os f) (HasRead o base) R
  unfolding observe commit_at now ◌>>=◌ pure
  Ensures-observe out none q = record { at = λ s h. (observed out, tt, h) }
  Ensures-observe out (some f) q = record {
    at = λ s h. (out, h, record { fields = f; logged = q; shown = refl });
  }

  Ensures-read_log :
      {R : Option Text → Sys → Type 0} (raw : Result Text)
      → Ensures
          (When o base broken (λ out. At o base (observed out)) raw)
          (read_log os raw)
          (HasRead o base)
          R
  unfolding read_log
  Ensures-read_log (ok out) = Ensures-observe out _ refl
  Ensures-read_log (err e) = Ensures-pure (err e) (λ s h. (broken, tt, h))

  Ensures-read_head :
      {R : Option Text → Sys → Type 0} (git : Git) (head : Result Text)
      → Ensures
          (When o base broken (λ out. At o base at_head) head)
          (read_head os git (deploy_path o) head)
          (HasRead o base)
          R
  unfolding read_head
  Ensures-read_head git (ok sha) =
      Ensures-bind (Ensures-run_git git at_head (deploy_path o) log_args (refl, refl))
        Ensures-read_log
  Ensures-read_head git (err e) = Ensures-pure (err e) (λ s h. (broken, tt, h))

  pub Ensures-read_commit_observation :
      {R : Option Text → Sys → Type 0} (git : Git) (target : Text)
      → Ensures
          (At o base (reset_to target))
          (read_commit_observation os git (deploy_path o))
          (HasRead o base)
          R
  unfolding read_commit_observation
  Ensures-read_commit_observation git target =
      Ensures-bind
        (Ensures-run_git git (reset_to target) (deploy_path o) rev_parse_args (refl, refl))
        (Ensures-read_head git)
