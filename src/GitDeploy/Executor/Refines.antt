-- ===== src/GitDeploy/Executor/Refines.antt =====
-- `Run` refines the protocol: each phase as a triple, and the whole.
use releasepanel_agent.Base.{◌≡◌, ◌≢◌, ◌⊎◌, refl, ap, true, false, some, List, arith}
use releasepanel_agent.Text.{Text, codes, text_eq_iff, Unicode}
use releasepanel_agent.System.Trace
use releasepanel_agent.System.{
  Os, Sys, M, Event, Result, ok, err, report, now, pure, leave, result, Exit, stop, go, ◌>>=◌,
}
use releasepanel_agent.System.Ensures.{Ensures, Ensures-pure, Ensures-bind, Ensures-fact, Post}
use releasepanel_agent.GitDeploy.Rows.{
  state_fetched, state_applying, applied_row, CommitObservation,
}
use releasepanel_agent.GitDeploy.Git.{Git, commit_at}
use releasepanel_agent.GitDeploy.Git.Exists.{HasStatTexts}
use releasepanel_agent.GitDeploy.Executor.{
  Options, site, tls_echo, deploy_path, ledger_state, need, apply_phase, skip_fetching,
  skip_fetched, steps, run, bounded_reason,
}
use releasepanel_agent.GitDeploy.Executor.Phases.{
  Ensures-prepare, Ensures-git_or_fail, Ensures-fetch_phase, Ensures-choose_target,
}
use releasepanel_agent.GitDeploy.Executor.Receipts.{
  At, End, Ensures-fail, Ensures-announce, Ensures-announce_unless,
}
use releasepanel_agent.GitDeploy.Executor.Commands.{
  bounded_reason-ne-nil, IsCommit, HasRead, Ensures-read_commit_observation,
}
use releasepanel_agent.GitDeploy.Protocol.{
  Run, starting, downloaded, fetched, applying, targeted, observed, ended, Silent, applied,
}

module _ ⦃u : Unicode⦄ (os : Os) (o : Options) (base : List Event) where
  -- The run has observed a commit.
  HasCommit : CommitObservation → Sys → Type 0
  HasCommit c s = (out : Text) × At o base (observed out) s × IsCommit out c

  need_commit :
      (r : Result CommitObservation)
      → Ensures
          (HasRead o base r)
          (need os
            (report os)
            o
            (λ e. bounded_reason (codes "read observed commit failed") (some e))
            r)
          HasCommit
          (End o base)
  unfolding need HasCommit
  need_commit (ok c) = Ensures-pure c λ s h. h
  need_commit (err e) = record {
    at = λ s h.
        let (σ, may, t) = h in
        (Ensures-fail os o base {Q = HasCommit} σ _ may
            (bounded_reason-ne-nil _ e (ground arith))).at
          s t;
  }

  Ensures-apply_phase :
      (git : Git)
      → Ensures (At o base applying) (apply_phase os (report os) o git) HasCommit (End o base)
  unfolding apply_phase
  Ensures-apply_phase git = Ensures-bind (Ensures-choose_target os o base git) λ target.
      Ensures-bind
        (Ensures-git_or_fail os o base git (targeted target) (deploy_path o) _ _ (refl, refl)
          (ground arith))
        λ _. Ensures-bind (Ensures-read_commit_observation os o base git target) λ c. need_commit c

  -- The last receipt.
  conclude : CommitObservation → M (Unit {0})
  conclude c = do r ← applied_row os (site o) (tls_echo o) c; e ← report os r; leave e

  Ensures-conclude :
      (c : CommitObservation) → Ensures (HasCommit c) (conclude c) (λ _ _. ⊥) (End o base)
  unfolding conclude HasCommit applied_row report now ◌>>=◌ pure leave commit_at
  Ensures-conclude c = record {
    at = λ s h.
        let (out, t, seen) = h in
        Trace.step t (
          applied (record {
            is_row = record { of_site = refl; echoes_tls = refl };
            is_applied = refl;
            fields = seen.fields;
            logged = seen.logged;
            sha_observed = ap (λ (x : CommitObservation). x.sha) seen.shown;
            message_observed = ap (λ (x : CommitObservation). x.subject) seen.shown;
            author_observed = ap (λ (x : CommitObservation). x.author) seen.shown;
          }));
  }

  past_fetching :
      skip_fetching o ≡ true → (ledger_state o ≡ state_fetched) ⊎ (ledger_state o ≡ state_applying)
  unfolding skip_fetching
  past_fetching e = ground (
    arith,
    text_eq_iff (ledger_state o) state_fetched,
    text_eq_iff (ledger_state o) state_applying,
  )

  past_fetched : skip_fetched o ≡ true → ledger_state o ≡ state_applying
  unfolding skip_fetched
  past_fetched e = (text_eq_iff (ledger_state o) state_applying).0 e

  due_fetching :
      skip_fetching o ≡ false → (ledger_state o ≢ state_fetched) × (ledger_state o ≢ state_applying)
  unfolding skip_fetching
  due_fetching e = ground (
    arith,
    text_eq_iff (ledger_state o) state_fetched,
    text_eq_iff (ledger_state o) state_applying,
  )

  due_fetched : skip_fetched o ≡ false → ledger_state o ≢ state_applying
  unfolding skip_fetched
  due_fetched e = ground (arith, text_eq_iff (ledger_state o) state_applying)

  Ensures-steps :
      HasStatTexts os
      → Ensures (At o base starting) (steps os (report os) o) (λ _ _. ⊥) (End o base)
  unfolding steps
  Ensures-steps texts = Ensures-bind (Ensures-prepare os o base) λ git. Ensures-fact λ checked.
      Ensures-bind
        (Ensures-announce_unless os o base starting _ _
          (λ e. (refl, checked, (due_fetching e).0, (due_fetching e).1))
          (λ e. Silent.skip_fetching (past_fetching e) checked))
        λ _. Ensures-bind (Ensures-fetch_phase os o base texts git) λ _.
          Ensures-bind
            (Ensures-announce_unless os o base downloaded _ _ (λ e. (refl, due_fetched e))
              (λ e. Silent.skip_fetched (past_fetched e)))
            λ _.
              Ensures-bind (Ensures-announce os o base fetched _ refl) λ _.
                Ensures-bind (Ensures-apply_phase git) λ c. unfold conclude in Ensures-conclude c

ended_result :
    ⦃u : Unicode⦄ (o : Options) (base : List Event) (r : Exit (Unit {0})) (t : Sys)
    → Post (λ _ _. ⊥) (End o base) r t
    → Run o base (ended (result r)) t.log
unfolding result
ended_result o base (stop e) t h = h
ended_result o base (go a) t h = absurd h

-- Whatever the system answers, the receipts and commands of a run are legal for the protocol, and
-- the run returns what the answer to its last receipt says. The hypothesis is that the errors of
-- `os.Stat` have a message.
pub run-refines-protocol :
    ⦃u : Unicode⦄ (os : Os) (o : Options) (s : Sys)
    → HasStatTexts os
    → Run o s.log (ended (run os (some (report os)) o s).0) (run os (some (report os)) o s).1.log
unfolding run
run-refines-protocol os o s texts =
    ended_result o s.log _ _ ((Ensures-steps os o s.log texts).at s (Trace.begin refl))
