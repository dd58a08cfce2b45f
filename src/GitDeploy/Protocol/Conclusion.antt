-- ===== src/GitDeploy/Protocol/Conclusion.antt =====
-- What a run returns is the answer to its last receipt.
use releasepanel_agent.Base.{◌≡◌, ◌≢◌, ◌⊎◌, inl, inr, refl, Option, none, some, List, [], ◌∷◌, ◌++◌}
use releasepanel_agent.Text.{Text, Unicode}
use releasepanel_agent.System.Trace
use releasepanel_agent.System.{Event, reported, executed, touched, Os, Sys, report}
use releasepanel_agent.GitDeploy.Rows.{state_applied, state_failed}
use releasepanel_agent.GitDeploy.Git.Exists.{HasStatTexts}
use releasepanel_agent.GitDeploy.Executor.{Options, run}
use releasepanel_agent.GitDeploy.Executor.Refines.{run-refines-protocol}
use releasepanel_agent.GitDeploy.Protocol.{
  Stage, starting, fetching, downloaded, fetched, applying, targeted, reset_to, at_head, ended,
  Work, after, Due, promoted, Step, accepted, refused, gave_up, succeeded, failed, applied, Silent,
  skip_fetching, skip_fetched, newest,
}

module _ ⦃u : Unicode⦄ (o : Options) where
  -- What a run that returned `e` has sent last.
  abbrev pub Concludes : Option Text → List Event → Type 0
  Concludes e [] = ⊥
  Concludes e (executed c r ∷ l) = ⊥
  Concludes e (touched c x ∷ l) = ⊥
  Concludes e (reported row x ∷ l) =
      (x ≡ e)
      × ((e ≢ none)
          ⊎ (row.repository_deploy_state ≡ state_applied)
          ⊎ (row.repository_deploy_state ≡ state_failed))

  abbrev Closed : Stage → List Event → Type 0
  Closed (ended e) new = Concludes e new
  Closed _ new = Unit

  step-Closed :
      (σ τ : Stage) (e : Event) (new : List Event)
      → Step o σ e τ
      → Closed σ new
      → Closed τ (e ∷ new)
  step-Closed σ τ e new (accepted {row} r due) h = due_open σ _ _ due
    where
      due_open :
          (σ' : Stage) (state : Text) (l : List Event) → Due o σ' state → Closed (promoted o σ') l
      due_open starting state l due = tt
      due_open downloaded state l due = tt
      due_open fetched state l due = tt
      due_open _ state l due = absurd due
  step-Closed σ τ e new (refused {row} r due) h = (refl, inl (λ n. cc))
  step-Closed σ τ e new (gave_up {row} may f) h = (refl, inr (inr f.is_failed))
  step-Closed σ τ e new (succeeded {c} {r} w q) h = work_open σ _ _ _ _ w
    where
      work_open :
          (σ' : Stage) (d : Text) (args : List Text) (out : Text) (l : List Event)
          → Work o σ' d args
          → Closed (after o σ' out) l
      work_open fetching d args out l w = tt
      work_open applying d args out l w = tt
      work_open (targeted t) d args out l w = tt
      work_open (reset_to t) d args out l w = tt
      work_open at_head d args out l w = tt
      work_open _ d args out l w = absurd w
  step-Closed σ τ e new (failed {c} {r} w q) h = tt
  step-Closed σ τ e new (applied {row} a) h = (refl, inr (inl a.is_applied))

  silent-Closed : (σ τ : Stage) (new : List Event) → Silent o σ τ → Closed σ new → Closed τ new
  silent-Closed σ τ new (skip_fetching past checked) h = tt
  silent-Closed σ τ new (skip_fetched past) h = tt
  silent-Closed σ τ new (newest e t) h = tt

  -- A run with a reporter sends at least one receipt and returns the answer to the last one: the
  -- error with which it was refused, or nil, and then the receipt said applied or failed. The
  -- hypothesis is that the errors of `os.Stat` have a message.
  pub run-Concludes :
      (os : Os) (s : Sys)
      → HasStatTexts os
      → (new : List Event) × ((run os (some (report os)) o s).1.log ≡ new ++ s.log)
        × Concludes (run os (some (report os)) o s).0 new
  run-Concludes os s texts =
      Trace.Trace-induction starting (Step o) (Silent o) s.log Closed tt step-Closed silent-Closed
        (run-refines-protocol os o s texts)
