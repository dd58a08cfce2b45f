-- ===== src/GitDeploy/Protocol/Justified.antt =====
-- A reset comes only after a successful download, and an applied receipt only after the reset.
use releasepanel_agent.Base.{
  ◌≡◌, ◌≢◌, ◌⊎◌, inl, inr, refl, sym, subst, ◌∙◌, none, some, List, [], ◌∷◌, ◌++◌, Any,
}
use releasepanel_agent.Text.{Text, codes, text_eq, Unicode, ne_of_test}
use releasepanel_agent.System.Trace
use releasepanel_agent.System.{
  Event, reported, executed, touched, Command, ExecReply, Os, Sys, report,
}
use releasepanel_agent.GitDeploy.Rows.{
  state_fetching, state_fetched, state_applying, state_applied, state_failed,
}
use releasepanel_agent.GitDeploy.Git.Exists.{HasStatTexts}
use releasepanel_agent.GitDeploy.Executor.{
  Options, branch, desired_sha, clone_args, fetch_args, reset_args, run,
}
use releasepanel_agent.GitDeploy.Executor.Refines.{run-refines-protocol}
use releasepanel_agent.GitDeploy.Protocol.{
  Stage, starting, fetching, downloaded, fetched, applying, targeted, reset_to, at_head, observed,
  Work, after, Due, promoted, Step, accepted, refused, gave_up, succeeded, failed, applied, Silent,
  skip_fetching, skip_fetched, newest,
}

module _ (o : Options) where
  -- A clone or fetch, the check of the desired commit, and a reset, each with success.
  abbrev IsDownload : Event → Type 0
  IsDownload (reported row e) = ⊥
  IsDownload (touched c e) = ⊥
  IsDownload (executed c r) = (r.error ≡ none) × ((c.args ≡ clone_args o) ⊎ (c.args ≡ fetch_args o))

  abbrev IsVerified : Event → Type 0
  IsVerified (reported row e) = ⊥
  IsVerified (touched c e) = ⊥
  IsVerified (executed c r) =
      (r.error ≡ none)
      × (c.args ≡ codes "cat-file" ∷ codes "-e" ∷ (desired_sha o ++ codes "^{commit}") ∷ [])

  abbrev IsReset : Event → Type 0
  IsReset (reported row e) = ⊥
  IsReset (touched c e) = ⊥
  IsReset (executed c r) = (r.error ≡ none) × (target : Text) × (c.args ≡ reset_args o target)

  -- What a target may be: the branch, or a desired commit that git knows.
  abbrev IsTarget : Text → List Event → Type 0
  IsTarget target l =
      ((desired_sha o ≡ []) × (target ≡ codes "origin/" ++ branch o))
      ⊎ ((target ≡ desired_sha o) × Any IsVerified l)

  -- The newest event first, each justified by those before it.
  abbrev pub IsJustified : List Event → Type 0
  IsJustified [] = Unit
  IsJustified (touched c e ∷ l) = IsJustified l
  IsJustified (reported row e ∷ l) =
      (row.repository_deploy_state ≡ state_applied → Any IsReset l) × IsJustified l
  IsJustified (executed c r ∷ l) =
      ((target : Text) → c.args ≡ reset_args o target → Any IsDownload l × IsTarget target l)
      × IsJustified l

  abbrev Has : Stage → List Event → Type 0
  Has downloaded new = Any IsDownload new
  Has fetched new = Any IsDownload new
  Has applying new = Any IsDownload new
  Has (targeted target) new = Any IsDownload new × IsTarget target new
  Has (reset_to target) new = Any IsReset new
  Has at_head new = Any IsReset new
  Has (observed out) new = Any IsReset new
  Has _ new = Unit

  -- The other commands are not resets.
  abbrev NoReset : List Text → Type 0
  NoReset args = (target : Text) → args ≢ reset_args o target

  clone-NoReset : NoReset (clone_args o)
  clone-NoReset target e = cc

  fetch-NoReset : NoReset (fetch_args o)
  fetch-NoReset target e = cc

  verify-NoReset : (sha : Text) → NoReset (codes "cat-file" ∷ codes "-e" ∷ sha ∷ [])
  verify-NoReset sha target e = cc

  head-NoReset : NoReset (codes "rev-parse" ∷ codes "HEAD" ∷ [])
  head-NoReset target e = cc

  log-NoReset : (format : Text) → NoReset (codes "log" ∷ codes "-1" ∷ codes "-z" ∷ format ∷ [])
  log-NoReset format target e = cc

  reset_args-injective : (t target : Text) → reset_args o t ≡ reset_args o target → t ≡ target
  reset_args-injective t target e = cc

  Work-justified :
      (σ : Stage) (d : Text) (args : List Text) (new : List Event)
      → Work o σ d args
      → Has σ new
      → (target : Text) → args ≡ reset_args o target
      → Any IsDownload new × IsTarget target new
  Work-justified fetching d args new (inl w) h target e =
      absurd (clone-NoReset target (sym w.1 ∙ e))
  Work-justified fetching d args new (inr w) h target e =
      absurd (fetch-NoReset target (sym w.1 ∙ e))
  Work-justified applying d args new w h target e = absurd (verify-NoReset _ target (sym w.2 ∙ e))
  Work-justified (targeted t) d args new w h target e =
      subst (λ (x : Text). Any IsDownload new × IsTarget x new)
        (reset_args-injective t target (sym w.1 ∙ e)) h
  Work-justified (reset_to t) d args new w h target e = absurd (head-NoReset target (sym w.1 ∙ e))
  Work-justified at_head d args new w h target e = absurd (log-NoReset _ target (sym w.1 ∙ e))
  Work-justified _ d args new w h target e = absurd w

  Work-Has :
      (σ : Stage) (c : Command) (r : ExecReply) (out : Text) (new : List Event)
      → Work o σ c.work_dir c.args
      → r.error ≡ none
      → Has σ new
      → Has (after o σ out) (executed c r ∷ new)
  Work-Has fetching c r out new (inl w) q h = inl (q, inl w.1)
  Work-Has fetching c r out new (inr w) q h = inl (q, inr w.1)
  Work-Has applying c r out new w q h = (inr h, inr (refl, inl (q, w.2)))
  Work-Has (targeted t) c r out new w q h = inl (q, t, w.1)
  Work-Has (reset_to t) c r out new w q h = inr h
  Work-Has at_head c r out new w q h = inr h
  Work-Has _ c r out new w q h = absurd w

module _ ⦃u : Unicode⦄ (o : Options) where
  Due-Has :
      (σ : Stage) (state : Text) (e : Event) (new : List Event)
      → Due o σ state
      → Has o σ new
      → Has o (promoted o σ) (e ∷ new)
  Due-Has starting state e new due h = tt
  Due-Has downloaded state e new due h = inr h
  Due-Has fetched state e new due h = inr h
  Due-Has _ state e new due h = absurd due

  Due-ne_applied : (σ : Stage) (state : Text) → Due o σ state → state ≢ state_applied
  unfolding text_eq
  Due-ne_applied starting state due e = ne_of_test state_fetching state_applied refl (sym due.0 ∙ e)
  Due-ne_applied downloaded state due e =
      ne_of_test state_fetched state_applied refl (sym due.0 ∙ e)
  Due-ne_applied fetched state due e = ne_of_test state_applying state_applied refl (sym due ∙ e)
  Due-ne_applied _ state due e = absurd due

  failed_ne_applied : (state : Text) → state ≡ state_failed → state ≢ state_applied
  failed_ne_applied state q e = cc

  Holds : Stage → List Event → Type 0
  Holds σ new = Has o σ new × IsJustified o new

  step-Holds :
      (σ τ : Stage) (e : Event) (new : List Event) → Step o σ e τ → Holds σ new → Holds τ (e ∷ new)
  unfolding Holds
  step-Holds σ τ e new (accepted {row} r due) h =
      (Due-Has σ _ _ new due h.0, (λ a. absurd (Due-ne_applied σ _ due a), h.1))
  step-Holds σ τ e new (refused {row} r due) h = (tt, (λ a. absurd (Due-ne_applied σ _ due a), h.1))
  step-Holds σ τ e new (gave_up {row} may f) h =
      (tt, (λ a. absurd (failed_ne_applied _ f.is_failed a), h.1))
  step-Holds σ τ e new (succeeded {c} {r} w q) h =
      (Work-Has o σ c r _ new w q h.0, (Work-justified o σ _ _ new w h.0, h.1))
  step-Holds σ τ e new (failed {c} {r} w q) h = (tt, (Work-justified o σ _ _ new w h.0, h.1))
  step-Holds σ τ e new (applied {row} a) h = (tt, (λ _. h.0, h.1))

  silent-Holds : (σ τ : Stage) (new : List Event) → Silent o σ τ → Holds σ new → Holds τ new
  unfolding Holds
  silent-Holds σ τ new (skip_fetching past checked) h = (tt, h.1)
  silent-Holds σ τ new (skip_fetched past) h = h
  silent-Holds σ τ new (newest e t) h = ((h.0, inl (e, t)), h.1)

  -- In a run, each `git reset` comes after a successful clone or fetch of the same run, and its
  -- target is the branch at origin, or the desired commit once git has verified it; an applied
  -- receipt comes only after a successful reset of the same run. The hypothesis is that the
  -- errors of `os.Stat` have a message.
  pub run-IsJustified :
      (os : Os) (s : Sys)
      → HasStatTexts os
      → (new : List Event) × ((run os (some (report os)) o s).1.log ≡ new ++ s.log)
        × IsJustified o new
  unfolding Holds
  run-IsJustified os s texts =
      let (new, split, h) =
        Trace.Trace-induction starting (Step o) (Silent o) s.log Holds (tt, tt) step-Holds
          silent-Holds (run-refines-protocol os o s texts) in
      (new, split, h.1)
