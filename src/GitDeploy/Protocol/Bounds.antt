-- ===== src/GitDeploy/Protocol/Bounds.antt =====
-- The git commands of a run stay within the checked deploy path.
use releasepanel_agent.Base.{◌++◌, ◌≡◌, ◌⊎◌, inl, inr, List, [], ◌∷◌, All, All-map, some}
use releasepanel_agent.Text.{Text, Unicode}
use releasepanel_agent.System.Trace
use releasepanel_agent.System.{
  Event, reported, executed, touched, Command, ExecReply, Os, Sys, report,
}
use releasepanel_agent.GitDeploy.Git.Exists.{HasStatTexts}
use releasepanel_agent.GitDeploy.Executor.Keys.{HasUsableKey, UsableOrRefused, run-key}
use releasepanel_agent.GitDeploy.Executor.Refines.{run-refines-protocol}
use releasepanel_agent.GitDeploy.Executor.{Options, deploy_path, clone_args, run}
use releasepanel_agent.GitDeploy.Protocol.{
  Stage, starting, fetching, downloaded, fetched, applying, targeted, reset_to, at_head, broken,
  ended, IsChecked, Work, after, Due, promoted, Step, accepted, refused, gave_up, succeeded, failed,
  applied, Silent, skip_fetching, skip_fetched, newest, trim_space,
}

module _ (o : Options) where
  -- A command that the agent may run for the options: it works in the deploy path, or it is the
  -- clone into that path. The path was accepted and the key is configured.
  abbrev pub IsBounded : Event → Type 0
  IsBounded (reported row e) = Unit
  IsBounded (touched c e) = ⊥
  IsBounded (executed c r) =
      IsChecked o × ((c.work_dir ≡ deploy_path o) ⊎ ((c.work_dir ≡ []) × (c.args ≡ clone_args o)))

  abbrev IsPast : Stage → Type 0
  IsPast starting = Unit
  IsPast (ended e) = Unit
  IsPast _ = IsChecked o

  Work-IsBounded :
      (σ : Stage) (c : Command) (r : ExecReply) (out : Text)
      → Work o σ c.work_dir c.args
      → IsPast σ
      → IsPast (after o σ out) × IsPast broken × IsBounded (executed c r)
  Work-IsBounded fetching c r out (inl w) past = (past, past, (past, inr w))
  Work-IsBounded fetching c r out (inr w) past = (past, past, (past, inl w.0))
  Work-IsBounded applying c r out w past = (past, past, (past, inl w.0))
  Work-IsBounded (targeted t) c r out w past = (past, past, (past, inl w.0))
  Work-IsBounded (reset_to t) c r out w past = (past, past, (past, inl w.0))
  Work-IsBounded at_head c r out w past = (past, past, (past, inl w.0))
  Work-IsBounded _ c r out w past = absurd w

module _ ⦃u : Unicode⦄ (o : Options) where
  Due-IsPast : (σ : Stage) (state : Text) → Due o σ state → IsPast o σ → IsPast o (promoted o σ)
  Due-IsPast starting state due past = due.1
  Due-IsPast downloaded state due past = past
  Due-IsPast fetched state due past = past
  Due-IsPast _ state due past = absurd due

  Within : Stage → List Event → Type 0
  Within σ new = IsPast o σ × All (IsBounded o) new

  step-Within :
      (σ τ : Stage) (e : Event) (new : List Event)
      → Step o σ e τ
      → Within σ new
      → Within τ (e ∷ new)
  unfolding Within
  step-Within σ τ e new (accepted r due) h = (Due-IsPast σ _ due h.0, (tt, h.1))
  step-Within σ τ e new (refused r due) h = (tt, (tt, h.1))
  step-Within σ τ e new (gave_up may f) h = (tt, (tt, h.1))
  step-Within σ τ e new (succeeded {c} {r} w q) h =
      let (past, fell, bounded) = Work-IsBounded o σ c r (trim_space r.stdout) w h.0 in
      (past, (bounded, h.1))
  step-Within σ τ e new (failed {c} {r} w q) h =
      let (past, fell, bounded) = Work-IsBounded o σ c r [] w h.0 in (fell, (bounded, h.1))
  step-Within σ τ e new (applied a) h = (tt, (tt, h.1))

  silent-Within : (σ τ : Stage) (new : List Event) → Silent o σ τ → Within σ new → Within τ new
  unfolding Within
  silent-Within σ τ new (skip_fetching past checked) h = (checked, h.1)
  silent-Within σ τ new (skip_fetched past) h = h
  silent-Within σ τ new (newest e t) h = h

  -- A command of a run that starts in `s`: bounded, with the key usable there.
  abbrev pub IsKeyed : Os → Sys → Event → Type 0
  IsKeyed os s (reported row e) = Unit
  IsKeyed os s (touched c e) = ⊥
  IsKeyed os s (executed c r) = HasUsableKey os s o × IsBounded o (executed c r)

  keyed : (os : Os) (s : Sys) → HasUsableKey os s o → (e : Event) → IsBounded o e → IsKeyed os s e
  keyed os s key (reported row e) h = h
  keyed os s key (touched c e) h = h
  keyed os s key (executed c r) h = (key, h)

  -- Every git command that a run executes works in the deploy path, or is the clone into it, and
  -- is executed only where the path was accepted, the ledger says that a key is configured, and at
  -- the start of the run the key is a regular file without a bit for its group or for others. The
  -- hypothesis is that the errors of `os.Stat` have a message.
  pub run-IsBounded :
      (os : Os) (s : Sys)
      → HasStatTexts os
      → (new : List Event) × ((run os (some (report os)) o s).1.log ≡ new ++ s.log)
        × All (IsKeyed os s) new
  unfolding Within
  run-IsBounded os s texts = with_key (run-key os o s)
    where
      with_key :
          UsableOrRefused os o s (run os (some (report os)) o s).1
          → (new : List Event) × ((run os (some (report os)) o s).1.log ≡ new ++ s.log)
            × All (IsKeyed os s) new
      with_key (inl key) =
          let (new, split, h) =
            Trace.Trace-induction starting (Step o) (Silent o) s.log Within (tt, tt) step-Within
              silent-Within (run-refines-protocol os o s texts) in
          (new, split, All-map (keyed os s key) new h.1)
      with_key (inr (row, x, q)) = (reported row x ∷ [], q, (tt, tt))
