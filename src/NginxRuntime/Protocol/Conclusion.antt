-- ===== src/NginxRuntime/Protocol/Conclusion.antt =====
-- What a run returns, and what it has sent last.
use releasepanel_agent.Base.{
  ◌≡◌, ◌≢◌, ◌⊎◌, inl, inr, refl, Option, none, some, List, [], ◌∷◌, ◌++◌, arith,
}
use releasepanel_agent.Text.{Text, Unicode}
use releasepanel_agent.System.{Event, reported, executed, touched, Os, Sys, report}
use releasepanel_agent.System.Trace
use releasepanel_agent.NginxRuntime.Rows.{
  Options, state_requested, state_applying, state_applied, state_reload_requested,
  state_reload_applied, state_failed,
}
use releasepanel_agent.NginxRuntime.Converge.{ledger_state, run}
use releasepanel_agent.NginxRuntime.Converge.Refines.{converge-refines-protocol}
use releasepanel_agent.NginxRuntime.Protocol.{
  Stage, starting, rooting, prepared, ready, writing, filling, placed, linked, tested, reloaded,
  broken, ended, IsOpen, IsApply, Step, rooted, announced, refused, gave_up, made, created,
  not_created, filled, renamed, not_renamed, cleaned, made_link, no_link, passed, rejected,
  reload_passed, reload_rejected, applied, reload_applied, Silent, idle, active, checked, resumed,
  rendered, kept_link,
}

module _ ⦃u : Unicode⦄ (o : Options) where
  -- The ledger asks for nothing.
  pub record IsIdle : Type 0 where
    pub not_requested : ledger_state o ≢ state_requested
    pub not_applying : ledger_state o ≢ state_applying
    pub no_reload : ledger_state o ≢ state_reload_requested

  -- The ledger asks for a configuration, or for a reload.
  abbrev pub IsAsked : Type 0
  IsAsked =
      (ledger_state o ≡ state_requested)
      ⊎ (ledger_state o ≡ state_applying)
      ⊎ (ledger_state o ≡ state_reload_requested)

  -- What a run that returned `e` has left: nothing where the ledger asks for nothing; else its
  -- last event is a receipt, and nil is returned only if that receipt was taken and is a final
  -- one.
  abbrev pub Concludes : Option Text → List Event → Type 0
  Concludes e [] = IsIdle × (e ≡ none)
  Concludes e (executed c r ∷ l) = ⊥
  Concludes e (touched c x ∷ l) = ⊥
  Concludes e (reported row x ∷ l) =
      IsAsked
      × ((e ≡ x) ⊎ (e ≢ none))
      × ((e ≢ none)
          ⊎ (row.runtime_apply_state ≡ state_applied)
          ⊎ (row.runtime_apply_state ≡ state_reload_applied)
          ⊎ (row.runtime_apply_state ≡ state_failed))

  abbrev Closed : Stage → List Event → Type 0
  Closed starting new = new ≡ []
  Closed (ended e) new = Concludes e new
  Closed _ new = IsAsked

  open_asked : (σ : Stage) (new : List Event) → IsOpen σ → Closed σ new → IsAsked
  open_asked starting new may h = absurd may
  open_asked (ended e) new may h = absurd may
  open_asked rooting new may h = h
  open_asked (prepared w m) new may h = h
  open_asked (ready w m) new may h = h
  open_asked (writing a b c) new may h = h
  open_asked (filling t a b c) new may h = h
  open_asked (placed t a b) new may h = h
  open_asked linked new may h = h
  open_asked tested new may h = h
  open_asked reloaded new may h = h
  open_asked broken new may h = h

  step-Closed :
      (os : Os) (σ τ : Stage) (e : Event) (new : List Event)
      → Step os o σ e τ
      → Closed σ new
      → Closed τ (e ∷ new)
  step-Closed os σ τ e new (rooted q) h = h
  step-Closed os σ τ e new (announced row q d) h = h
  step-Closed os σ τ e new (refused row q d) h = (h, inl refl, inl (λ n. ground arith))
  step-Closed os σ τ e new (gave_up may f y) h =
      (open_asked σ new may h, y, inr (inr (inr f.is_failed)))
  step-Closed os σ τ e new made h = h
  step-Closed os σ τ e new (created n) h = h
  step-Closed os σ τ e new (not_created n) h = h
  step-Closed os σ τ e new (filled is) h = h
  step-Closed os σ τ e new renamed h = h
  step-Closed os σ τ e new not_renamed h = h
  step-Closed os σ τ e new (cleaned p) h = h
  step-Closed os σ τ e new made_link h = h
  step-Closed os σ τ e new no_link h = h
  step-Closed os σ τ e new (passed p q) h = h
  step-Closed os σ τ e new (rejected p q) h = h
  step-Closed os σ τ e new (reload_passed leg p q) h = h
  step-Closed os σ τ e new (reload_rejected leg p q) h = h
  step-Closed os σ τ e new (applied leg row q) h = (h, inl refl, inr (inl q))
  step-Closed os σ τ e new (reload_applied row q) h = (h, inl refl, inr (inr (inl q)))

  silent-Closed : (σ τ : Stage) (new : List Event) → Silent o σ τ → Closed σ new → Closed τ new
  silent-Closed σ τ new (idle a b c) h = idle_end new h
    where
      idle_end : (new : List Event) → new ≡ [] → Concludes none new
      idle_end [] q = (record { not_requested = a; not_applying = b; no_reload = c }, refl)
      idle_end (e ∷ new) q = ground arith
  silent-Closed σ τ new (active leg) h = asked leg
    where
      asked : IsApply o ⊎ (ledger_state o ≡ state_reload_requested) → IsAsked
      asked (inl (inl q)) = inl q
      asked (inl (inr q)) = inr (inl q)
      asked (inr q) = inr (inr q)
  silent-Closed σ τ new (checked p) h = h
  silent-Closed σ τ new (resumed p) h = h
  silent-Closed σ τ new (rendered p q) h = h
  silent-Closed σ τ new kept_link h = h

  -- A run where the ledger asks for nothing returns nil and leaves no event, and only there. Any
  -- other sends at least one receipt, the last of its events; it returns the answer to it or an
  -- error of its own, and nil only if that receipt was taken and says applied, reload_applied or
  -- failed.
  pub converge-Concludes :
      (os : Os) (s : Sys)
      → (new : List Event) × ((run os (some (report os)) o s).1.log ≡ new ++ s.log)
        × Concludes (run os (some (report os)) o s).0 new
  converge-Concludes os s =
      Trace.Trace-induction starting (Step os o) (Silent o) s.log Closed refl (step-Closed os)
        silent-Closed (converge-refines-protocol os o s)
