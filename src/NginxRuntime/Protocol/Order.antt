-- ===== src/NginxRuntime/Protocol/Order.antt =====
-- nginx is reloaded, and success is reported, only after the test of the new configuration.
use releasepanel_agent.Base.{
  ◌≡◌, ◌≢◌, ◌⊎◌, inl, inr, refl, sym, ◌∙◌, none, some, List, [], ◌∷◌, ◌++◌,
}
use releasepanel_agent.Text.{Text, text_eq, ne_of_test, Unicode}
use releasepanel_agent.System.{Event, reported, executed, touched, Os, Sys, report}
use releasepanel_agent.System.Trace
use releasepanel_agent.NginxRuntime.Rows.{
  Options, state_applying, state_applied, state_reload_requested, state_reload_applied,
  state_failed,
}
use releasepanel_agent.NginxRuntime.Converge.{ledger_state, run}
use releasepanel_agent.NginxRuntime.Converge.Refines.{converge-refines-protocol}
use releasepanel_agent.NginxRuntime.Protocol.{
  Stage, starting, tested, reloaded, Step, rooted, announced, refused, gave_up, made, created,
  not_created, filled, renamed, not_renamed, cleaned, made_link, no_link, passed, rejected,
  reload_passed, reload_rejected, applied, reload_applied, Silent, idle, active, checked, resumed,
  rendered, kept_link,
}

module _ ⦃u : Unicode⦄ (o : Options) where
  -- The last thing that happened is that a command passed.
  abbrev HasPassed : List Text → List Event → Type 0
  HasPassed argv [] = ⊥
  HasPassed argv (reported row x ∷ l) = ⊥
  HasPassed argv (touched c x ∷ l) = ⊥
  HasPassed argv (executed c r ∷ l) = (c.path ∷ c.args ≡ argv) × (r.error ≡ none)

  -- The newest event first, each justified by those before it.
  abbrev pub IsTested : List Event → Type 0
  IsTested [] = Unit
  IsTested (touched c x ∷ l) = IsTested l
  IsTested (reported row x ∷ l) =
      (row.runtime_apply_state ≡ state_applied → HasPassed o.nginx_test_argv l)
      × (row.runtime_apply_state ≡ state_reload_applied → HasPassed o.nginx_reload_argv l)
      × IsTested l
  IsTested (executed c r ∷ l) =
      ((c.path ∷ c.args ≡ o.nginx_test_argv)
        ⊎ ((c.path ∷ c.args ≡ o.nginx_reload_argv)
            × (ledger_state o ≡ state_reload_requested)
            × HasPassed o.nginx_test_argv l))
      × IsTested l

  abbrev Known : Stage → List Event → Type 0
  Known tested l = HasPassed o.nginx_test_argv l × IsTested l
  Known reloaded l = HasPassed o.nginx_reload_argv l × IsTested l
  Known _ l = IsTested l

  Known-IsTested : (σ : Stage) (l : List Event) → Known σ l → IsTested l
  Known-IsTested tested l h = h.1
  Known-IsTested reloaded l h = h.1
  Known-IsTested _ l h = h

  applying-ne-applied : {s : Text} → s ≡ state_applying → s ≢ state_applied
  unfolding text_eq
  applying-ne-applied p q = ne_of_test state_applying state_applied refl (sym p ∙ q)

  applying-ne-reload_applied : {s : Text} → s ≡ state_applying → s ≢ state_reload_applied
  unfolding text_eq
  applying-ne-reload_applied p q = ne_of_test state_applying state_reload_applied refl (sym p ∙ q)

  failed-ne-applied : {s : Text} → s ≡ state_failed → s ≢ state_applied
  unfolding text_eq
  failed-ne-applied p q = ne_of_test state_failed state_applied refl (sym p ∙ q)

  failed-ne-reload_applied : {s : Text} → s ≡ state_failed → s ≢ state_reload_applied
  unfolding text_eq
  failed-ne-reload_applied p q = ne_of_test state_failed state_reload_applied refl (sym p ∙ q)

  applied-ne-reload_applied : {s : Text} → s ≡ state_applied → s ≢ state_reload_applied
  unfolding text_eq
  applied-ne-reload_applied p q = ne_of_test state_applied state_reload_applied refl (sym p ∙ q)

  step-Known :
      (os : Os) (σ τ : Stage) (e : Event) (new : List Event)
      → Step os o σ e τ
      → Known σ new
      → Known τ (e ∷ new)
  step-Known os σ τ e new (rooted q) h = h
  step-Known os σ τ e new (announced row q d) h =
      (λ p. absurd (applying-ne-applied q p), λ p. absurd (applying-ne-reload_applied q p), h)
  step-Known os σ τ e new (refused row q d) h =
      (λ p. absurd (applying-ne-applied q p), λ p. absurd (applying-ne-reload_applied q p), h)
  step-Known os σ τ e new (gave_up may f y) h = (
    λ p. absurd (failed-ne-applied f.is_failed p),
    λ p. absurd (failed-ne-reload_applied f.is_failed p),
    Known-IsTested σ new h,
  )
  step-Known os σ τ e new made h = h
  step-Known os σ τ e new (created n) h = h
  step-Known os σ τ e new (not_created n) h = h
  step-Known os σ τ e new (filled is) h = h
  step-Known os σ τ e new renamed h = h
  step-Known os σ τ e new not_renamed h = h
  step-Known os σ τ e new (cleaned p) h = h
  step-Known os σ τ e new made_link h = h
  step-Known os σ τ e new no_link h = h
  step-Known os σ τ e new (passed p q) h = ((p, q), (inl p, h))
  step-Known os σ τ e new (rejected p q) h = (inl p, h)
  step-Known os σ τ e new (reload_passed leg p q) h = ((p, q), (inr (p, leg, h.0), h.1))
  step-Known os σ τ e new (reload_rejected leg p q) h = (inr (p, leg, h.0), h.1)
  step-Known os σ τ e new (applied leg row q) h =
      (λ _. h.0, λ p. absurd (applied-ne-reload_applied q p), h.1)
  step-Known os σ τ e new (reload_applied row q) h =
      (λ p. absurd (applied-ne-reload_applied p q), λ _. h.0, h.1)

  silent-Known : (σ τ : Stage) (new : List Event) → Silent o σ τ → Known σ new → Known τ new
  silent-Known σ τ new (idle a b c) h = h
  silent-Known σ τ new (active leg) h = h
  silent-Known σ τ new (checked p) h = h
  silent-Known σ τ new (resumed p) h = h
  silent-Known σ τ new (rendered p q) h = h
  silent-Known σ τ new kept_link h = h

  -- In a run, nginx is reloaded only when the ledger asks for it and directly after its test of
  -- the written configuration has passed; an applied receipt comes directly after such a test,
  -- and a reload-applied receipt directly after a reload that passed.
  pub run-IsTested :
      (os : Os) (s : Sys)
      → (new : List Event) × ((run os (some (report os)) o s).1.log ≡ new ++ s.log) × IsTested new
  run-IsTested os s =
      let (new, split, h) =
        Trace.Trace-induction starting (Step os o) (Silent o) s.log Known tt (step-Known os)
          silent-Known (converge-refines-protocol os o s) in
      (new, split, h)
