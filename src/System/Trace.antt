-- ===== src/System/Trace.antt =====
-- Logs that a protocol allows: its stages, the events that lead from one to the next, and moves
-- that leave no event.
use releasepanel_agent.Base.{◌≡◌, List, [], ◌∷◌, ◌++◌, ap}
use releasepanel_agent.System.{Event}

module _ {Stage : Type 0} (start : Stage) (Step : Stage → Event → Stage → Type 0)
    (Silent : Stage → Stage → Type 0) where
  -- The logs, the newest event first, that a run may have made of `base`.
  pub data Trace (base : List Event) : Stage → List Event → Type 0 where
    begin : {log : List Event} → log ≡ base → Trace base start log
    step :
        {σ τ : Stage} {log : List Event} {e : Event}
        → Trace base σ log
        → Step σ e τ
        → Trace base τ (e ∷ log)
    silent : {σ τ : Stage} {log : List Event} → Trace base σ log → Silent σ τ → Trace base τ log

  module _ (base : List Event) where
    -- An invariant of the protocol holds of the events that a run adds.
    pub Trace-induction :
        (I : Stage → List Event → Type 0)
        → I start []
        → ((σ τ : Stage) (e : Event) (new : List Event) → Step σ e τ → I σ new → I τ (e ∷ new))
        → ((σ τ : Stage) (new : List Event) → Silent σ τ → I σ new → I τ new)
        → {σ : Stage} {log : List Event} → Trace base σ log
        → (new : List Event) × (log ≡ new ++ base) × I σ new
    Trace-induction I first keep still (begin e) = ([], e, first)
    Trace-induction I first keep still (step {e} t st) =
        let (new, split, h) = Trace-induction I first keep still t in
        (e ∷ new, ap (λ (l : List Event). e ∷ l) split, keep _ _ e new st h)
    Trace-induction I first keep still (silent t st) =
        let (new, split, h) = Trace-induction I first keep still t in
        (new, split, still _ _ new st h)
