-- ===== src/NginxRuntime/Converge/Receipts.antt =====
-- The receipts of both legs, and the checks that end in one, as triples over the protocol.
use releasepanel_agent.Base.{◌≡◌, inl, inr, refl, Option, none, some, List, arith}
use releasepanel_agent.Text.{Text, Unicode, length-truncate_runes}
use releasepanel_agent.System.{Os, Sys, Event, Result, ok, err, report, now, pure, leave, ◌>>=◌}
use releasepanel_agent.System.Trace
use releasepanel_agent.System.Ensures.{Ensures, Ensures-pure}
use releasepanel_agent.NginxRuntime.Rows.{Options, failed_row, row_at}
use releasepanel_agent.NginxRuntime.Converge.{fail, fail_with, accept, need}
use releasepanel_agent.NginxRuntime.Protocol.{Stage, ended, IsOpen, gave_up, Run}

module _ ⦃u : Unicode⦄ (os : Os) (o : Options) (base : List Event) where
  -- The run stands at a stage; it has returned an error.
  abbrev pub At : Stage → Sys → Type 0
  At σ s = Run os o base σ s.log

  abbrev pub End : Option Text → Sys → Type 0
  End e s = Run os o base (ended e) s.log

  -- Somewhere before its end, where a failure is all that can follow.
  abbrev Stuck : Sys → Type 0
  Stuck s = (σ : Stage) × IsOpen σ × At σ s

  -- A check that passed, or one after which the run is stuck.
  abbrev pub If : (Sys → Type 0) → Option Text → Sys → Type 0
  If W none s = W s
  If W (some x) s = Stuck s

  abbrev pub When : {A : Type 0} → (A → Sys → Type 0) → Result A → Sys → Type 0
  When W (ok a) s = W a s
  When W (err x) s = Stuck s

module _ ⦃u : Unicode⦄ (os : Os) (o : Options) (base : List Event) where
  pub Ensures-fail :
      {A : Type 0} {Q : A → Sys → Type 0} (reason : Text)
      → Ensures (Stuck os o base) (fail os (report os) o reason) Q (End os o base)
  unfolding fail failed_row row_at report now ◌>>=◌ pure leave
  Ensures-fail reason = record {
    at = λ s h. Trace.step h.2 (
        gave_up h.1
          (record {
            is_row = record { of_site = refl; has_tls = refl; no_deployment = refl };
            is_failed = refl;
            reason_bounded = length-truncate_runes reason 19000 (omega arith);
          })
          (inl refl));
  }

  pub Ensures-fail_with :
      {A : Type 0} {Q : A → Sys → Type 0} (reason x : Text)
      → Ensures (Stuck os o base) (fail_with os (report os) o reason x) Q (End os o base)
  unfolding fail_with failed_row row_at report now ◌>>=◌ pure leave
  Ensures-fail_with reason x = record {
    at = λ s h. Trace.step h.2 (
        gave_up h.1
          (record {
            is_row = record { of_site = refl; has_tls = refl; no_deployment = refl };
            is_failed = refl;
            reason_bounded = length-truncate_runes reason 19000 (omega arith);
          })
          (inr (ground arith)));
  }

  pub Ensures-accept :
      (W : Sys → Type 0) (reason : Text → Text) (x : Option Text)
      → Ensures (If os o base W x) (accept os (report os) o reason x) (λ _. W) (End os o base)
  unfolding accept
  Ensures-accept W reason none = Ensures-pure tt (λ s h. h)
  Ensures-accept W reason (some x) = Ensures-fail (reason x)

  pub Ensures-need :
      {A : Type 0} (W : A → Sys → Type 0) (reason : Text → Text) (r : Result A)
      → Ensures (When os o base W r) (need os (report os) o reason r) W (End os o base)
  unfolding need
  Ensures-need W reason (ok a) = Ensures-pure a (λ s h. h)
  Ensures-need W reason (err x) = Ensures-fail (reason x)

  -- A check that asks nothing of the system.
  pub Ensures-accept-At :
      (σ : Stage) (reason : Text → Text) (x : Option Text)
      → IsOpen σ
      → Ensures
          (At os o base σ)
          (accept os (report os) o reason x)
          (λ _ s. At os o base σ s × (x ≡ none))
          (End os o base)
  unfolding accept
  Ensures-accept-At σ reason none may = Ensures-pure tt (λ s h. (h, refl))
  Ensures-accept-At σ reason (some x) may = record {
    at = λ s h. (Ensures-fail (reason x)).at s (σ, may, h);
  }

  pub Ensures-need-At :
      {A : Type 0} (σ : Stage) (reason : Text → Text) (r : Result A)
      → IsOpen σ
      → Ensures
          (At os o base σ)
          (need os (report os) o reason r)
          (λ a s. At os o base σ s × (r ≡ ok a))
          (End os o base)
  unfolding need
  Ensures-need-At σ reason (ok a) may = Ensures-pure a (λ s h. (h, refl))
  Ensures-need-At {A} σ reason (err x) may = record {
    at = λ s h.
        (Ensures-fail {Q = λ a t. At os o base σ t × (err x ≡ ok a)} (reason x)).at s (σ, may, h);
  }
