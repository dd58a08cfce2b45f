-- ===== src/GitDeploy/Executor/Receipts.antt =====
-- The receipts of `Run` and the checks that end in one, as triples over the protocol.
use releasepanel_agent.Base.{
  ◌≡◌, ◌≢◌, refl, Bool, true, Option, none, some, List, [], ◌∷◌, arith, false,
}
use releasepanel_agent.Text.{Text, Unicode, length-truncate_runes, truncate_runes-ne-nil}
use releasepanel_agent.Api.{SiteRuntimeReportRow}
use releasepanel_agent.System.Trace
use releasepanel_agent.System.{
  Os, Sys, Event, reported, Result, ok, err, report, now, pure, leave, ◌>>=◌,
}
use releasepanel_agent.System.Ensures.{Ensures, Ensures-pure, Ensures-if, Post}
use releasepanel_agent.GitDeploy.Rows.{row, failed_row}
use releasepanel_agent.GitDeploy.Executor.{
  Options, fail, stop_on, announce, announce_unless, require, accept, need,
}
use releasepanel_agent.GitDeploy.Protocol.{
  Run, Stage, ended, IsOpen, Due, promoted, IsRow, accepted, refused, gave_up, Silent,
}

module _ ⦃u : Unicode⦄ (o : Options) (base : List Event) where
  -- The run stands at a stage; it has returned an error.
  abbrev pub At : Stage → Sys → Type 0
  At σ s = Run o base σ s.log

  abbrev pub End : Option Text → Sys → Type 0
  End e s = Run o base (ended e) s.log

  -- A result that stands for `Q` of its value, or else leaves the run at `σ`.
  abbrev pub When : {A : Type 0} → Stage → (A → Sys → Type 0) → Result A → Sys → Type 0
  When σ Q (ok a) s = Q a s
  When σ Q (err e) s = At σ s

module _ ⦃u : Unicode⦄ (os : Os) (o : Options) (base : List Event) where
  pub Ensures-fail :
      {A : Type 0} {Q : A → Sys → Type 0} (σ : Stage) (reason : Text)
      → IsOpen σ
      → reason ≢ []
      → Ensures (At o base σ) (fail os (report os) o reason) Q (End o base)
  unfolding fail failed_row report now ◌>>=◌ pure leave
  Ensures-fail σ reason may ne = record {
    at = λ s h. Trace.step h (
        gave_up may (record {
          is_row = record { of_site = refl; echoes_tls = refl };
          is_failed = refl;
          has_reason = truncate_runes-ne-nil reason 19000 ne;
          reason_bounded = length-truncate_runes reason 19000 (omega arith);
        }));
  }

  stop_on-Post :
      (σ : Stage) (r : SiteRuntimeReportRow) (e : Option Text) (s t : Sys)
      → IsRow o r
      → Due o σ r.repository_deploy_state
      → At o base σ s
      → t.log ≡ reported r e ∷ s.log
      → Post
          (λ _. At o base (promoted o σ))
          (End o base)
          (stop_on os (report os) o e t).0
          (stop_on os (report os) o e t).1
  unfolding stop_on pure leave
  stop_on-Post σ r none s t ir due h q = rw q (Trace.step h (accepted ir due))
  stop_on-Post σ r (some e) s t ir due h q = rw q (Trace.step h (refused ir due))

  pub Ensures-announce :
      (σ : Stage) (state : Text)
      → Due o σ state
      → Ensures
          (At o base σ)
          (announce os (report os) o state)
          (λ _. At o base (promoted o σ))
          (End o base)
  unfolding announce row report now ◌>>=◌ pure
  Ensures-announce σ state due = record {
    at = λ s h. stop_on-Post σ _ _ s _ (record { of_site = refl; echoes_tls = refl }) due h refl;
  }

  pub Ensures-announce_unless :
      (σ : Stage) (skip : Bool) (state : Text)
      → (skip ≡ false → Due o σ state)
      → (skip ≡ true → Silent o σ (promoted o σ))
      → Ensures
          (At o base σ)
          (announce_unless os (report os) o skip state)
          (λ _. At o base (promoted o σ))
          (End o base)
  unfolding announce_unless
  Ensures-announce_unless σ skip state due past =
      Ensures-if skip (λ e. Ensures-pure tt (λ s h. Trace.silent h (past e)))
        (λ e. Ensures-announce σ state (due e))

  pub Ensures-require :
      (σ : Stage) (holds : Bool) (reason : Text)
      → IsOpen σ
      → reason ≢ []
      → Ensures
          (At o base σ)
          (require os (report os) o holds reason)
          (λ _ s. At o base σ s × (holds ≡ true))
          (End o base)
  unfolding require
  Ensures-require σ holds reason may ne =
      Ensures-if holds (λ e. Ensures-pure tt (λ s h. (h, e))) (λ _. Ensures-fail σ reason may ne)

  pub Ensures-accept :
      (σ : Stage) (reason : Text → Text) (x : Option Text)
      → IsOpen σ
      → ((e : Text) → reason e ≢ [])
      → Ensures
          (At o base σ)
          (accept os (report os) o reason x)
          (λ _ s. At o base σ s × (x ≡ none))
          (End o base)
  unfolding accept
  Ensures-accept σ reason none may ne = Ensures-pure tt (λ s h. (h, refl))
  Ensures-accept σ reason (some e) may ne = Ensures-fail σ (reason e) may (ne e)

  -- Where a result is needed, `P` says what holds in each of its two cases.
  pub Ensures-need :
      {A : Type 0} {Q : A → Sys → Type 0} (σ : Stage) (reason : Text → Text) (r : Result A)
      → IsOpen σ
      → ((e : Text) → r ≡ err e → reason e ≢ [])
      → Ensures (When o base σ Q r) (need os (report os) o reason r) Q (End o base)
  unfolding need
  Ensures-need σ reason (ok a) may ne = Ensures-pure a (λ s h. h)
  Ensures-need σ reason (err e) may ne = Ensures-fail σ (reason e) may (ne e refl)
