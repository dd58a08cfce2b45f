-- ===== src/NginxRuntime/Converge/Refines.antt =====
-- `Run` refines the protocol.
use releasepanel_agent.Base.{
  ◌≡◌, ◌≢◌, ◌⊎◌, inl, inr, refl, Bool, true, false, ◌||◌, Option, none, some, List, [], ◌∷◌, arith,
}
use releasepanel_agent.Text.{Text, text_eq, text_eq_iff, Unicode}
use releasepanel_agent.Api.{SiteRuntimeReportRow}
use releasepanel_agent.System.{
  Os, Sys, M, Event, reported, report, now, pure, leave, Exit, stop, go, result, ◌>>=◌,
}
use releasepanel_agent.System.Trace
use releasepanel_agent.System.Ensures.{
  Ensures, Post, Ensures-pure, Ensures-bind, Ensures-leave, Ensures-if,
}
use releasepanel_agent.NginxRuntime.TlsIntent.{TlsMaterialization}
use releasepanel_agent.NginxRuntime.Rows.{
  Options, row_at, row_runtime, row_reload_applied, state_requested, state_applying, state_applied,
  state_reload_requested,
}
use releasepanel_agent.NginxRuntime.Converge.{
  tls_echo, tls_out, ledger_state, stop_on, announce_applying, run_apply_leg, run_reload_leg, steps,
  run,
}
use releasepanel_agent.NginxRuntime.Converge.Receipts.{At, End, Ensures-need}
use releasepanel_agent.NginxRuntime.Converge.Links.{Ensures-run_argv, Runs}
use releasepanel_agent.NginxRuntime.Converge.Legs.{Ensures-prepare, Ensures-materialize}
use releasepanel_agent.NginxRuntime.Protocol.{
  Stage, starting, rooting, active, prepared, ready, tested, reloaded, ended, IsApply, IsRow,
  announced, refused, reload_passed, reload_rejected, applied, reload_applied, idle, resumed, Run,
}

module _ ⦃u : Unicode⦄ (os : Os) (o : Options) (base : List Event) where
  stop_on-Post :
      (w : Text) (m : Option TlsMaterialization) (r : SiteRuntimeReportRow) (x : Option Text)
      (s t : Sys)
      → IsRow o (tls_echo o) r
      → r.runtime_apply_state ≡ state_applying
      → ledger_state o ≡ state_requested
      → At os o base (prepared w m) s
      → t.log ≡ reported r x ∷ s.log
      → Post
          (λ _. At os o base (ready w m))
          (End os o base)
          (stop_on os (report os) o x t).0
          (stop_on os (report os) o x t).1
  unfolding stop_on pure leave
  stop_on-Post w m r none s t row state due h q = rw q (Trace.step h (announced row state due))
  stop_on-Post w m r (some x) s t row state due h q = rw q (Trace.step h (refused row state due))

  Ensures-announce :
      (w : Text) (m : Option TlsMaterialization) (skip : Bool)
      → (skip ≡ true → ledger_state o ≡ state_applying)
      → (skip ≡ false → ledger_state o ≡ state_requested)
      → Ensures
          (At os o base (prepared w m))
          (announce_applying os (report os) o skip)
          (λ _. At os o base (ready w m))
          (End os o base)
  unfolding announce_applying row_runtime row_at report now ◌>>=◌ pure
  Ensures-announce w m true past due =
      Ensures-pure tt (λ s h. Trace.silent h (resumed (inl (past refl))))
  Ensures-announce w m false past due = record {
    at = λ s h.
        stop_on-Post w m _ _ s _ (record { of_site = refl; has_tls = refl; no_deployment = refl })
          refl (due refl) h refl;
  }

  conclude_applied : M (Unit {0})
  conclude_applied = do
    r ← row_runtime os o.intent.site_ulid (tls_echo o) state_applied []
    e ← report os r
    leave e

  Ensures-conclude_applied :
      IsApply o → Ensures (At os o base tested) conclude_applied (λ _ _. ⊥) (End os o base)
  unfolding conclude_applied row_runtime row_at report now ◌>>=◌ pure leave
  Ensures-conclude_applied leg = record {
    at = λ s h.
        Trace.step h
          (applied leg (record { of_site = refl; has_tls = refl; no_deployment = refl }) refl);
  }

  conclude_reloaded : Text → M (Unit {0})
  conclude_reloaded reload_at = do
    r ← row_reload_applied os o.intent.site_ulid (tls_out o) reload_at
    e ← report os r
    leave e

  Ensures-conclude_reloaded :
      (at : Text)
      → Ensures (At os o base reloaded) (conclude_reloaded at) (λ _ _. ⊥) (End os o base)
  unfolding conclude_reloaded row_reload_applied row_at report now ◌>>=◌ pure leave
  Ensures-conclude_reloaded at = record {
    at = λ s h.
        Trace.step h
          (reload_applied (record { of_site = refl; has_tls = refl; no_deployment = refl }) refl);
  }

  Ensures-now :
      (σ : Stage) → Ensures (At os o base σ) (now os) (λ _. At os o base σ) (End os o base)
  unfolding now
  Ensures-now σ = record { at = λ s h. h }

  reload_step :
      ledger_state o ≡ state_reload_requested → Runs os o base tested reloaded o.nginx_reload_argv
  reload_step leg c r p = (λ q. reload_passed leg p q, λ x q. reload_rejected leg p q)

  skipped : text_eq (ledger_state o) state_applying ≡ true → ledger_state o ≡ state_applying
  skipped h = (text_eq_iff (ledger_state o) state_applying).0 h

  due :
      IsApply o → text_eq (ledger_state o) state_applying ≡ false → ledger_state o ≡ state_requested
  due leg h = ground (arith, text_eq_iff (ledger_state o) state_applying)

  Ensures-run_apply_leg :
      IsApply o
      → Ensures (At os o base rooting) (run_apply_leg os (report os) o) (λ _ _. ⊥) (End os o base)
  unfolding run_apply_leg
  Ensures-run_apply_leg leg = Ensures-bind (Ensures-prepare os o base) λ p.
      Ensures-bind (Ensures-announce p.0 p.1 _ skipped (due leg)) λ _.
        Ensures-bind (Ensures-materialize os o base p.0 p.1)
          λ _. unfold conclude_applied in Ensures-conclude_applied leg

  Ensures-resume :
      (w : Text) (m : Option TlsMaterialization)
      → ledger_state o ≡ state_reload_requested
      → (s : Sys) → At os o base (prepared w m) s
      → At os o base (ready w m) s
  Ensures-resume w m leg s h = Trace.silent h (resumed (inr leg))

  Ensures-run_reload_leg :
      ledger_state o ≡ state_reload_requested
      → Ensures (At os o base rooting) (run_reload_leg os (report os) o) (λ _ _. ⊥) (End os o base)
  unfolding run_reload_leg
  Ensures-run_reload_leg leg = Ensures-bind (Ensures-prepare os o base) λ p.
      Ensures-bind
        (record {
          at = λ s h. (Ensures-materialize os o base p.0 p.1).at s (Ensures-resume p.0 p.1 leg s h);
        })
        λ _.
          Ensures-bind
            (Ensures-run_argv os o base tested reloaded o.nginx_reload_argv (reload_step leg) tt)
            λ r. Ensures-bind (Ensures-need os o base (λ _. At os o base reloaded) _ r) λ _.
              Ensures-bind (Ensures-now reloaded)
                λ at. unfold conclude_reloaded in Ensures-conclude_reloaded at

  apply_leg :
      (text_eq (ledger_state o) state_requested || text_eq (ledger_state o) state_applying) ≡ true
      → IsApply o
  apply_leg h = ground (
    arith,
    text_eq_iff (ledger_state o) state_applying,
    text_eq_iff (ledger_state o) state_requested,
  )

  neither :
      (text_eq (ledger_state o) state_requested || text_eq (ledger_state o) state_applying) ≡ false
      → (ledger_state o ≢ state_requested) × (ledger_state o ≢ state_applying)
  neither h = ground (
    arith,
    text_eq_iff (ledger_state o) state_applying,
    text_eq_iff (ledger_state o) state_requested,
  )

  not_reload :
      text_eq (ledger_state o) state_reload_requested ≡ false
      → ledger_state o ≢ state_reload_requested
  not_reload h = ground (arith, text_eq_iff (ledger_state o) state_reload_requested)

  is_reload :
      text_eq (ledger_state o) state_reload_requested ≡ true
      → ledger_state o ≡ state_reload_requested
  is_reload h = (text_eq_iff (ledger_state o) state_reload_requested).0 h

  Ensures-active :
      {m : M (Unit {0})}
      → IsApply o ⊎ (ledger_state o ≡ state_reload_requested)
      → Ensures (At os o base rooting) m (λ _ _. ⊥) (End os o base)
      → Ensures (At os o base starting) m (λ _ _. ⊥) (End os o base)
  Ensures-active leg h = record { at = λ s t. h.at s (Trace.silent t (active leg)) }

  Ensures-steps :
      Ensures (At os o base starting) (steps os (report os) o) (λ _ _. ⊥) (End os o base)
  unfolding steps
  Ensures-steps =
      Ensures-if
        (text_eq (ledger_state o) state_requested || text_eq (ledger_state o) state_applying)
        (λ h. Ensures-active (inl (apply_leg h)) (Ensures-run_apply_leg (apply_leg h)))
        (λ h.
          Ensures-if (text_eq (ledger_state o) state_reload_requested)
            (λ r. Ensures-active (inr (is_reload r)) (Ensures-run_reload_leg (is_reload r)))
            (λ r.
              Ensures-leave (λ _ _. ⊥) none
                (λ s t. Trace.silent t (idle (neither h).0 (neither h).1 (not_reload r)))))

ended_result :
    ⦃u : Unicode⦄ (os : Os) (o : Options) (base : List Event) (r : Exit (Unit {0})) (t : Sys)
    → Post (λ _ _. ⊥) (End os o base) r t
    → Run os o base (ended (result r)) t.log
unfolding result
ended_result os o base (stop e) t h = h
ended_result os o base (go a) t h = absurd h

-- Whatever the system answers, the receipts, file calls and commands of a run are legal for the
-- protocol, and the run returns the error that the protocol says.
pub converge-refines-protocol :
    ⦃u : Unicode⦄ (os : Os) (o : Options) (s : Sys)
    → Run os o s.log (ended (run os (some (report os)) o s).0) (run os (some (report os)) o s).1.log
unfolding run
converge-refines-protocol os o s =
    ended_result os o s.log _ _ ((Ensures-steps os o s.log).at s (Trace.begin refl))
