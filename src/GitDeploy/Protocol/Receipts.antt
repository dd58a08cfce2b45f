-- ===== src/GitDeploy/Protocol/Receipts.antt =====
-- The receipts of a run advance, and its last one decides what the run returns.
use releasepanel_agent.Base.{
  ℕ, ◌≤◌, ◌<◌, ◌≡◌, ◌≢◌, ◌⊎◌, inl, inr, refl, Option, none, some, List, [], ◌∷◌, ◌++◌, arith,
  if◌then◌else◌,
}
use releasepanel_agent.Text.{Text, text_eq, text_eq_iff, Unicode}
use releasepanel_agent.Api.{SiteRuntimeReportRow}
use releasepanel_agent.System.Trace
use releasepanel_agent.System.{
  Event, reported, executed, touched, Command, ExecReply, Os, Sys, report,
}
use releasepanel_agent.GitDeploy.Rows.{
  state_fetching, state_fetched, state_applying, state_applied, state_failed,
}
use releasepanel_agent.GitDeploy.Git.Exists.{HasStatTexts}
use releasepanel_agent.GitDeploy.Executor.{Options, ledger_state, run}
use releasepanel_agent.GitDeploy.Executor.Refines.{run-refines-protocol}
use releasepanel_agent.GitDeploy.Protocol.{
  Stage, starting, fetching, downloaded, fetched, applying, targeted, reset_to, at_head, observed,
  broken, ended, Work, after, Due, promoted, Step, accepted, refused, gave_up, succeeded, failed,
  applied, Silent, skip_fetching, skip_fetched, newest, IsOpen,
}

-- The place of a state in the order of convergence.
unfoldable pub rank : Text → ℕ
rank state =
    if text_eq state state_fetching
    then 1
    else if text_eq state state_fetched
    then 2
    else if text_eq state state_applying
    then 3
    else if text_eq state state_applied
    then 4
    else if text_eq state state_failed
    then 5
    else 0

abbrev pub ranks : List Event → List ℕ
ranks [] = []
ranks (reported row e ∷ l) = rank row.repository_deploy_state ∷ ranks l
ranks (executed c r ∷ l) = ranks l
ranks (touched c e ∷ l) = ranks l

-- The newest rank first, each above the one before it; the oldest is the given one or that of a
-- failure.
abbrev pub IsRising : ℕ → List ℕ → Type 0
IsRising lo [] = Unit
IsRising lo (r ∷ []) = (r ≡ lo) ⊎ (r ≡ 5)
IsRising lo (r ∷ q ∷ rs) = (q < r) × IsRising lo (q ∷ rs)

-- Where the receipts of a run set in: a ledger that is fetched or applying is resumed there; any
-- other, also one that is applied or failed, starts again from fetching.
pub ledger_floor : ⦃u : Unicode⦄ → Options → ℕ
ledger_floor o =
    if text_eq (ledger_state o) state_fetched
    then 2
    else if text_eq (ledger_state o) state_applying
    then 3
    else 1

abbrev IsBelow : ℕ → List ℕ → Type 0
IsBelow b [] = Unit
IsBelow b (r ∷ rs) = r < b

IsRising-cons :
    (lo r : ℕ) (rs : List ℕ)
    → (rs ≡ [] → (r ≡ lo) ⊎ (r ≡ 5))
    → IsBelow r rs
    → IsRising lo rs
    → IsRising lo (r ∷ rs)
IsRising-cons lo r [] first below h = first refl
IsRising-cons lo r (q ∷ rs) first below h = (below, h)

IsBelow-mono : (a b : ℕ) (rs : List ℕ) → a ≤ b → IsBelow a rs → IsBelow b rs
IsBelow-mono a b [] le h = tt
IsBelow-mono a b (r ∷ rs) le h = omega arith

-- Every receipt until a stage has a rank below this.
bound : Stage → ℕ
bound starting = 1
bound fetching = 2
bound downloaded = 2
bound fetched = 3
bound (ended e) = 6
bound _ = 4

-- A stage that is reached without a receipt is one that the ledger is not behind.
reached : Stage → ℕ
reached broken = 0
reached σ = bound σ

module _ ⦃u : Unicode⦄ (o : Options) where
  Advances : Stage → List Event → Type 0
  Advances σ new =
      IsRising (ledger_floor o) (ranks new)
      × IsBelow (bound σ) (ranks new)
      × (ranks new ≡ [] → reached σ ≤ ledger_floor o)

  ledger_floor_le :
      (1 ≤ ledger_floor o)
      × (ledger_floor o ≤ 3)
      × (ledger_state o ≢ state_applying → ledger_floor o ≤ 2)
      × (ledger_state o ≢ state_fetched → ledger_state o ≢ state_applying → ledger_floor o ≤ 1)
  unfolding ledger_floor
  ledger_floor_le = (
    ground arith,
    ground arith,
    λ a. ground (arith, text_eq_iff (ledger_state o) state_applying),
    λ f a. ground (
      arith,
      text_eq_iff (ledger_state o) state_fetched,
      text_eq_iff (ledger_state o) state_applying,
    ),
  )

  Due-rank :
      (σ : Stage) (state : Text)
      → Due o σ state
      → (reached σ ≤ ledger_floor o → rank state ≡ ledger_floor o)
        × (bound σ ≤ rank state)
        × (rank state < bound (promoted o σ))
        × (rank state < 6)
  unfolding bound reached rank text_eq
  Due-rank starting state due = rw due.0 (
    λ h. omega (arith, ledger_floor_le.0, ledger_floor_le.3 due.2 due.3),
    omega arith,
    omega arith,
    omega arith,
  )
  Due-rank downloaded state due =
      rw due.0
        (λ h. omega (arith, h, ledger_floor_le.2 due.1), omega arith, omega arith, omega arith)
  Due-rank fetched state due =
      rw due (λ h. omega (arith, h, ledger_floor_le.1), omega arith, omega arith, omega arith)
  Due-rank _ state due = absurd due

  last_rank : (state : Text) → state ≡ state_applied → (4 ≤ rank state) × (rank state < 6)
  unfolding rank text_eq
  last_rank state e = rw e (omega arith, omega arith)

  failed_rank : (state : Text) → state ≡ state_failed → rank state ≡ 5
  unfolding rank text_eq
  failed_rank state e = rw e

  bound_open : (σ : Stage) → IsOpen σ → bound σ ≤ 4
  unfolding bound
  bound_open (ended e) may = elim may [ ]
  bound_open starting may = omega arith
  bound_open fetching may = omega arith
  bound_open downloaded may = omega arith
  bound_open fetched may = omega arith
  bound_open applying may = omega arith
  bound_open (targeted t) may = omega arith
  bound_open (reset_to t) may = omega arith
  bound_open at_head may = omega arith
  bound_open (observed t) may = omega arith
  bound_open broken may = omega arith

  Work-bound :
      (σ : Stage) (d : Text) (args : List Text) (out : Text)
      → Work o σ d args
      → (bound σ ≤ bound (after o σ out)) × (bound σ ≤ bound broken)
  unfolding bound
  Work-bound fetching d args out w = (omega arith, omega arith)
  Work-bound applying d args out w = (omega arith, omega arith)
  Work-bound (targeted t) d args out w = (omega arith, omega arith)
  Work-bound (reset_to t) d args out w = (omega arith, omega arith)
  Work-bound at_head d args out w = (omega arith, omega arith)
  Work-bound _ d args out w = absurd w

  received :
      (σ : Stage) (b : ℕ) (row : SiteRuntimeReportRow) (e : Option Text) (new : List Event)
      → (reached σ ≤ ledger_floor o
          → (rank row.repository_deploy_state ≡ ledger_floor o)
            ⊎ (rank row.repository_deploy_state ≡ 5))
      → bound σ ≤ rank row.repository_deploy_state
      → rank row.repository_deploy_state < b
      → Advances σ new
      → IsRising (ledger_floor o) (ranks (reported row e ∷ new))
        × IsBelow b (ranks (reported row e ∷ new))
  unfolding Advances
  received σ b row e new first up lt h = (
    IsRising-cons _ _ (ranks new) (λ q. first (h.2 q)) (IsBelow-mono _ _ (ranks new) up h.1) h.0,
    lt,
  )

  -- With a receipt the stage is not reached without one.
  closed :
      (σ : Stage) (row : SiteRuntimeReportRow) (e : Option Text) (new : List Event)
      → IsRising (ledger_floor o) (ranks (reported row e ∷ new))
        × IsBelow (bound σ) (ranks (reported row e ∷ new))
      → Advances σ (reported row e ∷ new)
  unfolding Advances
  closed σ row e new h = (h.0, h.1, λ q. ground arith)

  Work-reached :
      (σ : Stage) (d : Text) (args : List Text) (out : Text)
      → Work o σ d args
      → reached (after o σ out) ≤ reached σ
  unfolding reached bound
  Work-reached fetching d args out w = omega arith
  Work-reached applying d args out w = omega arith
  Work-reached (targeted t) d args out w = omega arith
  Work-reached (reset_to t) d args out w = omega arith
  Work-reached at_head d args out w = omega arith
  Work-reached _ d args out w = absurd w

  late : (out : Text) → reached (observed out) ≤ ledger_floor o → 4 ≤ ledger_floor o
  unfolding reached bound
  late out h = h

  worked :
      (σ : Stage) (new : List Event) (out : Text) (c : Command) (r : ExecReply)
      → Work o σ c.work_dir c.args
      → Advances σ new
      → Advances (after o σ out) (executed c r ∷ new)
  unfolding Advances
  worked σ new out c r w h = (
    h.0,
    IsBelow-mono _ _ (ranks new) (Work-bound σ _ _ out w).0 h.1,
    λ q. omega (arith, Work-reached σ _ _ out w, h.2 q),
  )

  gave_in :
      (σ : Stage) (new : List Event) (c : Command) (r : ExecReply)
      → Work o σ c.work_dir c.args
      → Advances σ new
      → Advances broken (executed c r ∷ new)
  unfolding Advances reached
  gave_in σ new c r w h =
      (h.0, IsBelow-mono _ _ (ranks new) (Work-bound σ _ _ [] w).1 h.1, λ q. omega arith)

  past_floor :
      ((ledger_state o ≡ state_fetched) ⊎ (ledger_state o ≡ state_applying) → 2 ≤ ledger_floor o)
      × (ledger_state o ≡ state_applying → 3 ≤ ledger_floor o)
  unfolding ledger_floor text_eq
  past_floor = (past, λ h. rw h (omega arith))
    where
      past :
          (ledger_state o ≡ state_fetched) ⊎ (ledger_state o ≡ state_applying) → 2 ≤ ledger_floor o
      past (inl h) = rw h (omega arith)
      past (inr h) = rw h (omega arith)

  step-Advances :
      (σ τ : Stage) (e : Event) (new : List Event)
      → Step o σ e τ
      → Advances σ new
      → Advances τ (e ∷ new)
  unfolding bound
  step-Advances σ τ e new (accepted {row} r due) h =
      let (first, up, lt, top) = Due-rank σ row.repository_deploy_state due in
      closed _ row none new (received σ _ row none new (λ q. inl (first q)) up lt h)
  step-Advances σ τ e new (refused {row} {e = x} r due) h =
      let (first, up, lt, top) = Due-rank σ row.repository_deploy_state due in
      closed _ row (some x) new (received σ 6 row (some x) new (λ q. inl (first q)) up top h)
  step-Advances σ τ e new (gave_up {row} {e = x} may f) h =
      let rank_eq = failed_rank _ f.is_failed in
      closed _ row x new (
        received σ 6 row x new (λ q. inr rank_eq) (omega (arith, bound_open σ may, rank_eq))
          (omega (arith, rank_eq)) h)
  step-Advances σ τ e new (succeeded {c} {r} w q) h = worked σ new _ c r w h
  step-Advances σ τ e new (failed {c} {r} w q) h = gave_in σ new c r w h
  step-Advances σ τ e new (applied {out} {row} {e = x} a) h =
      let (low, high) = last_rank _ a.is_applied in
      closed _ row x new (
        received (observed out) 6 row x new
          (λ q. absurd (omega (arith, late out q, ledger_floor_le.1))) low high h)

  silent-Advances :
      (σ τ : Stage) (new : List Event) → Silent o σ τ → Advances σ new → Advances τ new
  unfolding Advances bound reached
  silent-Advances σ τ new (skip_fetching past checked) h =
      (h.0, IsBelow-mono 1 2 (ranks new) (omega arith) h.1, λ q. past_floor.0 past)
  silent-Advances σ τ new (skip_fetched past) h =
      (h.0, IsBelow-mono 2 3 (ranks new) (omega arith) h.1, λ q. past_floor.1 past)
  silent-Advances σ τ new (newest e t) h = h

  -- The receipts of a run move forward only: each state comes later in the order fetching,
  -- fetched, applying, applied, failed than the one before it. The first one says failed, or it is
  -- exactly the one at which the ledger is taken up: fetched for a ledger that is fetched, applying
  -- for one that is applying, and fetching for any other, also one that is applied or failed. The
  -- hypothesis is that the errors of `os.Stat` have a message.
  pub run-IsRising :
      (os : Os) (s : Sys)
      → HasStatTexts os
      → (new : List Event) × ((run os (some (report os)) o s).1.log ≡ new ++ s.log)
        × IsRising (ledger_floor o) (ranks new)
  unfolding Advances reached bound
  run-IsRising os s texts =
      let (new, split, h) =
        Trace.Trace-induction starting (Step o) (Silent o) s.log Advances
          (tt, tt, λ q. ledger_floor_le.0) step-Advances silent-Advances
          (run-refines-protocol os o s texts) in
      (new, split, h.0)
