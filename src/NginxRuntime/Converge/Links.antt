-- ===== src/NginxRuntime/Converge/Links.antt =====
-- The link, nginx's own commands and the directories, as triples over the protocol.
use releasepanel_agent.Base.{
  ◌≡◌, inl, inr, refl, Bool, true, false, Option, none, some, List, [], ◌∷◌, is_empty, arith,
  Bool-cases,
}
use releasepanel_agent.Text.{Text, text_eq, Unicode}
use releasepanel_agent.System.{
  Os, Sys, Event, executed, Command, ExecReply, touched, Node, file, link, Result, ok, err, pure,
  call, check, exec, ◌>>=◌, remove, symlink_to,
}
use releasepanel_agent.System.Trace
use releasepanel_agent.System.Ensures.{Ensures, Ensures-pure, Ensures-bind, Ensures-leave}
use releasepanel_agent.System.Files.{look, follow}
use releasepanel_agent.System.Atomic.{got}
use releasepanel_agent.NginxRuntime.SiteFiles.{
  ensure_symlink, ensure_symlink_steps, replace_stale, drop_stale,
}
use releasepanel_agent.NginxRuntime.Rows.{Options, argv_outcome, executable, run_program, run_argv}
use releasepanel_agent.NginxRuntime.Converge.Receipts.{At, If, When}
use releasepanel_agent.NginxRuntime.Converge.Writes.{Ensures-touched, call_Post}
use releasepanel_agent.NginxRuntime.Protocol.{
  Stage, placed, linked, broken, Step, cleaned, made_link, no_link, kept_link, IsOpen,
}

executable_words :
    (argv : List Text) (c : Text × List Text) → executable argv ≡ some c → c.0 ∷ c.1 ≡ argv
unfolding executable
executable_words [] c h = ground arith
executable_words (program ∷ args) c h = ground arith

module _ ⦃u : Unicode⦄ (os : Os) (o : Options) (base : List Event) where
  module _ (tmp a e : Text) where
    -- How `EnsureSymlink` ends: the link is there, or the run is stuck.
    abbrev Ended : Option Text → Sys → Type 0
    Ended = If os o base (At os o base linked)

    abbrev AtPlaced : Sys → Type 0
    AtPlaced s = At os o base (placed tmp a e) s

    -- A call that only asks.
    Ensures-look : (p : Text) → Ensures AtPlaced (look os p) (λ _. AtPlaced) Ended
    unfolding look
    Ensures-look p = record { at = λ s h. h }

    Ensures-follow : (p : Text) → Ensures AtPlaced (follow os p) (λ _. AtPlaced) Ended
    unfolding follow
    Ensures-follow p = record { at = λ s h. h }

    Ensures-got : {A : Type 0} (r : Result A) → Ensures AtPlaced (got r) (λ _. AtPlaced) Ended
    unfolding got
    Ensures-got (ok v) = Ensures-pure v (λ s h. h)
    Ensures-got (err x) = Ensures-leave (λ _. AtPlaced) (some x) (λ s h. (placed tmp a e, tt, h))

    Ensures-check : (x : Option Text) → Ensures AtPlaced (check x) (λ _. AtPlaced) Ended
    unfolding check
    Ensures-check none = Ensures-pure tt (λ s h. h)
    Ensures-check (some x) = Ensures-leave (λ _. AtPlaced) (some x) (λ s h. (placed tmp a e, tt, h))

    Ensures-drop_stale :
        (same : Bool) → Ensures AtPlaced (drop_stale os e same) (λ _. AtPlaced) Ended
    unfolding drop_stale
    Ensures-drop_stale true = Ensures-leave (λ _. AtPlaced) none (λ s h. Trace.silent h kept_link)
    Ensures-drop_stale false =
        Ensures-bind
          (Ensures-touched os o base (remove e) (λ _. placed tmp a e) (λ x. cleaned (inr refl)))
          Ensures-check

    Ensures-replace_stale :
        (n : Option Node) → Ensures AtPlaced (replace_stale os e a n) (λ _. AtPlaced) Ended
    unfolding replace_stale
    Ensures-replace_stale none = Ensures-pure tt (λ s h. h)
    Ensures-replace_stale (some (file content mode)) =
        Ensures-leave (λ _. AtPlaced) _ (λ s h. (placed tmp a e, tt, h))
    Ensures-replace_stale (some (link old)) =
        Ensures-bind (Ensures-follow e)
          λ r. Ensures-bind (Ensures-got r) λ cur. Ensures-drop_stale (text_eq cur a)

    after_link : Option Text → Stage
    after_link none = linked
    after_link (some x) = broken

    link_step :
        (x : Option Text) → Step os o (placed tmp a e) (touched (symlink_to a e) x) (after_link x)
    unfolding after_link
    link_step none = made_link
    link_step (some x) = no_link

    Ended-of : (x : Option Text) (s : Sys) → At os o base (after_link x) s → Ended x s
    unfolding after_link
    Ended-of none s h = h
    Ended-of (some x) s h = (broken, tt, h)

    Ensures-steps : Ensures AtPlaced (ensure_symlink_steps os e a) (λ _ _. ⊥) Ended
    unfolding ensure_symlink_steps
    Ensures-steps = Ensures-bind (Ensures-look e) λ r. Ensures-bind (Ensures-got r) λ n.
        Ensures-bind (Ensures-replace_stale n) λ _.
          Ensures-bind (Ensures-touched os o base (symlink_to a e) after_link link_step)
            λ x. Ensures-leave (λ _ _. ⊥) x (Ended-of x)

    pub Ensures-ensure_symlink :
        {R : Option Text → Sys → Type 0}
        → Ensures AtPlaced (ensure_symlink os e a) (If os o base (At os o base linked)) R
    unfolding ensure_symlink call
    Ensures-ensure_symlink {R = R} = record {
      at = λ s h. call_Post R Ended _ _ (Ensures-steps.at s h);
    }

  module _ (σ τ : Stage) (argv : List Text) where
    -- What the protocol says of the command at `σ`.
    abbrev pub Runs : Type 0
    Runs =
        (c : Command) (r : ExecReply)
        → c.path ∷ c.args ≡ argv
        → (r.error ≡ none → Step os o σ (executed c r) τ)
          × ((x : Text) → r.error ≡ some x → Step os o σ (executed c r) broken)

    outcome_At :
        (c : Command) (r : ExecReply) (out : Text) (s t : Sys) (x : Option Text)
        → Runs
        → c.path ∷ c.args ≡ argv
        → r.error ≡ x
        → At os o base σ s
        → t.log ≡ executed c r ∷ s.log
        → When os o base (λ _. At os o base τ) (argv_outcome out x) t
    unfolding argv_outcome
    outcome_At c r out s t none k p q h e = rw e (Trace.step h ((k c r p).0 q))
    outcome_At c r out s t (some x) k p q h e = elim (Bool-cases (is_empty out)) [
      | inl b ↦ rw b (broken, tt, rw e (Trace.step h ((k c r p).1 x q)))
      | inr b ↦ rw b (broken, tt, rw e (Trace.step h ((k c r p).1 x q)))
    ]

    program_At :
        {R : Option Text → Sys → Type 0} (p : Option (Text × List Text))
        → Runs
        → ((c : Text × List Text) → p ≡ some c → c.0 ∷ c.1 ≡ argv)
        → IsOpen σ
        → Ensures (At os o base σ) (run_program os p) (When os o base (λ _. At os o base τ)) R
    unfolding run_program exec ◌>>=◌ pure
    program_At none k q may = record { at = λ s h. (σ, may, h) }
    program_At (some (program, args)) k q may = record {
      at = λ s h. outcome_At _ _ _ s _ _ k (q (program, args) refl) refl h refl;
    }

    pub Ensures-run_argv :
        {R : Option Text → Sys → Type 0}
        → Runs
        → IsOpen σ
        → Ensures (At os o base σ) (run_argv os argv) (When os o base (λ _. At os o base τ)) R
    unfolding run_argv
    Ensures-run_argv k may = program_At (executable argv) k (executable_words argv) may
