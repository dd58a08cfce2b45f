-- ===== src/NginxRuntime/Converge/Writes.antt =====
-- The file calls of both legs, as triples over the protocol.
use releasepanel_agent.Base.{◌≡◌, inl, refl, Option, none, some, List, ◌∷◌}
use releasepanel_agent.Text.{Text, codes, Unicode}
use releasepanel_agent.FilePath.{dir}
use releasepanel_agent.System.{
  Os, Sys, Event, touched, FileCall, Result, ok, err, Exit, stop, go, call, result, deferred, check,
  mkdir_all, create_temp, remove, rename,
}
use releasepanel_agent.System.Trace
use releasepanel_agent.System.Ensures.{Ensures, Post, Ensures-pure, Ensures-bind, Ensures-leave}
use releasepanel_agent.System.Files.{touch, make_temp, created}
use releasepanel_agent.System.Atomic.{
  got, close_and_check, write_encoded, fill_and_rename, replace_file,
}
use releasepanel_agent.NginxRuntime.SiteFiles.{write_atomic_file}
use releasepanel_agent.NginxRuntime.Rows.{Options}
use releasepanel_agent.NginxRuntime.Converge.Receipts.{At, If, When}
use releasepanel_agent.NginxRuntime.Protocol.{
  Stage, writing, filling, placed, linked, broken, IsOpen, IsFilling, writes, syncs, closes,
  sets_mode, removes, Step, made, not_created, filled, renamed, not_renamed, cleaned, made_link,
  no_link, kept_link,
}
use releasepanel_agent.NginxRuntime.Protocol

-- A whole function as a call.
pub call_Post :
    (R W : Option Text → Sys → Type 0) (r : Exit (Unit {0})) (t : Sys)
    → Post (λ _ _. ⊥) W r t
    → Post W R (go (result r)) t
unfolding result
call_Post R W (stop x) t h = h
call_Post R W (go v) t h = absurd h

module _ ⦃u : Unicode⦄ (os : Os) (o : Options) (base : List Event) where
  pub Ensures-touched :
      {R : Option Text → Sys → Type 0} {σ : Stage} (c : FileCall) (τ : Option Text → Stage)
      → ((x : Option Text) → Step os o σ (touched c x) (τ x))
      → Ensures (At os o base σ) (touch os c) (λ x. At os o base (τ x)) R
  unfolding touch
  Ensures-touched c τ st = record { at = λ s h. Trace.step h (st _) }

  module _ (a e conf : Text) where
    abbrev Placed : Text → Sys → Type 0
    Placed tmp s = At os o base (placed tmp a e) s

    -- The end of a function that fills `tmp`.
    abbrev Filled : Text → Option Text → Sys → Type 0
    Filled tmp none s = At os o base (placed tmp a e) s
    Filled tmp (some x) s = At os o base (filling tmp a e conf) s

    Ensures-filling :
        (tmp : Text) {c : FileCall}
        → IsFilling tmp conf c
        → Ensures
            (At os o base (filling tmp a e conf))
            (touch os c)
            (λ _. At os o base (filling tmp a e conf))
            (Filled tmp)
    Ensures-filling tmp {c} is = Ensures-touched c (λ _. filling tmp a e conf) (λ x. filled is)

    Ensures-close_and_check :
        (tmp : Text) (x : Option Text)
        → Ensures
            (At os o base (filling tmp a e conf))
            (close_and_check os tmp x)
            (λ _. At os o base (filling tmp a e conf))
            (Filled tmp)
    unfolding close_and_check
    Ensures-close_and_check tmp none = Ensures-pure tt (λ s h. h)
    Ensures-close_and_check tmp (some x) =
        Ensures-bind (Ensures-filling tmp closes)
          λ _. Ensures-leave (λ _. At os o base (filling tmp a e conf)) (some x) (λ s h. h)

    Ensures-check :
        (tmp : Text) (x : Option Text)
        → Ensures
            (At os o base (filling tmp a e conf))
            (check x)
            (λ _. At os o base (filling tmp a e conf))
            (Filled tmp)
    unfolding check
    Ensures-check tmp none = Ensures-pure tt (λ s h. h)
    Ensures-check tmp (some x) =
        Ensures-leave (λ _. At os o base (filling tmp a e conf)) (some x) (λ s h. h)

    after_rename : Text → Option Text → Stage
    after_rename tmp none = placed tmp a e
    after_rename tmp (some x) = filling tmp a e conf

    rename_step :
        (tmp : Text) (x : Option Text)
        → Step os o (filling tmp a e conf) (touched (rename tmp a) x) (after_rename tmp x)
    unfolding after_rename
    rename_step tmp none = renamed
    rename_step tmp (some x) = not_renamed

    Filled-of :
        (tmp : Text) (x : Option Text) (s : Sys)
        → At os o base (after_rename tmp x) s
        → Filled tmp x s
    unfolding after_rename
    Filled-of tmp none s h = h
    Filled-of tmp (some x) s h = h

    Ensures-fill_and_rename :
        (tmp : Text)
        → Ensures
            (At os o base (filling tmp a e conf))
            (fill_and_rename os 0o644 a (ok conf) tmp)
            (λ _ _. ⊥)
            (Filled tmp)
    unfolding fill_and_rename write_encoded
    Ensures-fill_and_rename tmp = Ensures-bind (Ensures-filling tmp writes) λ x.
        Ensures-bind (Ensures-close_and_check tmp x) λ _.
          Ensures-bind (Ensures-filling tmp syncs) λ x.
            Ensures-bind (Ensures-close_and_check tmp x) λ _.
              Ensures-bind (Ensures-filling tmp closes) λ x. Ensures-bind (Ensures-check tmp x) λ _.
                Ensures-bind (Ensures-filling tmp sets_mode) λ x.
                  Ensures-bind (Ensures-check tmp x) λ _.
                    Ensures-bind
                      (Ensures-touched (rename tmp a) (after_rename tmp) (rename_step tmp))
                      λ x. Ensures-leave (λ _ _. ⊥) x (Filled-of tmp x)

    -- How the whole function ends: a file is placed, or the run is stuck.
    abbrev Wrote : Option Text → Sys → Type 0
    Wrote = If os o base (λ s. (tmp : Text) × At os o base (placed tmp a e) s)

    cleaned_exit :
        (tmp : Text) (r : Exit (Unit {0})) (s : Sys)
        → Post (λ _ _. ⊥) (Filled tmp) r s
        → Post (λ _ _. ⊥) Wrote r (touch os (remove tmp) s).1
    unfolding touch
    cleaned_exit tmp (stop none) s h = (tmp, Trace.step h (cleaned (inl refl)))
    cleaned_exit tmp (stop (some x)) s h = (filling tmp a e conf, tt, Trace.step h (filled removes))
    cleaned_exit tmp (go v) s h = absurd h

    Ensures-deferred :
        (tmp : Text)
        → Ensures
            (At os o base (filling tmp a e conf))
            (deferred (touch os (remove tmp)) (fill_and_rename os 0o644 a (ok conf) tmp))
            (λ _ _. ⊥)
            Wrote
    unfolding deferred
    Ensures-deferred tmp = record {
      at = λ s h. cleaned_exit tmp _ _ ((Ensures-fill_and_rename tmp).at s h);
    }

    created-At :
        (s t : Sys) (tmp : Text) (x : Option Text)
        → At os o base (writing a e conf) s
        → Protocol.IsTempName os (dir a) tmp
        → t.log ≡ touched (create_temp tmp) x ∷ s.log
        → When os o base (λ tmp. At os o base (filling tmp a e conf)) (created os tmp x) t
    unfolding created
    created-At s t tmp none h n q = rw q (Trace.step h (Protocol.created n))
    created-At s t tmp (some x) h n q = (broken, tt, rw q (Trace.step h (not_created n)))

    Ensures-make_temp :
        Ensures
          (At os o base (writing a e conf))
          (make_temp os (dir a) (codes ".rp-nginx-*"))
          (When os o base (λ t. At os o base (filling t a e conf)))
          Wrote
    unfolding make_temp
    Ensures-make_temp = record { at = λ s h. created-At s _ _ _ h (s, refl) refl }

    Ensures-made :
        (x : Option Text)
        → Ensures
            (At os o base (writing a e conf))
            (check x)
            (λ _. At os o base (writing a e conf))
            Wrote
    unfolding check
    Ensures-made none = Ensures-pure tt (λ s h. h)
    Ensures-made (some x) =
        Ensures-leave (λ _. At os o base (writing a e conf)) (some x)
          (λ s h. (writing a e conf, tt, h))

    Ensures-got :
        (r : Result Text)
        → Ensures
            (When os o base (λ t. At os o base (filling t a e conf)) r)
            (got r)
            (λ t. At os o base (filling t a e conf))
            Wrote
    unfolding got
    Ensures-got (ok tmp) = Ensures-pure tmp (λ s h. h)
    Ensures-got (err x) = Ensures-leave (λ t. At os o base (filling t a e conf)) (some x) (λ s h. h)

    Ensures-replace_file :
        Ensures
          (At os o base (writing a e conf))
          (replace_file os (codes ".rp-nginx-*") 0o644 a (ok conf))
          (λ _ _. ⊥)
          Wrote
    unfolding replace_file
    Ensures-replace_file =
        Ensures-bind (Ensures-touched (mkdir_all (dir a)) (λ _. writing a e conf) (λ x. made)) λ x.
          Ensures-bind (Ensures-made x) λ _.
            Ensures-bind Ensures-make_temp
              λ r. Ensures-bind (Ensures-got r) λ tmp. Ensures-deferred tmp

    pub Ensures-write_atomic_file :
        {R : Option Text → Sys → Type 0}
        → Ensures
            (At os o base (writing a e conf))
            (write_atomic_file os a conf)
            (If os o base (λ s. (tmp : Text) × At os o base (placed tmp a e) s))
            R
    unfolding write_atomic_file call
    Ensures-write_atomic_file {R = R} = record {
      at = λ s h. call_Post R Wrote _ _ (Ensures-replace_file.at s h);
    }
