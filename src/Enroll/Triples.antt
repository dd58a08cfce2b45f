-- ===== src/Enroll/Triples.antt =====
-- Rules for the calls of internal/enroll/enroll.go: one on each side of its machine.
use releasepanel_agent.Base.{◌≡◌, refl, arith, Option, none, some, List, [], ◌∷◌}
use releasepanel_agent.Text.{Text}
use releasepanel_agent.System.{
  Os, Sys, M, Disk, Result, ok, err, Exit, go, stop, Action, check, result, mkdir_all,
}
use releasepanel_agent.System.Ensures.{
  Ensures, Ensures-bind, Ensures-pure, Ensures-leave, Ensures-either,
}
use releasepanel_agent.System.Files.{perform, spoil}
use releasepanel_agent.System.Atomic.Replaces.{Ensures-touch}
use releasepanel_agent.Central.{Wire}
use releasepanel_agent.State.{ensure_tree, check_dir}
use releasepanel_agent.Enroll.{Machine, on_sys, on_wire, answer_of, or_leave, wrapped}

module _ (os : Os) (disk : Disk) where
  ensure_tree-Ensures :
      (ds : List Text)
      → Ensures
          (λ s. s.disk ≡ disk)
          (ensure_tree os ds)
          (λ _ s. s.disk ≡ disk)
          (λ e s. s.disk ≡ disk)
  unfolding ensure_tree perform spoil
  ensure_tree-Ensures [] = Ensures-pure tt (λ s q. q)
  ensure_tree-Ensures (d ∷ ds) =
      Ensures-bind
        (Ensures-touch os (mkdir_all d) (λ _ s. s.disk ≡ disk) (λ s t q e. cc) (λ s t x q e. cc))
        λ e. Ensures-bind (made e) λ _. ensure_tree-Ensures ds
    where
      made :
          (e : Option Text)
          → Ensures
              (λ s. s.disk ≡ disk)
              (check_dir os d e)
              (λ _ s. s.disk ≡ disk)
              (λ x s. s.disk ≡ disk)
      made none = Ensures-pure tt (λ s q. q)
      made (some x) = Ensures-leave _ _ (λ s q. q)

  pub ensure_tree-disk :
      (ds : List Text) (s : Sys) → s.disk ≡ disk → (ensure_tree os ds s).1.disk ≡ disk
  ensure_tree-disk ds s q = Ensures-either (ensure_tree-Ensures ds) s q (λ a e h. h) (λ e x h. h)

-- A call on the files, in the larger state.
pub on_sys-Ensures :
    {A : Type 0} (m : M A) (w : Machine) {R : Option Text → Machine → Type 0}
    → Ensures
        (λ v. v ≡ w)
        (on_sys m)
        (λ e v. (v ≡ record w { sys = (m w.sys).1 }) × (e ≡ result (m w.sys).0))
        R
unfolding on_sys
on_sys-Ensures m w = record { at = λ v q. rw q (refl, refl) }

pub on_wire-Ensures :
    {A : Type 0} (m : Action Wire A) (w : Machine) {R : Option Text → Machine → Type 0}
    → Ensures
        (λ v. v ≡ w)
        (on_wire m)
        (λ r v. (v ≡ record w { wire = (m w.wire).1 }) × (r ≡ answer_of (m w.wire).0))
        R
unfolding on_wire
on_wire-Ensures m w = record { at = λ v q. rw q (refl, refl) }

pub or_leave-Ensures :
    {A : Type 0} {P : Machine → Type 0} {R : Option Text → Machine → Type 0} (wrap : Text → Text)
    (r : Result A)
    → ((e : Text) → r ≡ err e → (v : Machine) → P v → R (some (wrap e)) v)
    → Ensures P (or_leave wrap r) (λ a v. P v × (r ≡ ok a)) R
unfolding or_leave
or_leave-Ensures wrap (ok a) k = Ensures-pure a (λ v p. (p, refl))
or_leave-Ensures wrap (err e) k = Ensures-leave _ (some (wrap e)) (k e refl)

pub answer_of_lem : {A : Type 0} (x : Exit A) (a : A) → answer_of x ≡ ok a → x ≡ go a
unfolding answer_of
answer_of_lem (go b) a h = ground arith
answer_of_lem (stop none) a h = ground arith
answer_of_lem (stop (some e)) a h = ground arith

pub check-Ensures :
    {P : Machine → Type 0} {R : Option Text → Machine → Type 0} (e : Option Text)
    → ((t : Text) → e ≡ some t → (v : Machine) → P v → R (some t) v)
    → Ensures P (check e) (λ a v. P v × (e ≡ none)) R
unfolding check
check-Ensures none k = Ensures-pure tt (λ v p. (p, refl))
check-Ensures (some t) k = Ensures-leave _ (some t) (k t refl)

wrapped-none : (message : Text) (e : Option Text) → wrapped message e ≡ none → e ≡ none
unfolding wrapped
wrapped-none message none h = refl
wrapped-none message (some e) h = ground arith
