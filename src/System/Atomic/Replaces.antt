-- ===== src/System/Atomic/Replaces.antt =====
-- The replacement is all or nothing.
use releasepanel_agent.Base.{ℕ, ◌≡◌, ◌≢◌, refl, sym, ◌∙◌, ap, Option, none, some, [], ◌∷◌, arith}
use releasepanel_agent.Text.{Text, text_eq_iff}
use releasepanel_agent.System.{
  Os, Sys, M, Disk, Node, file, FileCall, Result, ok, err, Exit, stop, go, deferred, check, sync,
  close, remove, write, chmod, rename, touched,
}
use releasepanel_agent.System.Ensures.{Ensures, Post, Ensures-bind, Ensures-pure, Ensures-leave}
use releasepanel_agent.System.Files.{touch, update, perform, spoil, settle, appended, with_mode}
use releasepanel_agent.System.Atomic.{close_and_check, write_encoded, fill_and_rename}

pub update_same : (d : Disk) (p : Text) (v : Option Node) → update d p v p ≡ v
unfolding update
update_same d p v = ground (arith, text_eq_iff p p)

pub update_other : (d : Disk) (p q : Text) (v : Option Node) → q ≢ p → update d p v q ≡ d q
unfolding update
update_other d p q v n = ground (arith, text_eq_iff q p)

module _ (os : Os) (c : FileCall) where
  touched_Post :
      (P : Sys → Type 0) (Q : Option Text → Sys → Type 0) (s : Sys) (e : Option Text)
      → P s
      → ((s t : Sys) → P s → t.disk ≡ perform c s.disk → Q none t)
      → ((s t : Sys) (e : Text) → P s → t.disk ≡ spoil (os.partial s) c s.disk → Q (some e) t)
      → Q e (record s { disk = settle (os.partial s) c e s.disk; log = touched c e ∷ s.log })
  unfolding settle
  touched_Post P Q s none p done failed = done s _ p refl
  touched_Post P Q s (some e) p done failed = failed s _ e p refl

  pub Ensures-touch :
      {P : Sys → Type 0} (Q : Option Text → Sys → Type 0) {R : Option Text → Sys → Type 0}
      → ((s t : Sys) → P s → t.disk ≡ perform c s.disk → Q none t)
      → ((s t : Sys) (e : Text) → P s → t.disk ≡ spoil (os.partial s) c s.disk → Q (some e) t)
      → Ensures P (touch os c) Q R
  unfolding touch
  Ensures-touch {P} Q done failed = record { at = λ s p. touched_Post P Q s _ p done failed }

-- A call that changes nothing but what stands at `tmp`, and how it changes that.
record IsOn (tmp : Text) (c : FileCall) (f : Option Node → Option Node) : Type 0 where
  at_temp : (d : Disk) → perform c d tmp ≡ f (d tmp)
  elsewhere : (d : Disk) (q : Text) → q ≢ tmp → perform c d q ≡ d q
  spoils : (n : ℕ) (d : Disk) (q : Text) → q ≢ tmp → spoil n c d q ≡ d q

write-IsOn : (tmp t : Text) → IsOn tmp (write tmp t) (appended t)
unfolding perform spoil
write-IsOn tmp t = record {
  at_temp = λ d. update_same d tmp _;
  elsewhere = λ d q n. update_other d tmp q _ n;
  spoils = λ k d q n. update_other d tmp q _ n;
}

sync-IsOn : (tmp : Text) → IsOn tmp (sync tmp) (λ v. v)
unfolding perform spoil
sync-IsOn tmp = record { at_temp = λ d. refl; elsewhere = λ d q n. refl; spoils = λ k d q n. refl }

close-IsOn : (tmp : Text) → IsOn tmp (close tmp) (λ v. v)
unfolding perform spoil
close-IsOn tmp = record { at_temp = λ d. refl; elsewhere = λ d q n. refl; spoils = λ k d q n. refl }

chmod-IsOn : (tmp : Text) (mode : ℕ) → IsOn tmp (chmod tmp mode) (with_mode mode)
unfolding perform spoil
chmod-IsOn tmp mode = record {
  at_temp = λ d. update_same d tmp _;
  elsewhere = λ d q n. update_other d tmp q _ n;
  spoils = λ k d q n. refl;
}

-- How a replacement of `path` by way of `tmp` ends.
abbrev pub Replaced : Disk → Text → Text → Option Node → Option Text → Disk → Type 0
Replaced d path tmp v none d' =
    (d' path ≡ v) × (d' tmp ≡ none) × ((q : Text) → q ≢ path → q ≢ tmp → d' q ≡ d q)
Replaced d path tmp v (some e) d' = (q : Text) → q ≢ tmp → d' q ≡ d q

module _ (os : Os) (d : Disk) (path tmp : Text) (v : Option Node) (apart : path ≢ tmp) where
  abbrev pub Kept : Option Node → Sys → Type 0
  Kept w s = (s.disk tmp ≡ w) × ((q : Text) → q ≢ tmp → s.disk q ≡ d q)

  abbrev KeptIf : Option Node → Option Text → Sys → Type 0
  KeptIf w none s = Kept w s
  KeptIf w (some e) s = (q : Text) → q ≢ tmp → s.disk q ≡ d q

  abbrev pub Ended : Option Text → Sys → Type 0
  Ended e s = Replaced d path tmp v e s.disk

  Ensures-on :
      {c : FileCall} {f : Option Node → Option Node} (w : Option Node)
      → IsOn tmp c f
      → Ensures (Kept w) (touch os c) (KeptIf (f w)) Ended
  Ensures-on {c} {f} w on =
      Ensures-touch os c (KeptIf (f w))
        (λ s t k e. (
          cc (e, k.0, on.at_temp s.disk),
          λ q n. ap (λ (D : Disk). D q) e ∙ (on.elsewhere s.disk q n ∙ k.1 q n),
        ))
        (λ s t x k e.
          λ q n. ap (λ (D : Disk). D q) e ∙ (on.spoils (os.partial s) s.disk q n ∙ k.1 q n))

  Ensures-check :
      (w : Option Node) (e : Option Text) → Ensures (KeptIf w e) (check e) (λ _. Kept w) Ended
  unfolding check
  Ensures-check w none = Ensures-pure tt (λ s k. k)
  Ensures-check w (some e) = Ensures-leave (λ _. Kept w) (some e) (λ s k. k)

  Ensures-close_and_check :
      (w : Option Node) (e : Option Text)
      → Ensures (KeptIf w e) (close_and_check os tmp e) (λ _. Kept w) Ended
  unfolding close_and_check
  Ensures-close_and_check w none = Ensures-pure tt (λ s k. k)
  Ensures-close_and_check w (some e) =
      Ensures-bind
        (Ensures-touch os (close tmp) (λ _ s. (q : Text) → q ≢ tmp → s.disk q ≡ d q)
          (λ s t k x q n.
            ap (λ (D : Disk). D q) x ∙ ((close-IsOn tmp).elsewhere s.disk q n ∙ k q n))
          (λ s t y k x q n.
            ap (λ (D : Disk). D q) x ∙ ((close-IsOn tmp).spoils (os.partial s) s.disk q n ∙ k q n)))
        λ _. Ensures-leave (λ _. Kept w) (some e) (λ s k. k)

  Ensures-rename : Ensures (Kept v) (touch os (rename tmp path)) (λ e. Ended e) Ended
  unfolding perform spoil
  Ensures-rename =
      Ensures-touch os (rename tmp path) Ended
        (λ s t k e. (
          cc (e, k.0, update_same (update s.disk tmp none) path (s.disk tmp)),
          cc (
            e,
            update_other (update s.disk tmp none) path tmp (s.disk tmp) (λ p. apart (sym p)),
            update_same s.disk tmp none,
          ),
          λ q n m. cc (
            e,
            update_other (update s.disk tmp none) path q (s.disk tmp) n,
            update_other s.disk tmp q none m,
            k.1 q m,
          ),
        ))
        (λ s t x k e. λ q n. ap (λ (D : Disk). D q) e ∙ k.1 q n)

  still :
      (e : Option Text) (s t : Sys)
      → Ended e s
      → ((q : Text) → q ≢ tmp → t.disk q ≡ s.disk q)
      → (s.disk tmp ≡ none → t.disk tmp ≡ none)
      → Ended e t
  still none s t h k n = (k path apart ∙ h.0, n h.1, λ q a b. k q b ∙ h.2 q a b)
  still (some e) s t h k n = λ q b. k q b ∙ h q b

  Ended-remove : (e : Option Text) (s : Sys) → Ended e s → Ended e (touch os (remove tmp) s).1
  unfolding perform spoil touch
  Ended-remove e s h =
      (Ensures-touch os (remove tmp) {P = λ t. t ≡ s} (λ _ t. Ended e t) {R = λ _ _. ⊥}
          (λ a t p x.
            still e s t h (λ q b. cc (x, p, update_other a.disk tmp q none b))
              (λ n. cc (x, update_same a.disk tmp none)))
          (λ a t y p x. still e s t h (λ q b. cc (x, p)) (λ n. cc (x, p, n)))).at
        s refl

  cleaned :
      {A : Type 0} (r : Exit A) (s : Sys)
      → Post (λ _ _. ⊥) Ended r s
      → Post (λ _ _. ⊥) Ended r (touch os (remove tmp) s).1
  cleaned (stop e) s h = Ended-remove e s h
  cleaned (go a) s h = absurd h

  Ensures-deferred :
      {A : Type 0} {P : Sys → Type 0} (m : M A)
      → Ensures P m (λ _ _. ⊥) Ended
      → Ensures P (deferred (touch os (remove tmp)) m) (λ _ _. ⊥) Ended
  unfolding deferred
  Ensures-deferred m h = record { at = λ s p. cleaned _ (m s).1 (h.at s p) }

  -- From the write on, for a temporary file that holds `w`.
  Ensures-finish :
      (mode : ℕ) (content : Result Text) (w w' : Option Node)
      → Ensures (Kept w) (write_encoded os tmp content) (KeptIf w') Ended
      → with_mode mode w' ≡ v
      → Ensures (Kept w) (fill_and_rename os mode path content tmp) (λ _ _. ⊥) Ended
  unfolding fill_and_rename
  Ensures-finish mode content w w' writes q = Ensures-bind writes λ e.
      Ensures-bind (Ensures-close_and_check w' e) λ _.
        Ensures-bind (Ensures-on w' (sync-IsOn tmp)) λ e.
          Ensures-bind (Ensures-close_and_check w' e) λ _.
            Ensures-bind (Ensures-on w' (close-IsOn tmp)) λ e.
              Ensures-bind (Ensures-check w' e) λ _.
                Ensures-bind (Ensures-on w' (chmod-IsOn tmp mode)) λ e.
                  Ensures-bind (rw q (Ensures-check v e))
                    λ _. Ensures-bind Ensures-rename λ e. Ensures-leave (λ _ _. ⊥) e (λ s h. h)

-- What a replacement writes: nothing where the content could not be encoded.
abbrev pub wanted : Result Text → ℕ → Option Node
wanted (ok t) mode = some (file t mode)
wanted (err e) mode = none

module _ (os : Os) (d : Disk) (path tmp : Text) (apart : path ≢ tmp) (mode : ℕ) where
  pub Ensures-fill :
      (content : Result Text)
      → Ensures
          (Kept os d path tmp (wanted content mode) apart (some (file [] 0o600)))
          (deferred (touch os (remove tmp)) (fill_and_rename os mode path content tmp))
          (λ _ _. ⊥)
          (Ended os d path tmp (wanted content mode) apart)
  unfolding write_encoded appended with_mode
  Ensures-fill (ok t) = Ensures-deferred os d path tmp (some (file t mode)) apart _ (
      Ensures-finish os d path tmp (some (file t mode)) apart mode (ok t) (some (file [] 0o600))
        (some (file t 0o600))
        (Ensures-on os d path tmp (some (file t mode)) apart (some (file [] 0o600))
          (write-IsOn tmp t))
        refl)
  Ensures-fill (err e) = Ensures-deferred os d path tmp none apart _ (
      Ensures-finish os d path tmp none apart mode (err e) (some (file [] 0o600)) none
        (Ensures-pure (some e) (λ s k. k.1)) refl)
