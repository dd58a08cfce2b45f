-- ===== src/System/Ensures.antt =====
-- Hoare triples for computations with early returns, and the rules by which they compose.
use releasepanel_agent.Base.{Option, Bool, true, false, ◌≡◌, refl, subst, arith, if◌then◌else◌}
use releasepanel_agent.Text.{Text}
use releasepanel_agent.System.Flow.{Exit, stop, go, Action, continue, ◌>>=◌, pure, leave}

-- `R` holds where the computation returns early, `Q` where it goes on.
abbrev pub Post {ℓ} :
    {S : Type ℓ} {A : Type 0} → (A → S → Type 0) → (Option Text → S → Type 0) → Exit A → S → Type 0
Post Q R (stop e) t = R e t
Post Q R (go a) t = Q a t

-- From a state with `P`, the computation ends in one with `Q` or returns early with `R`.
pub record Ensures {S A : Type 0} (P : S → Type 0) (m : Action S A) (Q : A → S → Type 0)
    (R : Option Text → S → Type 0) : Type 0 where
  pub at : (s : S) → P s → Post Q R (m s).0 (m s).1

module _ {S : Type 0} {R : Option Text → S → Type 0} where
  continue-Post :
      {A B : Type 0} (Q : A → S → Type 0) (Q' : B → S → Type 0) (f : A → Action S B) (r : Exit A)
      (t : S)
      → ((a : A) → Ensures (Q a) (f a) Q' R)
      → Post Q R r t
      → Post Q' R (continue f r t).0 (continue f r t).1
  unfolding continue
  continue-Post Q Q' f (stop e) t k h = h
  continue-Post Q Q' f (go a) t k h = (k a).at t h

  pub Ensures-bind :
      {A B : Type 0} {P : S → Type 0} {Q : A → S → Type 0} {Q' : B → S → Type 0} {m : Action S A}
      {f : A → Action S B}
      → Ensures P m Q R
      → ((a : A) → Ensures (Q a) (f a) Q' R)
      → Ensures P (m >>= f) Q' R
  unfolding ◌>>=◌
  Ensures-bind {Q} {Q'} {m} {f} h k = record {
    at = λ s p. continue-Post Q Q' f (m s).0 (m s).1 k (h.at s p);
  }

  pub Ensures-pure :
      {A : Type 0} {P : S → Type 0} {Q : A → S → Type 0} (a : A)
      → ((s : S) → P s → Q a s)
      → Ensures P (pure a) Q R
  unfolding pure
  Ensures-pure a h = record { at = h }

  pub Ensures-leave :
      {A : Type 0} {P : S → Type 0} (Q : A → S → Type 0) (e : Option Text)
      → ((s : S) → P s → R e s)
      → Ensures P (leave e) Q R
  unfolding leave
  Ensures-leave Q e h = record { at = h }

  -- A fact that does not speak of the state.
  pub Ensures-fact :
      {A : Type 0} {P : S → Type 0} {F : Type 0} {Q : A → S → Type 0} {m : Action S A}
      → (F → Ensures P m Q R)
      → Ensures (λ s. P s × F) m Q R
  Ensures-fact k = record { at = λ s p. (k p.1).at s p.0 }

  pub Ensures-if :
      {A : Type 0} {P : S → Type 0} {Q : A → S → Type 0} (b : Bool) {m n : Action S A}
      → (b ≡ true → Ensures P m Q R)
      → (b ≡ false → Ensures P n Q R)
      → Ensures P (if b then m else n) Q R
  Ensures-if true hm hn = hm refl
  Ensures-if false hm hn = hn refl

module _ {S : Type 0} where
  weaken-Post :
      {A : Type 0} (R : Option Text → S → Type 0) (Q Q' : A → S → Type 0) (r : Exit A) (t : S)
      → ((a : A) (s : S) → Q a s → Q' a s)
      → Post Q R r t
      → Post Q' R r t
  weaken-Post R Q Q' (stop e) t k h = h
  weaken-Post R Q Q' (go a) t k h = k a t h

  pub Ensures-weaken :
      {A : Type 0} {R : Option Text → S → Type 0} {P : S → Type 0} {Q Q' : A → S → Type 0}
      {m : Action S A}
      → Ensures P m Q R
      → ((a : A) (s : S) → Q a s → Q' a s)
      → Ensures P m Q' R
  Ensures-weaken {R} {Q} {Q'} {m} h k = record {
    at = λ s p. weaken-Post R Q Q' (m s).0 (m s).1 k (h.at s p);
  }

-- The early return may say less.
module _ {S A : Type 0} {R R' : Option Text → S → Type 0} where
  relax-Post :
      (Q : A → S → Type 0) (r : Exit A) (t : S)
      → ((e : Option Text) (s : S) → R e s → R' e s)
      → Post Q R r t
      → Post Q R' r t
  relax-Post Q (stop e) t k h = k e t h
  relax-Post Q (go a) t k h = h

  pub Ensures-relax :
      {P : S → Type 0} {m : Action S A} {Q : A → S → Type 0}
      → Ensures P m Q R
      → ((e : Option Text) (s : S) → R e s → R' e s)
      → Ensures P m Q R'
  Ensures-relax {m} {Q} h k = record { at = λ s p. relax-Post Q (m s).0 (m s).1 k (h.at s p) }

-- What a triple says of a run that went on, and of every run.
module _ {S A : Type 0} (Q : A → S → Type 0) (R : Option Text → S → Type 0) where
  Post-go : (r : Exit A) (t : S) (a : A) → r ≡ go a → Post Q R r t → Q a t
  Post-go (go b) t a e h = subst (λ x. Q x t) (ground arith) h
  Post-go (stop b) t a e h = ground arith

  Post-either :
      {X : Type 0} (r : Exit A) (t : S)
      → Post Q R r t
      → ((a : A) → r ≡ go a → Q a t → X)
      → ((e : Option Text) → r ≡ stop e → R e t → X)
      → X
  Post-either (go a) t h f g = f a refl h
  Post-either (stop e) t h f g = g e refl h

module _ {S A : Type 0} {P : S → Type 0} {m : Action S A} {Q : A → S → Type 0}
    {R : Option Text → S → Type 0} where
  pub Ensures-go : Ensures P m Q R → (s : S) (a : A) → P s → (m s).0 ≡ go a → Q a (m s).1
  Ensures-go h s a p e = Post-go Q R (m s).0 (m s).1 a e (h.at s p)

  pub Ensures-either :
      {X : Type 0}
      → Ensures P m Q R
      → (s : S) → P s
      → ((a : A) → (m s).0 ≡ go a → Q a (m s).1 → X)
      → ((e : Option Text) → (m s).0 ≡ stop e → R e (m s).1 → X)
      → X
  Ensures-either h s p f g = Post-either Q R (m s).0 (m s).1 (h.at s p) f g
