-- ===== src/System/Flow.antt =====
-- Functions with early returns over a state: `stop e` is the return of the error `e`, `go a` the
-- value with which the function goes on.
use releasepanel_agent.Base.{Option, none, some}
use releasepanel_agent.Text.{Text}

pub data Exit (A : Type 0) : Type 0 where
  stop : Option Text → Exit A
  go : A → Exit A

abbrev pub Action : Type 0 → Type 0 → Type 0
Action S A = S → Exit A × S

module _ {S : Type 0} where
  unfoldable pub continue : {A B : Type 0} → (A → Action S B) → Exit A → Action S B
  continue f (stop e) s = (stop e, s)
  continue f (go a) s = f a s

  infixl 5 ◌>>=◌ ◌>>◌
  unfoldable pub ◌>>=◌ : {A B : Type 0} → Action S A → (A → Action S B) → Action S B
  unfolding continue
  ◌>>=◌ m f s = let (r, t) = m s in continue f r t

  abbrev pub ◌>>◌ : {A B : Type 0} → Action S A → Action S B → Action S B
  m >> n = m >>= λ _. n

  unfoldable pub pure : {A : Type 0} → A → Action S A
  pure a s = (go a, s)

  -- `return e`.
  unfoldable pub leave : {A : Type 0} → Option Text → Action S A
  leave e s = (stop e, s)

-- The error that a whole function returns; one that reaches its end returns nil.
unfoldable pub result : {A : Type 0} → Exit A → Option Text
result (stop e) = e
result (go a) = none

module _ {S : Type 0} where
  -- A whole function as a call: its error is a value to the caller.
  unfoldable pub call : {A : Type 0} → Action S A → Action S (Option Text)
  unfolding result
  call m s = let (r, t) = m s in (go (result r), t)

  -- `defer`: the clean-up runs after the body, and its result is dropped.
  unfoldable pub deferred : {A B : Type 0} → Action S B → Action S A → Action S A
  deferred cleanup m s = let (r, t) = m s in (r, (cleanup t).1)

  -- `if err != nil { return err }`.
  unfoldable pub check : Option Text → Action S (Unit {0})
  unfolding pure leave
  check none = pure tt
  check (some e) = leave (some e)
