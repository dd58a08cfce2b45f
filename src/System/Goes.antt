-- ===== src/System/Goes.antt =====
-- Rules for calls that do not return early.
use releasepanel_agent.Base.{◌≡◌, Bool, if◌then◌else◌}
use releasepanel_agent.Text.{Text}
use releasepanel_agent.System.Ensures.{
  Ensures, Ensures-bind, Ensures-pure, Ensures-if, Ensures-either,
}
use releasepanel_agent.System.Flow.{go, pure, ◌>>=◌}
use releasepanel_agent.System.{Os, Sys, M, Command, exec, look_path, now, stat}
use releasepanel_agent.System.Files.{read_text}

pub record Goes {A : Type 0} (m : M A) : Type 0 where
  pub at : Ensures (λ s. Unit {0}) m (λ a s. Unit {0}) (λ e s. ⊥)

pub Goes-value : {A : Type 0} {m : M A} → Goes m → (s : Sys) → (a : A) × ((m s).0 ≡ go a)
Goes-value h s = Ensures-either h.at s tt (λ a e x. (a, e)) (λ e q x. absurd x)

pub Goes-bind :
    {A B : Type 0} {m : M A} {f : A → M B} → Goes m → ((a : A) → Goes (f a)) → Goes (m >>= f)
Goes-bind h k = record { at = Ensures-bind h.at λ a. (k a).at }

pub Goes-pure : {A : Type 0} (a : A) → Goes (pure a)
Goes-pure a = record { at = Ensures-pure a (λ s h. tt) }

pub Goes-if : {A : Type 0} (b : Bool) {m n : M A} → Goes m → Goes n → Goes (if b then m else n)
Goes-if b h k = record { at = Ensures-if b (λ _. h.at) (λ _. k.at) }

pub Goes-ask : {A : Type 0} (f : Sys → A) → Goes (λ s. (go (f s), s))
Goes-ask f = record { at = record { at = λ s h. tt } }

module _ (os : Os) where
  pub exec-Goes : (c : Command) → Goes (exec os c)
  unfolding exec
  exec-Goes c = record { at = record { at = λ s h. tt } }

  pub look_path-Goes : (name : Text) → Goes (look_path os name)
  unfolding look_path
  look_path-Goes name = record { at = record { at = λ s h. tt } }

  pub now-Goes : Goes (now os)
  unfolding now
  now-Goes = record { at = record { at = λ s h. tt } }

  pub stat-Goes : (p : Text) → Goes (stat os p)
  unfolding stat
  stat-Goes p = record { at = record { at = λ s h. tt } }

  pub read_text-Goes : (p : Text) → Goes (read_text os p)
  unfolding read_text
  read_text-Goes p = record { at = record { at = λ s h. tt } }
