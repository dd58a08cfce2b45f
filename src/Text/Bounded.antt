-- ===== src/Text/Bounded.antt =====
-- `truncateRunes` (internal/gitdeploy/executor.go and internal/nginxruntime/converge.go): a
-- prefix of at most `max` runes.
use releasepanel_agent.Base.{
  ℕ, zero, suc, refl, ◌∷◌, ◌≤◌, ◌<◌, ◌≢◌, ◌||◌, [], arith, leb, ◌==◌, if◌then◌else◌, is_empty,
  length, take, length-take,
}
use releasepanel_agent.Text.Equality.{Text}

unfoldable pub truncate_runes : Text → ℕ → Text
truncate_runes s max =
    if max == 0 || is_empty s then s else if leb (length s) max then s else take max s

pub length-truncate_runes : (s : Text) (max : ℕ) → 0 < max → length (truncate_runes s max) ≤ max
unfolding truncate_runes
length-truncate_runes s max h = ground (arith, length-take max s)

pub truncate_runes-ne-nil : (s : Text) (max : ℕ) → s ≢ [] → truncate_runes s max ≢ []
unfolding truncate_runes
truncate_runes-ne-nil [] max h = absurd (h refl)
truncate_runes-ne-nil (c ∷ s) zero h = h
truncate_runes-ne-nil (c ∷ s) (suc n) h = ground arith
