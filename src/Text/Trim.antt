-- ===== src/Text/Trim.antt =====
-- `strings.TrimSpace`, `strings.TrimLeft` and `strings.TrimRight`.
use releasepanel_agent.Base.{
  ℕ, ◌≡◌, refl, Bool, false, ◌&&◌, ◌||◌, [], ◌∷◌, arith, leb, ◌==◌, if◌then◌else◌, is_empty,
}
use releasepanel_agent.Text.Equality.{Text}

-- `unicode.IsSpace`.
unfoldable pub is_space : ℕ → Bool
is_space c =
    (leb 9 c && leb c 13)
    || c == 0x20
    || c == 0x85
    || c == 0xA0
    || c == 0x1680
    || (leb 0x2000 c && leb c 0x200A)
    || c == 0x2028
    || c == 0x2029
    || c == 0x202F
    || c == 0x205F
    || c == 0x3000

unfoldable pub trim_left : (ℕ → Bool) → Text → Text
trim_left cut [] = []
trim_left cut (c ∷ s) = let rest = trim_left cut s in if cut c then rest else c ∷ s

unfoldable pub trim_right : (ℕ → Bool) → Text → Text
trim_right cut [] = []
trim_right cut (c ∷ s) =
    let rest = trim_right cut s in if cut c && is_empty rest then [] else c ∷ rest

unfoldable pub trim_space : Text → Text
trim_space s = trim_right is_space (trim_left is_space s)

-- A text that trimming leaves alone: it is empty, or neither end is cut.
trim_left_fixed :
    (cut : ℕ → Bool) (c : ℕ) (s : Text) → cut c ≡ false → trim_left cut (c ∷ s) ≡ c ∷ s
unfolding trim_left
trim_left_fixed cut c s h = ground arith

trim_right_idem : (cut : ℕ → Bool) (s : Text) → trim_right cut (trim_right cut s) ≡ trim_right cut s
unfolding trim_right
trim_right_idem cut [] = refl
trim_right_idem cut (c ∷ s) = ground (arith, trim_right_idem cut s)

trim_left-trim_right :
    (cut : ℕ → Bool) (s : Text)
    → trim_left cut (trim_right cut (trim_left cut s)) ≡ trim_right cut (trim_left cut s)
unfolding trim_left trim_right
trim_left-trim_right cut [] = refl
trim_left-trim_right cut (c ∷ s) = ground (arith, trim_left-trim_right cut s)

-- Trimming twice is trimming once.
pub trim_space_idem : (s : Text) → trim_space (trim_space s) ≡ trim_space s
unfolding trim_space
trim_space_idem s =
    ground (arith, trim_left-trim_right is_space s, trim_right_idem is_space (trim_left is_space s))
