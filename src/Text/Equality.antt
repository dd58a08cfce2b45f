-- ===== src/Text/Equality.antt =====
-- Texts, literals, equality of texts, `strings.ToLower`, byte lengths and bounded prefixes.
use Prim.Native.Char.{code}
use Prim.Native.String.{String}
use mathlib.Core.Bool.{false≢true}
use releasepanel_agent.Base.{
  sym, ◌∙◌, ◌≢◌, false, ℕ, ◌+◌, ◌≤◌, ◌≡◌, ◌↔◌, Bool, true, false, ◌&&◌, List, [], ◌∷◌, ◌++◌, map,
  arith, ltb, leb, ◌==◌, if◌then◌else◌, length,
}

abbrev pub Text : Type 0
Text = List ℕ

-- The code points of a literal.
abbrev pub codes : String → Text
codes String.[] = []
codes (String.◌∷◌ c s) = code c ∷ codes s

unfoldable pub text_eq : Text → Text → Bool
text_eq [] [] = true
text_eq [] (d ∷ t) = false
text_eq (c ∷ s) [] = false
text_eq (c ∷ s) (d ∷ t) = (c == d) && text_eq s t

pub text_eq_iff : (s t : Text) → (text_eq s t ≡ true) ↔ (s ≡ t)
unfolding text_eq
text_eq_iff [] [] = ground arith
text_eq_iff [] (d ∷ t) = ground arith
text_eq_iff (c ∷ s) [] = ground arith
text_eq_iff (c ∷ s) (d ∷ t) = ground (arith, text_eq_iff s t)

-- Literals are told apart by the test.
pub ne_of_test : (s t : Text) → text_eq s t ≡ false → s ≢ t
ne_of_test s t h e = absurd (false≢true (sym h ∙ (text_eq_iff s t).1 e))

-- What Go takes from the tables of the Unicode standard: `unicode.ToLower` above ASCII, and the
-- quoted form of the verb %q, which depends on the printable characters.
pub record Unicode : Type 0 where
  pub lower : ℕ → ℕ
  pub quote : Text → Text

module _ ⦃u : Unicode⦄ where
  unfoldable pub lower_rune : ℕ → ℕ
  lower_rune c = if ltb c 128 then (if leb b'A' c && leb c b'Z' then c + 32 else c) else u.lower c

  -- `strings.ToLower`.
  unfoldable pub to_lower : Text → Text
  to_lower s = map lower_rune s

-- The bytes of a rune in UTF-8. A byte `b` that belongs to no rune stands as `0x110000 + b`.
unfoldable pub rune_length : ℕ → ℕ
rune_length c =
    if ltb c 0x80
    then 1
    else if ltb c 0x800
    then 2
    else if ltb c 0x10000
    then 3
    else if ltb c 0x110000
    then 4
    else 1

-- `len(s)`.
unfoldable pub byte_length : Text → ℕ
unfolding rune_length
byte_length [] = 0
byte_length (c ∷ s) = rune_length c + byte_length s

length-le-byte_length : (s : Text) → length s ≤ byte_length s
unfolding byte_length
length-le-byte_length [] = omega arith
length-le-byte_length (c ∷ s) = ground (arith, length-le-byte_length s)

pub byte_length-append : (s t : Text) → byte_length (s ++ t) ≡ byte_length s + byte_length t
unfolding byte_length
byte_length-append [] t = omega arith
byte_length-append (c ∷ s) t = omega (arith, byte_length-append s t)
