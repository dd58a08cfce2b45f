-- ===== src/Text/Bytes.antt =====
-- Slices of a Go string by bytes: `s[:n]`.
use Prim.Native.Nat.{min, ◌/◌, ◌%◌}
use releasepanel_agent.Base.{
  ◌≤◌, ℕ, ◌+◌, ◌-◌, ◌≡◌, List, [], ◌∷◌, map, arith, ltb, leb, if◌then◌else◌, take, length,
  length-take, refl,
}
use releasepanel_agent.Text.Equality.{Text, rune_length, byte_length}

-- The bytes of a code point in UTF-8.
unfoldable pub utf8 : ℕ → List ℕ
utf8 c =
    if ltb c 0x80
    then c ∷ []
    else if ltb c 0x800
    then (0xC0 + c / 64) ∷ (0x80 + c % 64) ∷ []
    else if ltb c 0x10000
    then (0xE0 + c / 4096) ∷ (0x80 + c / 64 % 64) ∷ (0x80 + c % 64) ∷ []
    else if ltb c 0x110000
    then (0xF0 + c / 262144) ∷ (0x80 + c / 4096 % 64) ∷ (0x80 + c / 64 % 64) ∷ (0x80 + c % 64) ∷ []
    else (c - 0x110000) ∷ []

unfoldable pub stray : ℕ → ℕ
stray b = 0x110000 + b

-- `s[:n]`, where a rune that does not fit leaves its first bytes.
unfoldable pub byte_prefix : ℕ → Text → Text
unfolding utf8 stray
byte_prefix n [] = []
byte_prefix n (c ∷ s) =
    let rest = byte_prefix (n - rune_length c) s in
    if leb (rune_length c) n then c ∷ rest else map stray (take n (utf8 c))

length-utf8 : (c : ℕ) → length (utf8 c) ≡ rune_length c
unfolding utf8 rune_length
length-utf8 c = ground arith

byte_length-stray : (bs : List ℕ) → byte_length (map stray bs) ≡ length bs
unfolding byte_length rune_length stray
byte_length-stray [] = refl
byte_length-stray (b ∷ bs) = ground (arith, byte_length-stray bs)

-- A slice has as many bytes as were asked for, or all.
pub byte_length-byte_prefix :
    (n : ℕ) (s : Text) → byte_length (byte_prefix n s) ≡ min n (byte_length s)
unfolding byte_prefix byte_length
byte_length-byte_prefix n [] = omega arith
byte_length-byte_prefix n (c ∷ s) = ground (
  arith,
  byte_length-byte_prefix (n - rune_length c) s,
  byte_length-stray (take n (utf8 c)),
  length-take n (utf8 c),
  length-utf8 c,
)

-- A text that is short enough is the whole slice.
pub byte_prefix-all : (n : ℕ) (s : Text) → byte_length s ≤ n → byte_prefix n s ≡ s
unfolding byte_prefix byte_length
byte_prefix-all n [] h = refl
byte_prefix-all n (c ∷ s) h = ground (arith, byte_prefix-all (n - rune_length c) s)
