-- ===== src/Text/Numbers.antt =====
-- Decimal numbers: the verb %d for numbers that are not negative, and `strconv.Atoi`.
use Prim.Native.Nat.{◌/◌, ◌%◌, ◌^◌}
use releasepanel_agent.Base.{
  ℕ, zero, suc, ◌+◌, ◌-◌, ◌*◌, ◌<◌, ◌≡◌, refl, Bool, true, false, ◌&&◌, ◌||◌, Option, none, some,
  [], ◌∷◌, ◌++◌, arith, ltb, leb, ◌==◌, if◌then◌else◌, ◌≢◌, Bool-cases, inl, inr,
}
use releasepanel_agent.Text.Equality.{Text}

-- The decimal digits of a number, on as much fuel as itself.
unfoldable pub digits : ℕ → ℕ → Text
digits zero n = []
digits (suc fuel) n =
    let rest = digits fuel (n / 10) in
    if ltb n 10 then (b'0' + n) ∷ [] else rest ++ (b'0' + n % 10) ∷ []

unfoldable pub decimal : ℕ → Text
unfolding digits
decimal n = digits (suc n) n

-- The value of a row of digits behind the value `acc`.
unfoldable pub digits_value : ℕ → Text → Option ℕ
digits_value acc [] = some acc
digits_value acc (c ∷ s) =
    let rest = digits_value (acc * 10 + (c - b'0')) s in
    if leb b'0' c && leb c b'9' then rest else none

unfoldable pub magnitude : Text → Option ℕ
unfolding digits_value
magnitude [] = none
magnitude (c ∷ s) = digits_value 0 (c ∷ s)

-- A sign, true for minus, with a value in the range of a 64-bit int.
unfoldable pub in_range : Bool → Option ℕ → Option (Bool × ℕ)
in_range negative none = none
in_range negative (some n) =
    if ltb n (2 ^ 63) || (negative && n == 2 ^ 63) then some (negative, n) else none

-- `strconv.Atoi`; `none` is its error.
unfoldable pub atoi : Text → Option (Bool × ℕ)
unfolding in_range magnitude
atoi [] = none
atoi (c ∷ s) =
    if c == b'-'
    then in_range true (magnitude s)
    else if c == b'+'
    then in_range false (magnitude s)
    else in_range false (magnitude (c ∷ s))

digits_value-snoc :
    (acc v d : ℕ) (s : Text)
    → digits_value acc s ≡ some v
    → d < 10
    → digits_value acc (s ++ (b'0' + d) ∷ []) ≡ some (v * 10 + d)
unfolding digits_value
digits_value-snoc acc v d [] h k = ground arith
digits_value-snoc acc v d (c ∷ s) h k =
    ground (arith, digits_value-snoc (acc * 10 + (c - b'0')) v d s)

digits_value-digits : (fuel n : ℕ) → n < fuel → digits_value 0 (digits fuel n) ≡ some n
unfolding digits digits_value
digits_value-digits zero n h = elim h [ ]
digits_value-digits (suc fuel) n h = ground (
  arith,
  digits_value-digits fuel (n / 10),
  digits_value-snoc 0 (n / 10) (n % 10) (digits fuel (n / 10)),
)

atoi-digits_value :
    (s : Text) (v : ℕ) → s ≢ [] → digits_value 0 s ≡ some v → v < 2 ^ 63 → atoi s ≡ some (false, v)
unfolding atoi magnitude in_range digits_value
atoi-digits_value [] v ne h k = absurd (ne refl)
atoi-digits_value (c ∷ s) v ne h k = ground arith

snoc-ne-nil : (s : Text) (c : ℕ) → s ++ c ∷ [] ≢ []
snoc-ne-nil [] c h = ground arith
snoc-ne-nil (d ∷ s) c h = ground arith

digits-ne-nil : (fuel n : ℕ) → digits (suc fuel) n ≢ []
unfolding digits
digits-ne-nil fuel n h = elim (Bool-cases (ltb n 10)) [
  | inl e ↦ ground arith
  | inr e ↦ snoc-ne-nil (digits fuel (n / 10)) (b'0' + n % 10) (ground arith)
]

-- A printed number is read back, up to the largest 64-bit int.
atoi-decimal : (n : ℕ) → n < 2 ^ 63 → atoi (decimal n) ≡ some (false, n)
unfolding decimal
atoi-decimal n h =
    atoi-digits_value (digits (suc n) n) n (digits-ne-nil n n)
      (digits_value-digits (suc n) n (omega arith)) h
