-- ===== src/Text/Search.antt =====
-- `strings.HasPrefix`, `strings.Contains`, `strings.ContainsAny`, `strings.ReplaceAll` of one
-- character, and the bounded prefix of `truncateRunes`.
use releasepanel_agent.Base.{
  ◌≡◌, refl, Bool, true, false, ◌&&◌, ◌||◌, [], ◌∷◌, ◌++◌, arith, ◌==◌, any,
}
use releasepanel_agent.Text.Equality.{Text}

unfoldable pub has_prefix : Text → Text → Bool
has_prefix s [] = true
has_prefix [] (p ∷ ps) = false
has_prefix (c ∷ s) (p ∷ ps) = (c == p) && has_prefix s ps

unfoldable pub contains : Text → Text → Bool
unfolding has_prefix
contains [] sub = has_prefix [] sub
contains (c ∷ s) sub = has_prefix (c ∷ s) sub || contains s sub

unfoldable pub contains_any : Text → Text → Bool
contains_any s chars = any (λ c. any (λ d. c == d) chars) s

-- What stands behind a prefix.
pub has_prefix-rest : (s p : Text) → has_prefix s p ≡ true → (rest : Text) × (s ≡ p ++ rest)
unfolding has_prefix
has_prefix-rest s [] h = (s, refl)
has_prefix-rest [] (p ∷ ps) h = ground arith
has_prefix-rest (c ∷ s) (p ∷ ps) h =
    let (rest, e) = has_prefix-rest s ps (ground arith) in (rest, ground arith)

pub has_prefix-append : (p rest : Text) → has_prefix (p ++ rest) p ≡ true
unfolding has_prefix
has_prefix-append [] rest = refl
has_prefix-append (c ∷ p) rest = ground (arith, has_prefix-append p rest)
