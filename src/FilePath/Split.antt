-- ===== src/FilePath/Split.antt =====
-- Cutting a path at its separators, and putting components together.
use releasepanel_agent.Base.{
  ℕ, ◌≡◌, ◌≢◌, refl, ◌∙◌, ap, List, [], ◌∷◌, ◌++◌, arith, if◌then◌else◌, ◌==◌, All, Bool-cases, inl,
  inr,
}
use releasepanel_agent.Text.{Text}

onto_first : ℕ → List Text → List Text
onto_first c [] = (c ∷ []) ∷ []
onto_first c (p ∷ ps) = (c ∷ p) ∷ ps

unfoldable pub split : Text → List Text
unfolding onto_first
split [] = [] ∷ []
split (c ∷ s) = let rest = split s in if c == b'/' then [] ∷ rest else onto_first c rest

-- `strings.Join` with a separator.
unfoldable pub join_names : List Text → Text
join_names [] = []
join_names (c ∷ []) = c
join_names (c ∷ d ∷ ds) = c ++ b'/' ∷ join_names (d ∷ ds)

abbrev pub NoSlash : Text → Type 0
NoSlash = All (λ c. c ≢ b'/')

split-ne-nil : (s : Text) → split s ≢ []
unfolding split
split-ne-nil [] = ground arith
split-ne-nil (c ∷ s) = ground (arith, split-ne-nil s)

pub split_slash : (s : Text) → split (b'/' ∷ s) ≡ [] ∷ split s
unfolding split
split_slash s = refl

split_rune : (c : ℕ) (s : Text) → c ≢ b'/' → split (c ∷ s) ≡ onto_first c (split s)
unfolding split
split_rune c s h = ground arith

-- A text cut at a separator in it is cut into the parts of both sides.
pub split-append : (s t : Text) → split (s ++ b'/' ∷ t) ≡ split s ++ split t
unfolding split
split-append [] t = refl
split-append (c ∷ s) t = ground (arith, split-append s t, split-ne-nil s)

pub split_component : (c : Text) → NoSlash c → split c ≡ c ∷ []
unfolding split
split_component [] h = refl
split_component (x ∷ c) h = ground (arith, split_component c h.1)

pub split-join_names :
    (c : Text) (cs : List Text) → All NoSlash (c ∷ cs) → split (join_names (c ∷ cs)) ≡ c ∷ cs
unfolding join_names
split-join_names c [] h = split_component c h.0
split-join_names c (d ∷ ds) h =
    split-append c (join_names (d ∷ ds))
    ∙ ap (λ (l : List Text). l ++ split (join_names (d ∷ ds))) (split_component c h.0)
    ∙ ap (λ (l : List Text). c ∷ l) (split-join_names d ds h.1)

onto_first-NoSlash :
    (c : ℕ) (ps : List Text) → c ≢ b'/' → All NoSlash ps → All NoSlash (onto_first c ps)
unfolding onto_first
onto_first-NoSlash c [] n h = ((n, tt), tt)
onto_first-NoSlash c (p ∷ ps) n h = ((n, h.0), h.1)

-- The parts of a text hold no separator.
pub split-NoSlash : (s : Text) → All NoSlash (split s)
unfolding split
split-NoSlash [] = (tt, tt)
split-NoSlash (c ∷ s) = elim (Bool-cases (c == b'/')) [
  | inl e ↦ rw e (tt, split-NoSlash s)
  | inr e ↦ rw e (onto_first-NoSlash c (split s) (ground arith) (split-NoSlash s))
]
