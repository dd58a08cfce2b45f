-- ===== src/FilePath.antt =====
-- The functions of package path/filepath that the agent calls, on Unix: `IsAbs`, `Clean`, `Join`
-- and `Dir`. `Clean` is written over the path's components.
mod Split
pub mod Names
pub mod Below
pub mod Child
unfoldable pub use Split.{split, join_names, NoSlash}
use releasepanel_agent.Base.{
  ℕ, Bool, true, false, ◌&&◌, ◌||◌, not, List, [], ◌∷◌, ◌++◌, reverse, if◌then◌else◌, ◌==◌,
  is_empty,
}
use releasepanel_agent.Text.{Text, codes, text_eq, has_prefix}

-- `filepath.IsAbs`.
unfoldable pub is_abs : Text → Bool
is_abs p = has_prefix p (b'/' ∷ [])

-- What `..` does to the components kept so far, the last one first.
unfoldable pub back : Bool → List Text → List Text
back rooted [] = if rooted then [] else codes ".." ∷ []
back rooted (d ∷ ds) = if not rooted && text_eq d (codes "..") then codes ".." ∷ d ∷ ds else ds

unfoldable pub visit : Bool → List Text → Text → List Text
visit rooted out c =
    if is_empty c || text_eq c (codes ".")
    then out
    else if text_eq c (codes "..")
    then back rooted out
    else c ∷ out

unfoldable pub resolve : Bool → List Text → List Text → List Text
resolve rooted out [] = reverse out
resolve rooted out (c ∷ cs) = resolve rooted (visit rooted out c) cs

-- The components of the cleaned path.
unfoldable pub names : Text → List Text
names p = resolve (is_abs p) [] (split p)

or_dot : Text → Text
or_dot [] = codes "."
or_dot (c ∷ s) = c ∷ s

-- `filepath.Clean`.
unfoldable pub clean : Text → Text
unfolding or_dot
clean p = if is_abs p then b'/' ∷ join_names (names p) else or_dot (join_names (names p))

unfoldable pub not_empty : List Text → List Text
not_empty [] = []
not_empty (e ∷ es) = let rest = not_empty es in if is_empty e then rest else e ∷ rest

unfoldable pub join_cleaned : List Text → Text
join_cleaned [] = []
join_cleaned (e ∷ es) = clean (join_names (e ∷ es))

-- `filepath.Join`: empty elements are left out.
unfoldable pub join : List Text → Text
unfolding not_empty join_cleaned
join es = join_cleaned (not_empty es)

-- Up to the last separator, it included.
up_to_slash : Text → Text
up_to_slash [] = []
up_to_slash (c ∷ s) =
    let rest = up_to_slash s in if is_empty rest && not (c == b'/') then [] else c ∷ rest

-- `filepath.Dir`.
unfoldable pub dir : Text → Text
unfolding up_to_slash
dir p = clean (up_to_slash p)
