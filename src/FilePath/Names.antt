-- ===== src/FilePath/Names.antt =====
-- The components of a cleaned absolute path: never empty, `.` or `..`, and with no separator.
use mathlib.Core.List.{reverse-append}
use releasepanel_agent.Base.{
  ◌≡◌, ◌≢◌, ◌↔◌, refl, ◌∙◌, ap, true, ◌||◌, List, [], ◌∷◌, ◌++◌, reverse, arith, append_assoc,
  append-nil, All, All-append, Bool-cases, inl, inr, is_empty,
}
use releasepanel_agent.Text.{Text, codes, text_eq, text_eq_iff, has_prefix, has_prefix-rest}
use releasepanel_agent.FilePath.Split.{
  NoSlash, split, split_slash, split-NoSlash, split-append, split-join_names, join_names,
}
use releasepanel_agent.FilePath.{is_abs, back, visit, resolve, names, clean}

pub record IsName (c : Text) : Type 0 where
  pub no_slash : NoSlash c
  pub ne_nil : c ≢ []
  pub ne_dot : c ≢ codes "."
  pub ne_dots : c ≢ codes ".."

All-reverse : (P : Text → Type 0) (xs : List Text) → All P xs → All P (reverse xs)
All-reverse P [] h = tt
All-reverse P (x ∷ xs) h =
    rw (reverse-append (x ∷ []) xs)
      (All-append P (reverse xs) (x ∷ []) (All-reverse P xs h.1) (h.0, tt))

back-IsName : (out : List Text) → All IsName out → All IsName (back true out)
unfolding back
back-IsName [] h = tt
back-IsName (d ∷ ds) h = h.1

visit-IsName :
    (out : List Text) (c : Text) → All IsName out → NoSlash c → All IsName (visit true out c)
unfolding visit
visit-IsName out c h n = elim (Bool-cases (is_empty c || text_eq c (codes "."))) [
  | inl e ↦ rw e h
  | inr e ↦ rw e (elim (Bool-cases (text_eq c (codes ".."))) [
    | inl d ↦ rw d (back-IsName out h)
    | inr d ↦ rw d (
      record {
        no_slash = n;
        ne_nil = ground arith;
        ne_dot = ground (arith, text_eq_iff c (codes "."));
        ne_dots = ground (arith, text_eq_iff c (codes ".."));
      },
      h,
    )
  ])
]

resolve-IsName :
    (out cs : List Text) → All IsName out → All NoSlash cs → All IsName (resolve true out cs)
unfolding resolve
resolve-IsName out [] h n = All-reverse IsName out h
resolve-IsName out (c ∷ cs) h n =
    resolve-IsName (visit true out c) cs (visit-IsName out c h n.0) n.1

pub names-IsName : (p : Text) → is_abs p ≡ true → All IsName (names p)
unfolding names
names-IsName p h = rw h (resolve-IsName [] (split p) tt (split-NoSlash p))

pub clean_abs : (p : Text) → is_abs p ≡ true → clean p ≡ b'/' ∷ join_names (names p)
unfolding clean
clean_abs p h = rw h

IsName-NoSlash : (cs : List Text) → All IsName cs → All NoSlash cs
IsName-NoSlash [] h = tt
IsName-NoSlash (c ∷ cs) h = (h.0.no_slash, IsName-NoSlash cs h.1)

join_names-ne-nil : (c : Text) (cs : List Text) → All IsName (c ∷ cs) → join_names (c ∷ cs) ≢ []
unfolding join_names
join_names-ne-nil [] cs h = absurd (h.0.ne_nil refl)
join_names-ne-nil (x ∷ c) [] h = ground arith
join_names-ne-nil (x ∷ c) (d ∷ ds) h = ground arith

names-ne-nil : (p : Text) → is_abs p ≡ true → clean p ≢ codes "/" → names p ≢ []
unfolding join_names
names-ne-nil p h n e = n (rw (clean_abs p h, e))

clean-ne-slash : (p : Text) → is_abs p ≡ true → names p ≢ [] → clean p ≢ codes "/"
clean-ne-slash p h n = rw (clean_abs p h) (go (names p) (names-IsName p h) n)
  where
    go : (cs : List Text) → All IsName cs → cs ≢ [] → b'/' ∷ join_names cs ≢ codes "/"
    go [] a ne = absurd (ne refl)
    go (c ∷ cs) a ne = ground (arith, join_names-ne-nil c cs a)

-- A cleaned path is the root exactly when it has no component.
pub clean_root_iff : (p : Text) → is_abs p ≡ true → (clean p ≢ codes "/") ↔ (names p ≢ [])
clean_root_iff p h = (names-ne-nil p h, clean-ne-slash p h)

split_rooted : (cs : List Text) → cs ≢ [] → All NoSlash cs → split (b'/' ∷ join_names cs) ≡ [] ∷ cs
split_rooted [] n h = absurd (n refl)
split_rooted (c ∷ cs) n h =
    split_slash (join_names (c ∷ cs)) ∙ ap (λ (l : List Text). [] ∷ l) (split-join_names c cs h)

-- Components are read back from the path that they make.
split-clean : (p : Text) → is_abs p ≡ true → names p ≢ [] → split (clean p) ≡ [] ∷ names p
split-clean p h n =
    rw (clean_abs p h) (split_rooted (names p) n (IsName-NoSlash (names p) (names-IsName p h)))

-- `r` is `p` or a directory above it, component by component.
abbrev pub Under : Text → Text → Type 0
Under r p = (rest : List Text) × (names p ≡ names r ++ rest)

module _ (p r : Text) (hp : is_abs p ≡ true) (hr : is_abs r ≡ true) where
  pub Under-of_prefix :
      names p ≢ [] → names r ≢ [] → has_prefix (clean p) (clean r ++ b'/' ∷ []) ≡ true → Under r p
  Under-of_prefix np nr h =
      let (rest, e) = has_prefix-rest (clean p) (clean r ++ b'/' ∷ []) h in
      (
        split rest,
        cc (
          split-clean p hp np,
          split-clean r hr nr,
          e,
          append_assoc (clean r) (b'/' ∷ []) rest,
          split-append (clean r) rest,
        ),
      )

  pub Under-of_eq : names p ≢ [] → names r ≢ [] → clean p ≡ clean r → Under r p
  Under-of_eq np nr e = ([], cc (split-clean p hp np, split-clean r hr nr, append-nil (names r)))
