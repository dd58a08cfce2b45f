-- ===== src/FilePath/Child.antt =====
-- A name joined to a directory is a child of it.
use mathlib.Core.List.{reverse-cons}
use releasepanel_agent.Base.{
  ◌≡◌, ◌≢◌, refl, sym, ◌∙◌, ap, Bool, true, List, [], ◌∷◌, ◌++◌, reverse, arith, append_assoc,
  append-nil, All,
}
use releasepanel_agent.Text.{Text, codes, text_eq_iff, has_prefix}
use releasepanel_agent.FilePath.Split.{
  NoSlash, split, split-append, split_component, split_slash, split-join_names, join_names,
}
use releasepanel_agent.FilePath.{
  is_abs, visit, resolve, names, clean, join, not_empty, join_cleaned,
}
use releasepanel_agent.FilePath.Names.{IsName, names-IsName, clean_abs}

visit_name : (rooted : Bool) (out : List Text) (c : Text) → IsName c → visit rooted out c ≡ c ∷ out
unfolding visit
visit_name rooted out c h =
    ground
      (arith, h.ne_nil, h.ne_dot, h.ne_dots, text_eq_iff c (codes "."), text_eq_iff c (codes ".."))

-- Components that are names are kept.
resolve_names :
    (rooted : Bool) (out cs : List Text) → All IsName cs → resolve rooted out cs ≡ reverse out ++ cs
unfolding resolve
resolve_names rooted out [] h = sym (append-nil (reverse out))
resolve_names rooted out (c ∷ cs) h =
    ap (λ (o : List Text). resolve rooted o cs) (visit_name rooted out c h.0)
    ∙ (resolve_names rooted (c ∷ out) cs h.1
        ∙ (ap (λ (l : List Text). l ++ cs) (reverse-cons c out)
            ∙ append_assoc (reverse out) (c ∷ []) cs))

resolve_last :
    (rooted : Bool) (out cs : List Text) (c : Text)
    → IsName c
    → resolve rooted out (cs ++ c ∷ []) ≡ resolve rooted out cs ++ c ∷ []
unfolding resolve
resolve_last rooted out [] c h = ap reverse (visit_name rooted out c h) ∙ reverse-cons c out
resolve_last rooted out (d ∷ cs) c h = resolve_last rooted (visit rooted out d) cs c h

IsName-NoSlash : (cs : List Text) → All IsName cs → All NoSlash cs
IsName-NoSlash [] h = tt
IsName-NoSlash (c ∷ cs) h = (h.0.no_slash, IsName-NoSlash cs h.1)

is_abs_slash : (s : Text) → is_abs (b'/' ∷ s) ≡ true
unfolding is_abs has_prefix
is_abs_slash s = refl

resolve_slash : (cs : List Text) → resolve true [] ([] ∷ cs) ≡ resolve true [] cs
unfolding resolve visit
resolve_slash cs = refl

resolve_parts : (cs : List Text) → All IsName cs → resolve true [] (split (join_names cs)) ≡ cs
unfolding resolve split join_names visit
resolve_parts [] h = refl
resolve_parts (c ∷ cs) h =
    rw (split-join_names c cs (IsName-NoSlash (c ∷ cs) h)) (resolve_names true [] (c ∷ cs) h)

names_rooted : (cs : List Text) → All IsName cs → names (b'/' ∷ join_names cs) ≡ cs
unfolding names
names_rooted cs h =
    rw
      (
        is_abs_slash (join_names cs),
        split_slash (join_names cs),
        resolve_slash (split (join_names cs)),
      )
      (resolve_parts cs h)

-- Cleaning keeps the components of an absolute path.
names-clean : (p : Text) → is_abs p ≡ true → names (clean p) ≡ names p
names-clean p h = rw (clean_abs p h) (names_rooted (names p) (names-IsName p h))

is_abs-append : (p t : Text) → is_abs p ≡ true → is_abs (p ++ t) ≡ true
unfolding is_abs has_prefix
is_abs-append [] t h = ground arith
is_abs-append (c ∷ p) t h = ground arith

join_two : (p c : Text) → p ≢ [] → c ≢ [] → join (p ∷ c ∷ []) ≡ clean (p ++ b'/' ∷ c)
unfolding join not_empty join_cleaned join_names
join_two p c n m = ground arith

is_abs-ne-nil : (p : Text) → is_abs p ≡ true → p ≢ []
unfolding is_abs has_prefix
is_abs-ne-nil p h = ground arith

names-child : (p c : Text) → is_abs p ≡ true → IsName c → names (p ++ b'/' ∷ c) ≡ names p ++ c ∷ []
unfolding names
names-child p c h n =
    rw (is_abs-append p (b'/' ∷ c) h, h, split-append p c, split_component c n.no_slash)
      (resolve_last true [] (split p) c n)

-- `filepath.Join` of a directory and a name.
pub names-join :
    (p c : Text) → is_abs p ≡ true → IsName c → names (join (p ∷ c ∷ [])) ≡ names p ++ c ∷ []
names-join p c h n =
    ap names (join_two p c (is_abs-ne-nil p h) n.ne_nil)
    ∙ (names-clean (p ++ b'/' ∷ c) (is_abs-append p (b'/' ∷ c) h) ∙ names-child p c h n)

pub is_abs-join : (p c : Text) → is_abs p ≡ true → c ≢ [] → is_abs (join (p ∷ c ∷ [])) ≡ true
is_abs-join p c h n =
    rw
      (join_two p c (is_abs-ne-nil p h) n, clean_abs (p ++ b'/' ∷ c) (is_abs-append p (b'/' ∷ c) h))
      (is_abs_slash (join_names (names (p ++ b'/' ∷ c))))
