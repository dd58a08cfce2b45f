-- ===== src/GitDeploy/PathValidate/Allowed.antt =====
-- `ValidateDeployPath` against a description by path components.
use releasepanel_agent.Base.{
  ◌≡◌, ◌≢◌, ◌⊎◌, inl, inr, refl, ◌++◌, true, false, ◌||◌, none, List, [], ◌∷◌, arith, All, Any,
  Bool-cases, is_empty,
}
use releasepanel_agent.Text.{Text, codes, text_eq, text_eq_iff, has_prefix, contains, trim_space}
use releasepanel_agent.FilePath.{is_abs, clean, names}
use releasepanel_agent.FilePath.Names.{
  Under, Under-of_prefix, Under-of_eq, clean_root_iff, clean_abs,
}
use releasepanel_agent.FilePath.Below.{text_below, Reaches}
use releasepanel_agent.GitDeploy.PathValidate.{check_roots, validate_deploy_path}

-- An absolute path other than the root of the file system.
pub record IsProper (p : Text) : Type 0 where
  pub absolute : is_abs p ≡ true
  pub below_slash : names p ≢ []

-- What an accepted path is: absolute, not the root, with no `..` left, and below a proper root.
pub record IsAllowed (path : Text) (roots : List Text) : Type 0 where
  pub proper : IsProper (trim_space path)
  pub no_dots : contains (clean (trim_space path)) (codes "..") ≡ false
  pub within :
      Any (λ root. IsProper (trim_space root) × Under (trim_space root) (trim_space path)) roots

abbrev Within : Text → Text → Type 0
Within p root = IsProper (trim_space root) × Under (trim_space root) p

pub IsProper-of : (p : Text) → is_abs p ≡ true → text_eq (clean p) (codes "/") ≡ false → IsProper p
IsProper-of p abs ne = record {
  absolute = abs;
  below_slash = (clean_root_iff p abs).0 (ground (arith, text_eq_iff (clean p) (codes "/")));
}

root_Within :
    (p root : Text)
    → IsProper p
    → is_abs (trim_space root) ≡ true
    → text_eq (clean (trim_space root)) (codes "/") ≡ false
    → (text_eq (clean p) (clean (trim_space root))
        || has_prefix (clean p) (clean (trim_space root) ++ codes "/"))
      ≡ true
    → Within p root
root_Within p root hp abs ne test =
    let r = trim_space root in
    let proper = IsProper-of r abs ne in
    let nr = proper.below_slash in
    (
      proper,
      elim (Bool-cases (text_eq (clean p) (clean r))) [
        | inl e ↦ Under-of_eq p r hp.absolute abs hp.below_slash nr ((text_eq_iff _ _).0 e)
        | inr e ↦ Under-of_prefix p r hp.absolute abs hp.below_slash nr (rw e at test)
      ],
    )

check_roots-Within :
    (p : Text) (roots : List Text)
    → IsProper p
    → check_roots (clean p) roots ≡ none
    → Any (Within p) roots
unfolding check_roots
check_roots-Within p [] hp h = ground arith
check_roots-Within p (root ∷ roots) hp h =
    ground (arith, root_Within p root hp, check_roots-Within p roots hp)

-- A path that `ValidateDeployPath` accepts is absolute, is not the root, keeps no `..`, and its
-- components continue those of one of the given roots, which is itself proper.
pub validate_deploy_path-IsAllowed :
    (path : Text) (roots : List Text)
    → validate_deploy_path path roots ≡ none
    → IsAllowed path roots
unfolding validate_deploy_path
validate_deploy_path-IsAllowed path roots h =
    let p = trim_space path in
    let abs : is_abs p ≡ true = ground arith in
    let ne : text_eq (clean p) (codes "/") ≡ false = ground arith in
    let proper = IsProper-of p abs ne in
    record {
      proper = proper;
      no_dots = ground arith;
      within = check_roots-Within p roots proper (ground arith);
    }

-- A root that the loop passes over or compares with.
abbrev IsUsable : Text → Type 0
IsUsable root = (trim_space root ≡ []) ⊎ IsProper (trim_space root)

pub is_abs-not_empty : (p : Text) → is_abs p ≡ true → is_empty p ≡ false
unfolding is_abs has_prefix
is_abs-not_empty [] h = ground arith
is_abs-not_empty (c ∷ p) h = refl

-- What the tests on a proper path say.
pub proper_step :
    {p : Text}
    → IsProper p
    → (is_empty p ≡ false)
      × (is_abs p ≡ true)
      × (text_eq (clean p) (codes "/") ≡ false)
      × (text_eq (clean p) (codes ".") ≡ false)
unfolding text_eq
proper_step {p} h = (
  is_abs-not_empty p h.absolute,
  h.absolute,
  ground (arith, text_eq_iff (clean p) (codes "/"), (clean_root_iff p h.absolute).1 h.below_slash),
  rw (clean_abs p h.absolute) refl,
)

Reaches-test : (p r : Text) → Reaches p r → (text_eq p r || has_prefix p (r ++ codes "/")) ≡ true
Reaches-test p r h = ground (arith, text_eq_iff p r)

Within-check_roots :
    (p : Text) (roots : List Text)
    → IsProper p
    → All IsUsable roots
    → Any (Within p) roots
    → check_roots (clean p) roots ≡ none
unfolding check_roots
Within-check_roots p [] hp us w = elim w [ ]
Within-check_roots p (root ∷ roots) hp us w = elim w [
  | inl (pr, under) ↦ ground (
    arith,
    proper_step pr,
    Reaches-test (clean p) (clean (trim_space root))
        (text_below p (trim_space root) hp.absolute pr.absolute pr.below_slash under),
  )
  | inr later ↦ elim us.0 [
    | inl blank ↦ rw blank (Within-check_roots p roots hp us.1 later)
    | inr pr ↦ ground (arith, proper_step pr, Within-check_roots p roots hp us.1 later)
  ]
]

Any-not_empty : (P : Text → Type 0) (roots : List Text) → Any P roots → is_empty roots ≡ false
Any-not_empty P [] w = elim w [ ]
Any-not_empty P (root ∷ roots) w = refl

-- Where every root is blank or proper, `ValidateDeployPath` accepts each path that is absolute, is
-- not the root, keeps no `..` and continues the components of one of the proper roots.
pub IsAllowed-validate_deploy_path :
    (path : Text) (roots : List Text)
    → All IsUsable roots
    → IsAllowed path roots
    → validate_deploy_path path roots ≡ none
unfolding validate_deploy_path
IsAllowed-validate_deploy_path path roots us h = ground (
  arith,
  proper_step h.proper,
  Any-not_empty (Within (trim_space path)) roots h.within,
  Within-check_roots (trim_space path) roots h.proper us h.within,
)
