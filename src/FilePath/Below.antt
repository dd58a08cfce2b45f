-- ===== src/FilePath/Below.antt =====
-- The converse of `Names.Under-of_prefix`: the test on texts that the agent makes finds every
-- path below a root.
use releasepanel_agent.Base.{
  ◌≡◌, ◌≢◌, ◌⊎◌, inl, inr, refl, sym, true, List, [], ◌∷◌, ◌++◌, append_assoc, append-nil,
}
use releasepanel_agent.Text.{Text, has_prefix, has_prefix-append}
use releasepanel_agent.FilePath.Split.{join_names}
use releasepanel_agent.FilePath.{is_abs, names, clean}
use releasepanel_agent.FilePath.Names.{clean_abs, Under}

join_names-append :
    (c : Text) (cs : List Text) (d : Text) (ds : List Text)
    → join_names ((c ∷ cs) ++ d ∷ ds) ≡ join_names (c ∷ cs) ++ b'/' ∷ join_names (d ∷ ds)
unfolding join_names
join_names-append c [] d ds = refl
join_names-append c (e ∷ es) d ds =
    rw (join_names-append e es d ds) (sym (append_assoc c (b'/' ∷ join_names (e ∷ es)) _))

abbrev pub Reaches : Text → Text → Type 0
Reaches path root = (path ≡ root) ⊎ (has_prefix path (root ++ b'/' ∷ []) ≡ true)

join_names_below :
    (rs rest : List Text) (n : rs ≢ [])
    → Reaches (b'/' ∷ join_names (rs ++ rest)) (b'/' ∷ join_names rs)
join_names_below [] rest n = absurd (n refl)
join_names_below (r ∷ rs) [] n = inl (rw append-nil)
join_names_below (r ∷ rs) (d ∷ ds) n = inr (
    rw (join_names-append r rs d ds) (
      rw (← append_assoc (join_names (r ∷ rs)) (b'/' ∷ []) (join_names (d ∷ ds)))
        (has_prefix-append (b'/' ∷ (join_names (r ∷ rs) ++ b'/' ∷ [])) (join_names (d ∷ ds)))))

-- The test on the texts finds every path below a root.
pub text_below :
    (p r : Text)
    → is_abs p ≡ true
    → is_abs r ≡ true
    → names r ≢ []
    → Under r p
    → Reaches (clean p) (clean r)
text_below p r hp hr nr (rest, e) =
    rw (clean_abs p hp, clean_abs r hr, e) (join_names_below (names r) rest nr)
