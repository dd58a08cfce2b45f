-- ===== src/Agent/Keys.antt =====
-- cmd/agent/main.go: where the deploy key of a site is looked for.
use releasepanel_agent.Base.{
  ◌≡◌, ◌≢◌, ◌↔◌, arith, true, List, [], ◌∷◌, ◌++◌, All, All-append, subst,
}
use releasepanel_agent.Text.{Text, codes}
use releasepanel_agent.FilePath.{is_abs, names, NoSlash}
use releasepanel_agent.FilePath.Names.{IsName, names-IsName}
use releasepanel_agent.FilePath.Child.{names-join, is_abs-join}
use releasepanel_agent.State.{repository_deploy_keys_dir}
use releasepanel_agent.Agent.Loop.{key_path}

key_file-IsName : (site : Text) → NoSlash site → IsName (site ++ codes ".key")
key_file-IsName site h = record {
  no_slash =
      All-append (λ c. c ≢ b'/') site (codes ".key") h
        (ground arith, (ground arith, (ground arith, (ground arith, tt))));
  ne_nil = ne_nil site;
  ne_dot = ne_dot site;
  ne_dots = ne_dots site;
}
  where
    ne_nil : (s : Text) → s ++ codes ".key" ≢ []
    ne_nil [] = ground arith
    ne_nil (c ∷ s) = ground arith

    ne_dot : (s : Text) → s ++ codes ".key" ≢ codes "."
    ne_dot [] = ground arith
    ne_dot (c ∷ s) = λ e. ne_nil s (ground arith)

    ne_dots : (s : Text) → s ++ codes ".key" ≢ codes ".."
    ne_dots [] = ground arith
    ne_dots (c ∷ s) = λ e. ne_dot s (ground arith)

All-left : (P : Text → Type 0) (xs ys : List Text) → All P (xs ++ ys) → All P xs
All-left P [] ys h = tt
All-left P (x ∷ xs) ys h = (h.0, All-left P xs ys h.1)

All-right : (P : Text → Type 0) (xs ys : List Text) → All P (xs ++ ys) → All P ys
All-right P [] ys h = h
All-right P (x ∷ xs) ys h = All-right P xs ys h.1

NoSlash-left : (s t : Text) → NoSlash (s ++ t) → NoSlash s
NoSlash-left [] t h = tt
NoSlash-left (c ∷ s) t h = (h.0, NoSlash-left s t h.1)

is_abs-keys_dir :
    (state_dir : Text)
    → is_abs state_dir ≡ true
    → is_abs (repository_deploy_keys_dir state_dir) ≡ true
unfolding repository_deploy_keys_dir
is_abs-keys_dir state_dir h =
    is_abs-join state_dir (codes "repository-deploy-keys") h (ground arith)

key_path-absolute :
    (state_dir site : Text) → is_abs state_dir ≡ true → is_abs (key_path state_dir site) ≡ true
unfolding key_path
key_path-absolute state_dir site h =
    is_abs-join (repository_deploy_keys_dir state_dir) (site ++ codes ".key")
      (is_abs-keys_dir state_dir h) (ne_nil site)
  where
    ne_nil : (s : Text) → s ++ codes ".key" ≢ []
    ne_nil [] = ground arith
    ne_nil (c ∷ s) = ground arith

-- With an absolute state directory the deploy key of a site is the file `<site>.key` directly
-- below the directory of the keys exactly when the site's id holds no slash.
pub key_path_iff :
    (state_dir site : Text)
    → is_abs state_dir ≡ true
    → (names (key_path state_dir site)
        ≡ names (repository_deploy_keys_dir state_dir) ++ (site ++ codes ".key") ∷ [])
      ↔ NoSlash site
unfolding key_path
key_path_iff state_dir site h = (
  λ e.
      NoSlash-left site (codes ".key")
        (All-right IsName (names (repository_deploy_keys_dir state_dir))
          ((site ++ codes ".key") ∷ [])
          (subst (All IsName) e (
            names-IsName (key_path state_dir site)
              (key_path-absolute state_dir site h)))).0.no_slash,
  λ n.
      names-join (repository_deploy_keys_dir state_dir) (site ++ codes ".key")
        (is_abs-keys_dir state_dir h) (key_file-IsName site n),
)
