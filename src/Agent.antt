-- ===== src/Agent.antt =====
-- cmd/agent/main.go: how the loop prepares what it hands to the executors.
pub mod Loop
pub mod Receipts
pub mod Hosted
pub mod Dispatch
pub mod Cycle
pub mod Commands
pub mod Start
pub mod Reported
pub mod Endures
pub mod Keys
mod Tests
use releasepanel_agent.Base.{
  ◌≡◌, ◌↔◌, refl, arith, Option, none, some, List, [], ◌∷◌, if◌then◌else◌, is_empty, Bool-cases,
  inl, inr, true, ◌≢◌,
}
use releasepanel_agent.Text.{Text, codes, trim_space, trim_space_idem}
use releasepanel_agent.FilePath.{clean}
use releasepanel_agent.GitDeploy.PathValidate.{check_roots, validate_deploy_path}

unfoldable pub normalize_deploy_roots : List Text → List Text
normalize_deploy_roots [] = []
normalize_deploy_roots (r ∷ rs) =
    let rest = normalize_deploy_roots rs in
    if is_empty (trim_space r) then rest else trim_space r ∷ rest

check_roots-normalize_deploy_roots :
    (p : Text) (roots : List Text)
    → check_roots p (normalize_deploy_roots roots) ≡ check_roots p roots
unfolding check_roots normalize_deploy_roots
check_roots-normalize_deploy_roots p [] = refl
check_roots-normalize_deploy_roots p (r ∷ rs) =
    ground (arith, trim_space_idem r, check_roots-normalize_deploy_roots p rs)

check_roots_nil :
    (p : Text) (roots : List Text)
    → is_empty (normalize_deploy_roots roots) ≡ true
    → check_roots p roots ≢ none
unfolding check_roots
check_roots_nil p roots h = ground (arith, check_roots-normalize_deploy_roots p roots)

-- Normalizing the roots changes no acceptance: `ValidateDeployPath` accepts a path for the
-- normalized roots exactly when it does for the roots as they are configured.
pub validate_deploy_path-normalize_deploy_roots :
    (path : Text) (roots : List Text)
    → (validate_deploy_path path (normalize_deploy_roots roots) ≡ none)
      ↔ (validate_deploy_path path roots ≡ none)
unfolding validate_deploy_path normalize_deploy_roots
validate_deploy_path-normalize_deploy_roots path [] = (λ h. h, λ h. h)
validate_deploy_path-normalize_deploy_roots path (r ∷ rs) =
    (λ h. ground (arith, same, none_left), λ h. ground (arith, same, none_left))
  where
    same :
        check_roots (clean (trim_space path)) (normalize_deploy_roots (r ∷ rs))
        ≡ check_roots (clean (trim_space path)) (r ∷ rs)
    same = check_roots-normalize_deploy_roots (clean (trim_space path)) (r ∷ rs)

    none_left :
        is_empty (normalize_deploy_roots (r ∷ rs)) ≡ true
        → check_roots (clean (trim_space path)) (r ∷ rs) ≢ none
    none_left = check_roots_nil (clean (trim_space path)) (r ∷ rs)
