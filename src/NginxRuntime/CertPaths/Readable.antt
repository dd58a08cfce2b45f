-- ===== src/NginxRuntime/CertPaths/Readable.antt =====
-- What an accepted pair of certificate and key is.
use releasepanel_agent.Base.{
  ◌≡◌, ◌≢◌, ◌⊎◌, inl, inr, refl, arith, true, Option, none, some, List, [], ◌∷◌, if◌then◌else◌,
  is_empty,
}
use releasepanel_agent.Text.{Text, codes, trim_space}
use releasepanel_agent.FilePath.{clean}
use releasepanel_agent.System.{
  Os, Sys, Result, ok, err, StatReply, FileInfo, found, missing, failed, Kind, regular, directory,
  symlink, socket, other,
}
use releasepanel_agent.GitDeploy.PathValidate.{validate_deploy_path}
use releasepanel_agent.GitDeploy.PathValidate.Allowed.{IsAllowed, validate_deploy_path-IsAllowed}
use releasepanel_agent.GitDeploy.Git.{is_regular}
use releasepanel_agent.NginxRuntime.WebRoot.{validate_linux_path}
use releasepanel_agent.NginxRuntime.CertPaths.{
  resolved_or, resolved_cert_path, check_open, check_stat, check_bounds, check_linux_path, labelled,
  validate_readable_cert_file, validate_readable_cert_pair,
}

-- The file that the system gives behind the links of a path, or the path itself where it gives
-- none.
abbrev pub IsBehind : Os → Sys → Text → Text → Type 0
IsBehind os s p file =
    ((r : Text) × (os.eval_symlinks s (clean p) ≡ ok r) × (file ≡ clean r))
    ⊎ ((e : Text) × (os.eval_symlinks s (clean p) ≡ err e) × (file ≡ clean p))

-- The file behind the path is within the roots, regular, and can be opened.
pub record IsReadable (os : Os) (s : Sys) (roots : List Text) (p : Text) : Type 0 where
  pub safe : validate_linux_path p ≡ none
  pub target : Text
  pub followed : IsBehind os s p target
  pub within : IsAllowed target roots
  pub info : FileInfo
  pub there : os.stat s target ≡ found info
  pub file_regular : info.kind ≡ regular
  pub opens : os.open_file s target ≡ none

resolved_cert_path_lem :
    (os : Os) (s : Sys) (p : Text) → IsBehind os s p (resolved_cert_path os s p)
unfolding resolved_cert_path resolved_or
resolved_cert_path_lem os s p = behind (os.eval_symlinks s (clean p)) refl
  where
    behind :
        (r : Result Text)
        → os.eval_symlinks s (clean p) ≡ r
        → ((q : Text) × (os.eval_symlinks s (clean p) ≡ ok q) × (resolved_or (clean p) r ≡ clean q))
          ⊎ ((e : Text) × (os.eval_symlinks s (clean p) ≡ err e)
              × (resolved_or (clean p) r ≡ clean p))
    behind (ok q) h = inl (q, h, refl)
    behind (err e) h = inr (e, h, refl)

is_regular_lem : (k : Kind) → is_regular k ≡ true → k ≡ regular
unfolding is_regular
is_regular_lem regular h = refl
is_regular_lem directory h = ground arith
is_regular_lem symlink h = ground arith
is_regular_lem socket h = ground arith
is_regular_lem other h = ground arith

module _ (os : Os) (s : Sys) (roots : List Text) where
  check_stat_lem :
      (st : StatReply) (opened : Option Text)
      → check_stat st opened ≡ none
      → (info : FileInfo) × (st ≡ found info) × (is_regular info.kind ≡ true) × (opened ≡ none)
  unfolding check_stat check_open
  check_stat_lem (missing e) opened h = ground arith
  check_stat_lem (failed e) opened h = ground arith
  check_stat_lem (found i) none h = (i, refl, ground arith, refl)
  check_stat_lem (found i) (some e) h = ground arith

  chained : (a b : Option Text) → check_bounds a b ≡ none → (a ≡ none) × (b ≡ none)
  unfolding check_bounds
  chained none b h = (refl, h)
  chained (some e) b h = ground arith

  linux_chained : (a b : Option Text) → check_linux_path a b ≡ none → (a ≡ none) × (b ≡ none)
  unfolding check_linux_path
  linux_chained none b h = (refl, h)
  linux_chained (some e) b h = ground arith

  label_chained : (l : Text) (a b : Option Text) → labelled l a b ≡ none → (a ≡ none) × (b ≡ none)
  unfolding labelled
  label_chained l none b h = (refl, h)
  label_chained l (some e) b h = ground arith

  validate_readable_cert_file-IsReadable :
      (p : Text)
      → roots ≢ []
      → validate_readable_cert_file os s p roots ≡ none
      → IsReadable os s roots p
  unfolding validate_readable_cert_file
  validate_readable_cert_file-IsReadable p n h =
      let q = resolved_cert_path os s p in
      let bounds = if is_empty roots then none else validate_deploy_path q roots in
      let (safe, a) = linux_chained (validate_linux_path p) _ h in
      let (b, c) = chained bounds (check_stat (os.stat s q) (os.open_file s q)) a in
      let (info, there, kind, opens) = check_stat_lem (os.stat s q) (os.open_file s q) c in
      record {
        safe = safe;
        target = q;
        followed = resolved_cert_path_lem os s p;
        within = validate_deploy_path-IsAllowed q roots (bounded roots n b);
        info = info;
        there = there;
        file_regular = is_regular_lem info.kind kind;
        opens = opens;
      }
    where
      bounded :
          (rs : List Text)
          → rs ≢ []
          → (if is_empty rs then none else validate_deploy_path (resolved_cert_path os s p) rs)
            ≡ none
          → validate_deploy_path (resolved_cert_path os s p) rs ≡ none
      bounded [] m e = absurd (m refl)
      bounded (r ∷ rs) m e = e

  -- A pair that `ValidateReadableCertPair` accepts for some roots consists of two paths that are
  -- safe to write into the configuration; the file that `EvalSymlinks` gives for each, or the
  -- path itself where it gives an error, is within these roots, regular and can be opened.
  pub validate_readable_cert_pair-IsReadable :
      (cert key : Text)
      → roots ≢ []
      → validate_readable_cert_pair os s cert key roots ≡ none
      → IsReadable os s roots (trim_space cert) × IsReadable os s roots (trim_space key)
  unfolding validate_readable_cert_pair
  validate_readable_cert_pair-IsReadable cert key n h =
      let c = validate_readable_cert_file os s (trim_space cert) roots in
      let k = validate_readable_cert_file os s (trim_space key) roots in
      let q : labelled (codes "certificate path: ") c
            (labelled (codes "certificate key path: ") k none)
          ≡ none =
        ground arith in
      let (cert_ok, rest) = label_chained (codes "certificate path: ") c _ q in
      let (key_ok, end) = label_chained (codes "certificate key path: ") k none rest in
      (
        validate_readable_cert_file-IsReadable (trim_space cert) n cert_ok,
        validate_readable_cert_file-IsReadable (trim_space key) n key_ok,
      )
