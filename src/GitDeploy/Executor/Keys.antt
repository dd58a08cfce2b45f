-- ===== src/GitDeploy/Executor/Keys.antt =====
-- internal/gitdeploy/executor.go: the deploy key that `Run` checks before it goes on.
use Prim.Native.Nat.{bit_and}
use releasepanel_agent.Base.{
  ◌≡◌, ◌⊎◌, inl, inr, refl, ap, sym, ◌∙◌, arith, ◌==◌, Bool, true, false, not, ◌||◌, Option, none,
  some, ◌∷◌, is_empty,
}
use releasepanel_agent.Text.{Text, trim_space, Unicode}
use releasepanel_agent.Api.{SiteRuntimeReportRow}
use releasepanel_agent.System.{
  Os, Sys, M, Result, ok, err, StatReply, FileInfo, found, missing, failed, Kind, regular,
  directory, symlink, socket, other, reported, report, go, stop, Exit, stat, look_path, leave, now,
  pure, ◌>>=◌,
}
use releasepanel_agent.System.Ensures.{
  Ensures, Post, Ensures-bind, Ensures-pure, Ensures-if, Ensures-fact, Ensures-weaken,
  Ensures-relax, Ensures-either,
}
use releasepanel_agent.GitDeploy.PathValidate.{validate_deploy_path}
use releasepanel_agent.GitDeploy.Rows.{failed_row}
use releasepanel_agent.GitDeploy.Git.{is_regular}
use releasepanel_agent.GitDeploy.Executor.{
  Options, branch, deploy_path, git_url, fail, require, accept, need, check_key, prepare, steps,
  run,
}

-- The key of the options as the system shows it: a regular file without a bit for its group or for
-- others.
pub record HasUsableKey (os : Os) (s : Sys) (o : Options) : Type 0 where
  pub info : FileInfo
  pub there : os.stat s (trim_space o.private_key_path) ≡ found info
  pub is_file : info.kind ≡ regular
  pub private : bit_and info.perm 0o077 ≡ 0

module _ (os : Os) (o : Options) (s : Sys) where
  -- A run that ends at once has left one receipt.
  abbrev Refused : Option Text → Sys → Type 0
  Refused e t = (row : SiteRuntimeReportRow) × (x : Option Text) × (t.log ≡ reported row x ∷ s.log)

  abbrev Checks : {A : Type 0} → M A → Type 0 → Type 0
  Checks m F = Ensures (λ t. t ≡ s) m (λ _ t. (t ≡ s) × F) Refused

  fail-Checks :
      {A : Type 0} (reason : Text) {F : Type 0} → Checks (fail os (report os) o {A = A} reason) F
  unfolding fail failed_row report ◌>>=◌ now pure leave
  fail-Checks reason = record { at = λ t q. rw q (_, _, refl) }

  require-Checks :
      (b : Bool) (reason : Text) → Checks (require os (report os) o b reason) (b ≡ true)
  unfolding require
  require-Checks true reason = Ensures-pure tt (λ t q. (q, refl))
  require-Checks false reason = fail-Checks reason

  accept-Checks :
      (reason : Text → Text) (e : Option Text)
      → Checks (accept os (report os) o reason e) (e ≡ none)
  unfolding accept
  accept-Checks reason none = Ensures-pure tt (λ t q. (q, refl))
  accept-Checks reason (some e) = fail-Checks (reason e)

  need-Checks :
      {A : Type 0} (reason : Text → Text) (r : Result A)
      → Checks (need os (report os) o reason r) (Unit {0})
  unfolding need
  need-Checks reason (ok a) = Ensures-pure a (λ t q. (q, tt))
  need-Checks reason (err e) = fail-Checks (reason e)

  regular_lem : (k : Kind) → not (is_regular k) ≡ false → k ≡ regular
  unfolding is_regular
  regular_lem regular h = refl
  regular_lem directory h = ground arith
  regular_lem symlink h = ground arith
  regular_lem socket h = ground arith
  regular_lem other h = ground arith

  check_key-Checks :
      (st : StatReply)
      → Checks
          (check_key os (report os) o st)
          ((i : FileInfo) × (st ≡ found i) × (i.kind ≡ regular) × (bit_and i.perm 0o077 ≡ 0))
  unfolding check_key
  check_key-Checks (missing e) = fail-Checks _
  check_key-Checks (failed e) = fail-Checks _
  check_key-Checks (found i) =
      Ensures-if (not (is_regular i.kind)) (λ h. fail-Checks _)
        (λ h.
          Ensures-weaken (require-Checks (bit_and i.perm 0o077 == 0) _)
            (λ _ t q. (q.0, (i, refl, regular_lem i.kind h, ground arith))))

  prepare-Checks : Checks (prepare os (report os) o) (HasUsableKey os s o)
  unfolding prepare look_path stat
  prepare-Checks =
      Ensures-bind {Q = λ _ t. t ≡ s} (record { at = λ t q. q })
        λ found_git. Ensures-bind (need-Checks _ found_git) λ _. Ensures-fact λ _.
          Ensures-bind
            (require-Checks
              (not (is_empty (branch o) || is_empty (deploy_path o) || is_empty (git_url o))) _)
            λ _. Ensures-fact λ _.
              Ensures-bind
                (accept-Checks _ (validate_deploy_path (deploy_path o) o.allowed_path_roots))
                λ _. Ensures-fact λ _.
                  Ensures-bind (require-Checks o.intent.repository_deploy_key_configured _) λ _.
                    Ensures-fact λ _.
                      Ensures-bind
                        (require-Checks (not (is_empty (trim_space o.private_key_path))) _)
                        λ _. Ensures-fact λ _.
                          Ensures-bind
                            {Q = λ key t.
                              (t ≡ s) × (os.stat s (trim_space o.private_key_path) ≡ key)}
                            (record {
                              at = λ t q. (
                                q,
                                ap (λ (x : Sys). os.stat x (trim_space o.private_key_path)) (sym q),
                              );
                            })
                            λ key. Ensures-fact λ seen. Ensures-bind (check_key-Checks key) λ _.
                              Ensures-fact λ usable. Ensures-bind (need-Checks _ _) λ _.
                                Ensures-fact λ _. Ensures-pure _ (λ t q. (
                                  q,
                                  record {
                                    info = usable.0;
                                    there = seen ∙ usable.1;
                                    is_file = usable.2;
                                    private = usable.3;
                                  },
                                ))

-- In a run the key is usable at its start, or the run only sends one receipt.
abbrev pub UsableOrRefused : Os → Options → Sys → Sys → Type 0
UsableOrRefused os o s t =
    HasUsableKey os s o
    ⊎ ((row : SiteRuntimeReportRow) × (x : Option Text) × (t.log ≡ reported row x ∷ s.log))

module _ {S A : Type 0} {F : Type 0} where
  always_Post :
      (G : S → Type 0) (r : Exit A) (t : S) → F → Post (λ _ u. F ⊎ G u) (λ _ u. F ⊎ G u) r t
  always_Post G (stop e) t f = inl f
  always_Post G (go a) t f = inl f

pub run-key :
    ⦃u : Unicode⦄ (os : Os) (o : Options) (s : Sys)
    → UsableOrRefused os o s (run os (some (report os)) o s).1
unfolding run steps
run-key os o s =
    Ensures-either {Q = λ _ t. UsableOrRefused os o s t} {R = λ _ t. UsableOrRefused os o s t}
      (Ensures-bind (Ensures-relax (prepare-Checks os o s) (λ e t h. inr h))
        λ git. Ensures-fact λ key. record { at = λ t q. always_Post _ _ _ key })
      s refl (λ a e h. h) (λ e q h. h)
