-- ===== src/GitDeploy/Executor/Phases.antt =====
-- The checks, the fetch and the choice of a target in `Run`, as triples over the protocol.
use releasepanel_agent.Base.{
  ◌≡◌, ◌≢◌, inl, inr, refl, Bool, true, false, not, Option, List, [], arith, is_empty,
}
use releasepanel_agent.Text.{Text, Unicode}
use releasepanel_agent.System.Trace
use releasepanel_agent.System.{
  Os, Sys, Event, Result, ok, err, StatReply, found, missing, failed, report, stat, look_path,
}
use releasepanel_agent.System.Ensures.{
  Ensures, Ensures-pure, Ensures-if, Ensures-bind, Ensures-fact, Ensures-weaken,
}
use releasepanel_agent.GitDeploy.Git.{Git, is_regular, git_verify_commit}
use releasepanel_agent.GitDeploy.Git.Exists.{HasStatTexts, IsTold, Ensures-git_repo_exists}
use releasepanel_agent.GitDeploy.Executor.{
  Options, deploy_path, desired_sha, need, git_or_fail, prepare, check_key, fetch_phase,
  check_parent, check_free, download, choose_target,
}
use releasepanel_agent.GitDeploy.Executor.Receipts.{
  At, End, Ensures-fail, Ensures-require, Ensures-accept, Ensures-need,
}
use releasepanel_agent.GitDeploy.Executor.Commands.{bounded_reason-ne-nil, Ensures-run_git}
use releasepanel_agent.GitDeploy.Protocol.{
  Stage, starting, fetching, downloaded, applying, targeted, broken, IsChecked, IsOpen, Work, after,
  newest,
}

module _ ⦃u : Unicode⦄ (os : Os) (o : Options) (base : List Event) where
  ask_stat :
      {P : Sys → Type 0} {R : Option Text → Sys → Type 0} (path : Text)
      → Ensures P (stat os path) (λ _. P) R
  unfolding stat
  ask_stat path = record { at = λ s h. h }

  ask_path :
      {P : Sys → Type 0} {R : Option Text → Sys → Type 0} (name : Text)
      → Ensures P (look_path os name) (λ _. P) R
  unfolding look_path
  ask_path name = record { at = λ s h. h }

  -- A value that is needed while the run stands at `σ`.
  need-At :
      {A : Type 0} (σ : Stage) (reason : Text → Text) (r : Result A)
      → IsOpen σ
      → ((e : Text) → reason e ≢ [])
      → Ensures (At o base σ) (need os (report os) o reason r) (λ _. At o base σ) (End o base)
  unfolding need
  need-At σ reason (ok a) may ne = Ensures-pure a (λ s h. h)
  need-At σ reason (err e) may ne = Ensures-fail os o base σ (reason e) may (ne e)

  Ensures-check_key :
      (st : StatReply)
      → Ensures
          (At o base starting)
          (check_key os (report os) o st)
          (λ _. At o base starting)
          (End o base)
  unfolding check_key
  Ensures-check_key (missing e) = Ensures-fail os o base starting _ tt (ground arith)
  Ensures-check_key (failed e) = Ensures-fail os o base starting _ tt (ground arith)
  Ensures-check_key (found i) =
      Ensures-if (not (is_regular i.kind))
        (λ _. Ensures-fail os o base starting _ tt (ground arith))
        (λ _.
          Ensures-weaken (Ensures-require os o base starting _ _ tt (ground arith)) (λ _ s h. h.0))

  pub Ensures-prepare :
      Ensures
        (At o base starting)
        (prepare os (report os) o)
        (λ _ s. At o base starting s × IsChecked o)
        (End o base)
  unfolding prepare
  Ensures-prepare = Ensures-bind (ask_path _) λ found_git.
      Ensures-bind (need-At starting _ found_git tt (λ e. ground arith)) λ git_path.
        Ensures-bind (Ensures-require os o base starting _ _ tt (ground arith)) λ _.
          Ensures-fact λ named.
            Ensures-bind (Ensures-accept os o base starting _ _ tt (λ e. ground arith)) λ _.
              Ensures-fact λ allowed.
                Ensures-bind (Ensures-require os o base starting _ _ tt (ground arith)) λ _.
                  Ensures-fact λ configured.
                    Ensures-bind (Ensures-require os o base starting _ _ tt (ground arith)) λ _.
                      Ensures-fact λ named_key. Ensures-bind (ask_stat _) λ key.
                        Ensures-bind (Ensures-check_key key) λ _.
                          Ensures-bind (need-At starting _ _ tt (λ e. ground arith)) λ ssh.
                            Ensures-pure _ (λ s h.
                              (h, record { path_allowed = allowed; key_configured = configured }))

  pub Ensures-git_or_fail :
      (git : Git) (σ : Stage) (d : Text) (args : List Text) (prefix : Text)
      → Work o σ d args
      → prefix ≢ []
      → Ensures
          (At o base σ)
          (git_or_fail os (report os) o git d args prefix)
          (λ out. At o base (after o σ out))
          (End o base)
  unfolding git_or_fail
  Ensures-git_or_fail git σ d args prefix w ne =
      Ensures-bind (Ensures-run_git os o base git σ d args w)
        (λ out. Ensures-need os o base broken _ out tt (λ e _. bounded_reason-ne-nil prefix e ne))

  Ensures-check_parent :
      (st : StatReply)
      → Ensures
          (At o base fetching)
          (check_parent os (report os) o st)
          (λ _. At o base fetching)
          (End o base)
  unfolding check_parent
  Ensures-check_parent (missing e) = Ensures-fail os o base fetching _ tt (ground arith)
  Ensures-check_parent (failed e) = Ensures-fail os o base fetching _ tt (ground arith)
  Ensures-check_parent (found i) =
      Ensures-weaken (Ensures-require os o base fetching _ _ tt (ground arith)) (λ _ s h. h.0)

  Ensures-check_free :
      (st : StatReply)
      → Ensures
          (At o base fetching)
          (check_free os (report os) o st)
          (λ _. At o base fetching)
          (End o base)
  unfolding check_free
  Ensures-check_free (found i) = Ensures-fail os o base fetching _ tt (ground arith)
  Ensures-check_free (failed e) = Ensures-fail os o base fetching _ tt (ground arith)
  Ensures-check_free (missing e) = Ensures-pure tt (λ s h. h)

  Ensures-download :
      (git : Git) (there : Bool)
      → Ensures
          (At o base fetching)
          (download os (report os) o git there)
          (λ _. At o base downloaded)
          (End o base)
  unfolding download
  Ensures-download git true =
      Ensures-bind (Ensures-git_or_fail git fetching _ _ _ (inr (refl, refl)) (ground arith))
        λ _. Ensures-pure tt (λ s h. h)
  Ensures-download git false = Ensures-bind (ask_stat _) λ st.
      Ensures-bind (Ensures-check_free st) λ _.
        Ensures-bind (Ensures-git_or_fail git fetching _ _ _ (inl (refl, refl)) (ground arith))
          λ _. Ensures-pure tt (λ s h. h)

  -- A told error is reported as it is.
  need_told :
      {A : Type 0} (σ : Stage) (r : Result A)
      → IsOpen σ
      → IsTold r
      → Ensures (At o base σ) (need os (report os) o (λ e. e) r) (λ _. At o base σ) (End o base)
  unfolding need
  need_told σ (ok a) may told = Ensures-pure a (λ s h. h)
  need_told σ (err e) may told = Ensures-fail os o base σ e may told

  pub Ensures-fetch_phase :
      HasStatTexts os
      → (git : Git)
      → Ensures
          (At o base fetching)
          (fetch_phase os (report os) o git)
          (λ _. At o base downloaded)
          (End o base)
  unfolding fetch_phase
  Ensures-fetch_phase texts git =
      Ensures-bind (Ensures-accept os o base fetching _ _ tt (λ e. ground arith)) λ _.
        Ensures-fact λ allowed. Ensures-bind (ask_stat _) λ st.
          Ensures-bind (Ensures-check_parent st) λ _.
            Ensures-bind (Ensures-git_repo_exists os texts _ _ _) λ there. Ensures-fact λ told.
              Ensures-bind (need_told fetching there tt told) λ exists. Ensures-download git exists

  is_empty-eq : (t : Text) → is_empty t ≡ true → t ≡ []
  is_empty-eq t e = ground arith

  pub Ensures-choose_target :
      (git : Git)
      → Ensures
          (At o base applying)
          (choose_target os (report os) o git)
          (λ target. At o base (targeted target))
          (End o base)
  unfolding choose_target git_verify_commit
  Ensures-choose_target git =
      Ensures-if (is_empty (desired_sha o))
        (λ e. Ensures-pure _ (λ s h. Trace.silent h (newest (ground arith) refl)))
        (λ e.
          Ensures-bind
            (Ensures-run_git os o base git applying (deploy_path o) _ (refl, ground arith, refl))
            λ seen.
              Ensures-bind
                (Ensures-need os o base broken _ seen tt
                  (λ x _. bounded_reason-ne-nil _ x (ground arith)))
                λ _. Ensures-pure _ (λ s h. h))
