-- ===== src/Deploy.antt =====
-- internal/deploy/runner.go, with internal/lock/lock.go, and the records and paths of
-- internal/state/state.go and internal/paths/paths.go that it uses.
pub mod Outcome
pub mod Converges
mod Tests
use releasepanel_agent.Base.{
  ℕ, Bool, true, false, not, ◌&&◌, Option, none, some, [], ◌∷◌, ◌++◌, if◌then◌else◌, is_empty,
}
use releasepanel_agent.Text.{Text, codes, text_eq}
use releasepanel_agent.FilePath.{join}
use releasepanel_agent.Api.{ConvergenceReport}
use releasepanel_agent.System.{
  Os, Sys, M, Node, Result, ok, err, Exit, go, Action, now, pure, leave, call, result, deferred,
  check, ◌>>=◌, ◌>>◌, mkdir_all, create_new, append, close, remove,
}
use releasepanel_agent.System.Files.{touch}
use releasepanel_agent.System.Atomic.{replace_file}

-- The paths below the state directory.
unfoldable pub convergence_state : Text → Text
convergence_state state_dir = join (state_dir ∷ codes "convergence.json" ∷ [])

unfoldable pub locks_dir : Text → Text
locks_dir state_dir = join (state_dir ∷ codes "locks" ∷ [])

unfoldable pub deploy_staging : Text → Text
deploy_staging state_dir = join (state_dir ∷ codes "deploy" ∷ codes "staging" ∷ [])

unfoldable pub deploy_runs : Text → Text
deploy_runs state_dir = join (state_dir ∷ codes "deploy" ∷ codes "runs" ∷ [])

pub record ConvergenceRecord : Type 0 where
  pub schema_version : ℕ
  pub desired_fingerprint : Text
  pub applied_fingerprint : Text
  pub last_reported_fingerprint : Text
  pub last_deploy_run_id : Text
  pub updated_at : Text

pub record RunRecord : Type 0 where
  pub run_id : Text
  pub started_at : Text
  pub phase : Text
  pub message : Text

-- Central's client, the encodings of package json and the clock in the format of a run id.
pub record Remote : Type 0 where
  pub fetch_desired : Sys → Result (Text × Text)
  pub post_convergence : Sys → ConvergenceReport → Option Text
  pub fingerprint_of : Text → Option Text
  pub encode_run : RunRecord → Text
  pub encode_convergence : ConvergenceRecord → Result Text
  pub run_id : Sys → Text
  -- `os.IsExist` on an error of the exclusive create.
  pub is_exist : Text → Bool

-- The system, and the record that the caller shares with `Reconcile` by its pointer.
pub record World : Type 0 where
  pub sys : Sys
  pub conv : ConvergenceRecord

unfoldable pub attempt : {A : Type 0} → M A → Action World (Option Text)
unfolding result
attempt m w = let (r, t) = m w.sys in (go (result r), record w { sys = t })

unfoldable pub ask : {A : Type 0} → (Sys → A) → Action World A
ask f w = (go (f w.sys), w)

unfoldable pub read_conv : Action World ConvergenceRecord
read_conv w = (go w.conv, w)

unfoldable pub modify : (ConvergenceRecord → ConvergenceRecord) → Action World (Unit {0})
modify f w = (go tt, record w { conv = f w.conv })

pub is_some : Option Node → Bool
is_some none = false
is_some (some n) = true

pub fingerprint_from_payload : Remote → Text → Text
fingerprint_from_payload remote raw =
    if is_empty raw then [] else or_empty (remote.fingerprint_of raw)
  where
    or_empty : Option Text → Text
    or_empty none = []
    or_empty (some fp) = fp

module _ (os : Os) (remote : Remote) (state_dir node_id : Text) where
  -- `os.MkdirAll` and nothing else.
  make_dir : Text → M (Unit {0})
  make_dir p = do e ← touch os (mkdir_all p); leave e

  append_run_record : Text → RunRecord → M (Unit {0})
  append_run_record run_id rec = do
    let runs = deploy_runs state_dir
    made ← touch os (mkdir_all runs)
    check made
    e ← touch os (append (join (runs ∷ (run_id ++ codes ".jsonl") ∷ [])) (remote.encode_run rec))
    leave e

  -- `_ = appendRunRecord(…)`.
  record_phase : Text → Text → Text → Action World (Option Text)
  unfolding append_run_record
  record_phase run_id phase message = do
    at ← ask os.now
    attempt (
        append_run_record run_id
          (record { run_id = run_id; started_at = at; phase = phase; message = message }))

  -- `state.WriteJSONAtomic` of the record, mode 0644.
  save : Action World (Option Text)
  save = do
    conv ← read_conv
    attempt (
        replace_file os (codes ".rp-*") 0o644 (convergence_state state_dir)
          (remote.encode_convergence conv))

  on_fetch : Text → Result (Text × Text) → Action World (Text × Text)
  unfolding record_phase
  on_fetch run_id (ok r) = pure r
  on_fetch run_id (err e) = do record_phase run_id (codes "FETCH_DESIRED") e; leave (some e)

  pub post_error : Option Text → Option Text
  post_error none = none
  post_error (some e) = some (codes "post convergence: " ++ e)

  report_of : ConvergenceRecord → Text → ConvergenceReport
  report_of c at = record {
    schema_version = 1;
    node_id = node_id;
    collected_at = at;
    desired_fingerprint = c.desired_fingerprint;
    applied_fingerprint = c.applied_fingerprint;
    last_reported_fingerprint = c.last_reported_fingerprint;
    last_deploy_run_id = c.last_deploy_run_id;
    pending_convergence = not (text_eq c.desired_fingerprint c.applied_fingerprint);
  }

  -- From the first change of the system to the end.
  apply_and_report : Text → Action World (Unit {0})
  unfolding record_phase make_dir save post_error report_of
  apply_and_report run_id = do
    started ← ask os.now
    modify (λ c. record c { last_deploy_run_id = run_id; updated_at = started })
    record_phase run_id (codes "VALIDATE") (codes "noop validate")
    record_phase run_id (codes "PREPARE") (codes "ensure staging dir")
    made ← attempt (make_dir (join (deploy_staging state_dir ∷ run_id ∷ [])))
    check made
    record_phase run_id (codes "APPLY") (codes "noop apply (scaffold)")
    record_phase run_id (codes "VERIFY") (codes "noop verify (scaffold)")
    applied ← ask os.now
    modify (λ c. record c {
      applied_fingerprint = c.desired_fingerprint;
      updated_at = applied;
      schema_version = 1;
    })
    saved ← save
    check saved
    c ← read_conv
    collected ← ask os.now
    record_phase run_id (codes "REPORT") (codes "post convergence")
    posted ← ask (λ s. remote.post_convergence s (report_of c collected))
    check (post_error posted)
    reported ← ask os.now
    modify (λ c. record c {
      last_reported_fingerprint = c.applied_fingerprint;
      updated_at = reported;
      schema_version = 1;
    })
    e ← save
    leave e

  no_manifest : Text → Bool → Action World (Unit {0})
  unfolding record_phase
  no_manifest run_id false = pure tt
  no_manifest run_id true = do
    record_phase run_id (codes "FETCH_DESIRED") (codes "no desired manifest")
    leave none

  converge_unless : Text → Bool → Action World (Unit {0})
  unfolding apply_and_report
  converge_unless run_id true = leave none
  converge_unless run_id false = apply_and_report run_id

  with_lock : Action World (Unit {0})
  unfolding record_phase on_fetch no_manifest converge_unless fingerprint_from_payload
  with_lock = do
    run_id ← ask remote.run_id
    record_phase run_id (codes "FETCH_DESIRED") (codes "fetch desired manifest")
    fetched ← ask remote.fetch_desired
    got ← on_fetch run_id fetched
    no_manifest run_id (is_empty got.0 && is_empty got.1)
    let fp = if is_empty got.1 then fingerprint_from_payload remote got.0 else got.1
    modify (λ c. record c { desired_fingerprint = fp })
    c ← read_conv
    converge_unless run_id (
        not (is_empty fp)
        && text_eq c.applied_fingerprint fp
        && text_eq c.last_reported_fingerprint fp)

  -- `lock.Release`.
  release : Text → M (Unit {0})
  release path = do touch os (close path); e ← touch os (remove path); leave e

  create_lock : Text → M (Unit {0})
  create_lock path = do e ← touch os (create_new path); leave e

  -- `ErrHeld` is no error of `Reconcile`.
  on_created : Option Text → Action World (Unit {0})
  on_created none = pure tt
  on_created (some e) = if remote.is_exist e then leave none else leave (some e)

  -- `O_EXCL` sees a lock that is there, also one that another process has just made.
  locked : Text → Bool → Action World (Unit {0})
  unfolding with_lock release create_lock on_created
  locked path true = leave none
  locked path false = do
    created ← attempt (create_lock path)
    on_created created
    deferred (attempt (release path)) with_lock

  unfoldable pub reconcile : Action World (Unit {0})
  unfolding locked make_dir is_some
  reconcile = do
    let path = join (locks_dir state_dir ∷ codes "deploy.lock" ∷ [])
    made ← attempt (make_dir (locks_dir state_dir))
    check made
    held ← ask (λ s. is_some (s.disk path))
    locked path held
