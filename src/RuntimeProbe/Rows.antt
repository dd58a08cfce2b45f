-- ===== src/RuntimeProbe/Rows.antt =====
-- The rows of runtimeprobe.RunAll: which there are, and what they may say.
use Prim.Native.String.{String}
use releasepanel_agent.Base.{
  ◌≡◌, ◌≢◌, ◌⊎◌, inl, inr, refl, arith, Bool, true, false, not, ◌&&◌, ◌||◌, Option, none, some,
  List, [], ◌∷◌, if◌then◌else◌, is_empty, ℕ,
}
use releasepanel_agent.Text.{Text, codes, text_eq_iff, trim_space, byte_prefix}
use releasepanel_agent.FilePath.{is_abs}
use releasepanel_agent.System.{StatReply, found, missing, failed}
use releasepanel_agent.Api.{RuntimeDependencyReportRow}
use releasepanel_agent.Config.Probes.{Spec}
use releasepanel_agent.RuntimeProbe.{
  Host, Log, Probe, Outcome, state_observed, state_missing, state_unreachable, state_failed,
  observed, failed_for, missing_for, unreachable_for, socket_dial_outcome, tcp_dial_outcome,
  after_socket_dial, dial_socket, probe_unix_socket, after_tcp_dial, dial_tcp, probe_tcp,
  bounded_output, exit_outcome, command_outcome, run_unit, probe_systemctl, signal_outcome,
  signal_pid, check_pid, on_pid_file, probe_pid_file, is_observed, row_of, fail_row, probe_primary,
  next, run_checks, run_one, run_all, DialError, CommandReply, SignalReply, ReadReply, content,
  absent, unreadable, is_socket, combined_output, process_env, has_primary, has_secondary,
}

-- A state that is not `observed`.
abbrev IsProblem : Text → Type 0
IsProblem state = (state ≡ state_missing) ⊎ (state ≡ state_unreachable) ⊎ (state ≡ state_failed)

-- One of the four states, with a reason exactly where it is not `observed`.
abbrev IsExplained : Text → Text → Type 0
IsExplained state reason =
    ((state ≡ state_observed) × (reason ≡ [])) ⊎ (IsProblem state × (reason ≢ []))

abbrev Explains : Outcome → Type 0
Explains o = IsExplained o.state o.reason

module _ where
  Explains-observed : Explains observed
  Explains-observed = inl (refl, refl)

  Explains-failed : (reason : Text) → reason ≢ [] → Explains (failed_for reason)
  Explains-failed reason h = inr (inr (inr refl), h)

  Explains-missing : (reason : Text) → reason ≢ [] → Explains (missing_for reason)
  Explains-missing reason h = inr (inl refl, h)

  Explains-unreachable : (reason : Text) → reason ≢ [] → Explains (unreachable_for reason)
  Explains-unreachable reason h = inr (inr (inl refl), h)

socket_dial_outcome_lem : (e : DialError) (late : Bool) → Explains (socket_dial_outcome e late)
unfolding socket_dial_outcome
socket_dial_outcome_lem e late = ground arith

tcp_dial_outcome_lem : (e : DialError) (late : Bool) → Explains (tcp_dial_outcome e late)
unfolding tcp_dial_outcome
tcp_dial_outcome_lem e late = ground arith

exit_outcome_lem : (msg : Text) → Explains (exit_outcome msg)
unfolding exit_outcome bounded_output byte_prefix
exit_outcome_lem msg = ground arith

command_outcome_lem : (r : CommandReply) → Explains (command_outcome r)
unfolding command_outcome
command_outcome_lem r = ground (arith, exit_outcome_lem (trim_space r.output))

signal_outcome_lem : (r : SignalReply) → Explains (signal_outcome r)
unfolding signal_outcome
signal_outcome_lem r = ground arith

-- What holds of both branches of a test.
if_lem :
    (b : Bool) (m n : Probe Outcome) (l : Log)
    → Explains (m l).0
    → Explains (n l).0
    → Explains ((if b then m else n) l).0
if_lem true m n l h k = h
if_lem false m n l h k = k

module _ (host : Host) where
  after_socket_dial_lem : (e : Option DialError) (l : Log) → Explains (after_socket_dial host e l).0
  unfolding after_socket_dial
  after_socket_dial_lem none l = Explains-observed
  after_socket_dial_lem (some e) l = socket_dial_outcome_lem e (host.done l)

  dial_socket_lem : (path : Text) (r : StatReply) (l : Log) → Explains (dial_socket host path r l).0
  unfolding dial_socket
  dial_socket_lem path (missing e) l = ground arith
  dial_socket_lem path (failed e) l = ground arith
  dial_socket_lem path (found fi) l =
      if_lem (is_socket fi) _ _ l (after_socket_dial_lem _ _) (ground arith)

  probe_unix_socket_lem : (path : Text) (l : Log) → Explains (probe_unix_socket host path l).0
  unfolding probe_unix_socket
  probe_unix_socket_lem path l =
      if_lem (not (is_abs (trim_space path))) _ _ l (ground arith) (dial_socket_lem _ _ _)

  after_tcp_dial_lem : (e : Option DialError) (l : Log) → Explains (after_tcp_dial host e l).0
  unfolding after_tcp_dial
  after_tcp_dial_lem none l = Explains-observed
  after_tcp_dial_lem (some e) l = tcp_dial_outcome_lem e (host.done l)

  dial_tcp_lem : (r : Option (Text × Text)) (l : Log) → Explains (dial_tcp host r l).0
  unfolding dial_tcp
  dial_tcp_lem none l = ground arith
  dial_tcp_lem (some (name, port)) l =
      if_lem (is_empty name || is_empty port) _ _ l (ground arith) (after_tcp_dial_lem _ _)

  probe_tcp_lem : (addr : Text) (l : Log) → Explains (probe_tcp host addr l).0
  unfolding probe_tcp
  probe_tcp_lem addr l = if_lem (is_empty (trim_space addr)) _ _ l (ground arith) (dial_tcp_lem _ _)

  probe_systemctl_lem : (argv : List Text) (l : Log) → Explains (probe_systemctl host argv l).0
  unfolding probe_systemctl run_unit
  probe_systemctl_lem [] l = ground arith
  probe_systemctl_lem (bin ∷ []) l = ground arith
  probe_systemctl_lem (bin ∷ arg ∷ args) l =
      if_lem (is_empty (trim_space bin)) _ _ l (ground arith) (
        command_outcome_lem
          (combined_output host
            (record {
              path = trim_space bin;
              args = arg ∷ args;
              work_dir = [];
              env = process_env host.environ;
            })
            l).0)

  check_pid_lem : (pid : Option ℕ) (l : Log) → Explains (check_pid host pid l).0
  unfolding check_pid signal_pid
  check_pid_lem none l = ground arith
  check_pid_lem (some pid) l = if_lem (host.done l) _ _ l (ground arith) (signal_outcome_lem _)

  on_pid_file_lem : (r : ReadReply) (l : Log) → Explains (on_pid_file host r l).0
  unfolding on_pid_file
  on_pid_file_lem (absent e) l = ground arith
  on_pid_file_lem (unreadable e) l = ground arith
  on_pid_file_lem (content raw) l = check_pid_lem _ l

  probe_pid_file_lem : (path : Text) (l : Log) → Explains (probe_pid_file host path l).0
  unfolding probe_pid_file
  probe_pid_file_lem path l = if_lem (not (is_abs path)) _ _ l (ground arith) (on_pid_file_lem _ _)

  probe_primary_lem : (sp : Spec) (l : Log) → Explains (probe_primary host sp l).0
  unfolding probe_primary
  probe_primary_lem sp l =
      if_lem (not (is_empty sp.socket_path)) _ _ l (probe_unix_socket_lem _ _)
        (if_lem (not (is_empty sp.tcp_addr)) _ _ l (probe_tcp_lem _ _) Explains-observed)

  next_lem :
      (configured : Bool) (check : Probe Outcome) (o : Outcome) (l : Log)
      → ((k : Log) → Explains (check k).0)
      → Explains o
      → Explains (next host configured check o l).0
  unfolding next
  next_lem configured check o l h k = if_lem (is_observed o && configured) check _ l (h l) k

row_of_lem :
    (dep : Text) (o : Outcome) (at : Text)
    → Explains o
    → let row = row_of dep o at in (row.dependency ≡ dep) × IsExplained row.state row.failure_reason
unfolding row_of is_observed
row_of_lem dep o at h = ground (arith, text_eq_iff o.state state_observed)

-- The row belongs to the spec.
abbrev IsRowOf : Spec → RuntimeDependencyReportRow → Type 0
IsRowOf sp row =
    (row.dependency ≡ trim_space sp.dependency) × IsExplained row.state row.failure_reason

-- A list has a row for each spec, in the order of the specs.
abbrev pub AreRowsOf : List Spec → List RuntimeDependencyReportRow → Type 0
AreRowsOf [] [] = Unit
AreRowsOf (sp ∷ specs) (row ∷ rows) = IsRowOf sp row × AreRowsOf specs rows
AreRowsOf _ _ = ⊥

if_row :
    (sp : Spec) (b : Bool) (m n : Probe RuntimeDependencyReportRow) (l : Log)
    → IsRowOf sp (m l).0
    → IsRowOf sp (n l).0
    → IsRowOf sp ((if b then m else n) l).0
if_row sp true m n l h k = h
if_row sp false m n l h k = k

module _ (host : Host) where
  fail_row_lem :
      (sp : Spec) (reason : Text) (l : Log)
      → reason ≢ []
      → IsRowOf sp (fail_row host (trim_space sp.dependency) reason l).0
  unfolding fail_row
  fail_row_lem sp reason l h =
      row_of_lem (trim_space sp.dependency) (failed_for reason) (host.now l)
        (Explains-failed reason h)

  run_checks_lem :
      (sp : Spec) (l : Log) → IsRowOf sp (run_checks host (trim_space sp.dependency) sp l).0
  unfolding run_checks
  run_checks_lem sp l = row_of_lem _ _ (host.now l) (
      next_lem host _ _ _ _ (probe_pid_file_lem host _)
        (next_lem host _ _ _ _ (probe_systemctl_lem host _) (probe_primary_lem host sp l)))

  run_one_lem : (sp : Spec) (l : Log) → IsRowOf sp (run_one host sp l).0
  unfolding run_one
  run_one_lem sp l =
      if_row sp (is_empty (trim_space sp.dependency)) (failing "empty dependency name") rest_two l
        (fail_row_lem sp (codes "empty dependency name") l (ground arith))
        (if_row sp (not (is_empty sp.socket_path) && not (is_empty sp.tcp_addr))
          (failing "probe declares both socket and tcp") rest_one l
          (fail_row_lem sp (codes "probe declares both socket and tcp") l (ground arith))
          (if_row sp (not (has_primary sp) && not (has_secondary sp))
            (failing "probe has no checks configured")
            (run_checks host (trim_space sp.dependency) sp) l
            (fail_row_lem sp (codes "probe has no checks configured") l (ground arith))
            (run_checks_lem sp l)))
    where
      failing : String → Probe RuntimeDependencyReportRow
      failing reason = fail_row host (trim_space sp.dependency) (codes reason)

      rest_one : Probe RuntimeDependencyReportRow
      rest_one =
          if not (has_primary sp) && not (has_secondary sp)
          then failing "probe has no checks configured"
          else run_checks host (trim_space sp.dependency) sp

      rest_two : Probe RuntimeDependencyReportRow
      rest_two =
          if not (is_empty sp.socket_path) && not (is_empty sp.tcp_addr)
          then failing "probe declares both socket and tcp"
          else rest_one

  -- Whatever the host answers, `RunAll` gives one row for each spec, in the order of the specs and
  -- under the spec's trimmed name; its state is one of the four, and there is a reason exactly
  -- where it is not `observed`.
  pub run_all-AreRowsOf : (specs : List Spec) (l : Log) → AreRowsOf specs (run_all host specs l).0
  unfolding run_all
  run_all-AreRowsOf [] l = tt
  run_all-AreRowsOf (sp ∷ specs) l =
      (run_one_lem sp l, run_all-AreRowsOf specs (run_one host sp l).1)
