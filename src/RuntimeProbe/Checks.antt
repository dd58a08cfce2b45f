-- ===== src/RuntimeProbe/Checks.antt =====
-- The four checks of internal/runtimeprobe/run.go, and `pidAlive` of pid_unix.go.
use releasepanel_agent.Base.{
  ℕ, Bool, true, false, not, ◌||◌, Option, none, some, List, [], ◌∷◌, ◌++◌, ltb, ◌==◌,
  if◌then◌else◌, is_empty,
}
use releasepanel_agent.Text.{Text, codes, trim_space, has_prefix, byte_length, byte_prefix, atoi}
use releasepanel_agent.FilePath.{is_abs}
use releasepanel_agent.System.{
  StatReply, found, missing, failed, FileInfo, regular, directory, symlink, socket, other,
}
use releasepanel_agent.RuntimeProbe.Answers.{
  Host, Probe, ◌>>=◌, pure, stat, dial, combined_output, read_file, kill, done, DialError, Ending,
  exited, signaled, no_error, exit_error, exec_error, CommandReply, ReadReply, content, absent,
  unreadable, SignalReply, delivered, no_process, refused,
}

abbrev pub state_observed : Text
state_observed = codes "observed"

abbrev pub state_missing : Text
state_missing = codes "missing"

abbrev pub state_unreachable : Text
state_unreachable = codes "unreachable"

abbrev pub state_failed : Text
state_failed = codes "failed"

-- What a check returns: a state, and a reason where it is not observed.
pub record Outcome : Type 0 where
  pub state : Text
  pub reason : Text

abbrev pub observed : Outcome
observed = record { state = state_observed; reason = [] }

abbrev pub failed_for : Text → Outcome
failed_for reason = record { state = state_failed; reason = reason }

abbrev pub missing_for : Text → Outcome
missing_for reason = record { state = state_missing; reason = reason }

abbrev pub unreachable_for : Text → Outcome
unreachable_for reason = record { state = state_unreachable; reason = reason }

unfoldable pub is_socket : FileInfo → Bool
is_socket fi = elim fi.kind [
  | regular ↦ false
  | directory ↦ false
  | symlink ↦ false
  | socket ↦ true
  | other ↦ false
]

-- The first entry of the environment that sets PATH.
unfoldable pub minimal_proc_env : List Text → List Text
minimal_proc_env [] = []
minimal_proc_env (e ∷ rest) =
    let tail = minimal_proc_env rest in if has_prefix e (codes "PATH=") then e ∷ [] else tail

-- What the process gets: a command whose `Env` is nil inherits the whole environment.
unfoldable pub process_env : List Text → List Text
unfolding minimal_proc_env
process_env environ =
    if is_empty (minimal_proc_env environ) then environ else minimal_proc_env environ

-- A dial that failed, and the context asked after it.
unfoldable pub socket_dial_outcome : DialError → Bool → Outcome
socket_dial_outcome e late =
    if e.is_permission
    then failed_for (codes "socket dial: " ++ e.message)
    else if late || e.is_timeout
    then unreachable_for (codes "socket dial timed out")
    else unreachable_for (codes "socket dial: " ++ e.message)

unfoldable pub tcp_dial_outcome : DialError → Bool → Outcome
tcp_dial_outcome e late =
    if late || e.is_timeout
    then unreachable_for (codes "tcp connect timed out")
    else unreachable_for (codes "tcp connect: " ++ e.message)

-- The exit code is zero. `ExitError.ExitCode` is -1 for a signal.
unfoldable pub is_success : Ending → Bool
is_success (exited code) = code == 0
is_success signaled = false

unfoldable pub bounded_output : Text → Text
bounded_output msg = if ltb 2000 (byte_length msg) then byte_prefix 2000 msg ++ codes "…" else msg

unfoldable pub exit_outcome : Text → Outcome
unfolding bounded_output
exit_outcome msg =
    missing_for (bounded_output (if is_empty msg then codes "non-zero exit" else msg))

unfoldable pub command_outcome : CommandReply → Outcome
unfolding is_success exit_outcome
command_outcome r = elim r.error [
  | no_error ↦ observed
  | exit_error ending ↦ if is_success ending then observed else exit_outcome (trim_space r.output)
  | exec_error e ↦ failed_for (codes "systemctl exec: " ++ e)
]

-- `pidAlive`: whether the process is there, or an error.
unfoldable pub signal_outcome : SignalReply → Outcome
signal_outcome delivered = observed
signal_outcome no_process = missing_for (codes "pid not running")
signal_outcome (refused e) = failed_for (codes "pid check: " ++ e)

-- The number that a pid file holds, if it is positive.
unfoldable pub positive : Option (Bool × ℕ) → Option ℕ
positive none = none
positive (some (negative, n)) = if negative || n == 0 then none else some n

module _ (host : Host) where
  unfoldable pub after_socket_dial : Option DialError → Probe Outcome
  unfolding socket_dial_outcome
  after_socket_dial none = pure observed
  after_socket_dial (some e) = do late ← done host; pure (socket_dial_outcome e late)

  unfoldable pub dial_socket : Text → StatReply → Probe Outcome
  unfolding is_socket after_socket_dial
  dial_socket path (missing e) = pure (missing_for (codes "socket path missing"))
  dial_socket path (failed e) = pure (failed_for (codes "socket stat: " ++ e))
  dial_socket path (found fi) =
      if is_socket fi
      then (do e ← dial host (codes "unix") path; after_socket_dial e)
      else pure (failed_for (codes "path exists but is not a socket"))

  unfoldable pub probe_unix_socket : Text → Probe Outcome
  unfolding dial_socket
  probe_unix_socket path =
      if not (is_abs (trim_space path))
      then pure (failed_for (codes "socket path not absolute"))
      else (do r ← stat host (trim_space path); dial_socket (trim_space path) r)

  unfoldable pub after_tcp_dial : Option DialError → Probe Outcome
  unfolding tcp_dial_outcome
  after_tcp_dial none = pure observed
  after_tcp_dial (some e) = do late ← done host; pure (tcp_dial_outcome e late)

  unfoldable pub dial_tcp : Option (Text × Text) → Probe Outcome
  unfolding after_tcp_dial
  dial_tcp none = pure (failed_for (codes "tcp address must be host:port"))
  dial_tcp (some (name, port)) =
      if is_empty name || is_empty port
      then pure (failed_for (codes "tcp address must be host:port"))
      else (do e ← dial host (codes "tcp") (host.join_host_port name port); after_tcp_dial e)

  unfoldable pub probe_tcp : Text → Probe Outcome
  unfolding dial_tcp
  probe_tcp addr =
      if is_empty (trim_space addr)
      then pure (failed_for (codes "empty tcp address"))
      else dial_tcp (host.split_host_port (trim_space addr))

  unfoldable pub run_unit : Text → List Text → Probe Outcome
  unfolding command_outcome process_env
  run_unit bin args =
      if is_empty bin then pure (failed_for (codes "systemctl_argv executable empty")) else (do
        r ←
            combined_output host
              (record { path = bin; args = args; work_dir = []; env = process_env host.environ })
        pure (command_outcome r))

  unfoldable pub probe_systemctl : List Text → Probe Outcome
  unfolding run_unit
  probe_systemctl (bin ∷ arg ∷ args) = run_unit (trim_space bin) (arg ∷ args)
  probe_systemctl _ =
      pure (failed_for (codes "systemctl_argv requires at least executable and one argument"))

  unfoldable pub signal_pid : ℕ → Bool → Probe Outcome
  unfolding signal_outcome
  signal_pid pid late =
      if late
      then pure (unreachable_for (codes "pid probe timed out"))
      else (do r ← kill host pid; pure (signal_outcome r))

  unfoldable pub check_pid : Option ℕ → Probe Outcome
  unfolding signal_pid
  check_pid none = pure (failed_for (codes "pid file did not contain a positive integer"))
  check_pid (some pid) = do late ← done host; signal_pid pid late

  unfoldable pub on_pid_file : ReadReply → Probe Outcome
  unfolding positive check_pid
  on_pid_file (absent e) = pure (missing_for (codes "pid file missing"))
  on_pid_file (unreadable e) = pure (failed_for (codes "pid file read: " ++ e))
  on_pid_file (content raw) = check_pid (positive (atoi (trim_space raw)))

  unfoldable pub probe_pid_file : Text → Probe Outcome
  unfolding on_pid_file
  probe_pid_file path =
      if not (is_abs path)
      then pure (failed_for (codes "pid_file must be absolute"))
      else (do r ← read_file host path; on_pid_file r)
