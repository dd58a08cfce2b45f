-- ===== src/RuntimeProbe.antt =====
-- internal/runtimeprobe/run.go: the row of one probe, and the rows of all.
pub mod Rows
pub mod Reasons
pub mod Evidence
pub mod InOrder
mod Tests
mod Answers
mod Checks
unfoldable pub use Answers.*
unfoldable pub use Checks.*
use releasepanel_agent.Base.{
  Bool, true, false, not, ◌||◌, ◌&&◌, List, [], ◌∷◌, if◌then◌else◌, is_empty,
}
use releasepanel_agent.Text.{Text, codes, text_eq, trim_space}
use releasepanel_agent.Api.{RuntimeDependencyReportRow}
use releasepanel_agent.Config.Probes.{Spec}

unfoldable pub is_observed : Outcome → Bool
is_observed o = text_eq o.state state_observed

-- The reason is left out of an observed row.
unfoldable pub row_of : Text → Outcome → Text → RuntimeDependencyReportRow
unfolding is_observed
row_of dep o at = record {
  dependency = dep;
  state = o.state;
  observed_at = at;
  failure_reason = if is_observed o then [] else o.reason;
}

unfoldable pub has_primary : Spec → Bool
has_primary sp = not (is_empty sp.socket_path) || not (is_empty sp.tcp_addr)

unfoldable pub has_secondary : Spec → Bool
has_secondary sp = not (is_empty sp.systemctl_argv) || not (is_empty (trim_space sp.pid_file))

module _ (host : Host) where
  unfoldable pub fail_row : Text → Text → Probe RuntimeDependencyReportRow
  unfolding row_of
  fail_row dep reason = do at ← now host; pure (row_of dep (failed_for reason) at)

  unfoldable pub probe_primary : Spec → Probe Outcome
  probe_primary sp =
      if not (is_empty sp.socket_path)
      then probe_unix_socket host sp.socket_path
      else if not (is_empty sp.tcp_addr)
      then probe_tcp host sp.tcp_addr
      else pure observed

  -- A further check is made only while the state is observed.
  unfoldable pub next : Bool → Probe Outcome → Outcome → Probe Outcome
  unfolding is_observed
  next configured check o = if is_observed o && configured then check else pure o

  unfoldable pub run_checks : Text → Spec → Probe RuntimeDependencyReportRow
  unfolding probe_primary next row_of
  run_checks dep sp = do
    a ← probe_primary sp
    b ← next (not (is_empty sp.systemctl_argv)) (probe_systemctl host sp.systemctl_argv) a
    c ←
        next (not (is_empty (trim_space sp.pid_file)))
          (probe_pid_file host (trim_space sp.pid_file)) b
    at ← now host
    pure (row_of dep c at)

  unfoldable pub run_one : Spec → Probe RuntimeDependencyReportRow
  unfolding fail_row run_checks has_primary has_secondary
  run_one sp =
      if is_empty (trim_space sp.dependency)
      then fail_row (trim_space sp.dependency) (codes "empty dependency name")
      else if not (is_empty sp.socket_path) && not (is_empty sp.tcp_addr)
      then fail_row (trim_space sp.dependency) (codes "probe declares both socket and tcp")
      else if not (has_primary sp) && not (has_secondary sp)
      then fail_row (trim_space sp.dependency) (codes "probe has no checks configured")
      else run_checks (trim_space sp.dependency) sp

  unfoldable pub run_all : List Spec → Probe (List RuntimeDependencyReportRow)
  unfolding run_one
  run_all [] = pure []
  run_all (sp ∷ specs) = do row ← run_one sp; rows ← run_all specs; pure (row ∷ rows)
