-- ===== src/RuntimeProbe/Reasons.antt =====
-- The size of what `probeSystemctl` reports of a unit that is not active.
use releasepanel_agent.Base.{◌≤◌, ◌≡◌, refl, arith, List, [], ◌∷◌, is_empty, Bool-cases, inl, inr}
use releasepanel_agent.Text.{
  Text, codes, byte_length, rune_length, byte_prefix, byte_length-byte_prefix, byte_length-append,
  trim_space,
}
use releasepanel_agent.RuntimeProbe.{
  Host, Log, state_missing, Outcome, bounded_output, exit_outcome, command_outcome, CommandReply,
  run_unit, probe_systemctl, combined_output, process_env, failed_for,
}

ellipsis_length : byte_length (codes "…") ≡ 3
unfolding byte_length rune_length
ellipsis_length = refl

bounded_output_lem : (msg : Text) → byte_length (bounded_output msg) ≤ 2003
unfolding bounded_output
bounded_output_lem msg = ground (
  arith,
  ellipsis_length,
  byte_length-byte_prefix 2000 msg,
  byte_length-append (byte_prefix 2000 msg) (codes "…"),
)

-- A unit that is missing has a short reason.
abbrev IsShort : Outcome → Type 0
IsShort o = o.state ≡ state_missing → byte_length o.reason ≤ 2003

failed_for-IsShort : (reason : Text) → IsShort (failed_for reason)
failed_for-IsShort reason e = ground arith

command_outcome-IsShort : (r : CommandReply) → IsShort (command_outcome r)
unfolding command_outcome exit_outcome
command_outcome-IsShort r e =
    ground
      (arith, bounded_output_lem (trim_space r.output), bounded_output_lem (codes "non-zero exit"))

-- What `probeSystemctl` says of a unit that is missing has at most 2003 bytes, however long the
-- output of the command is: 2000 of it and an ellipsis.
pub byte_length-probe_systemctl :
    (host : Host) (argv : List Text) (l : Log)
    → (probe_systemctl host argv l).0.state ≡ state_missing
    → byte_length (probe_systemctl host argv l).0.reason ≤ 2003
unfolding probe_systemctl run_unit
byte_length-probe_systemctl host [] l = failed_for-IsShort _
byte_length-probe_systemctl host (bin ∷ []) l = failed_for-IsShort _
byte_length-probe_systemctl host (bin ∷ arg ∷ args) l =
    elim (Bool-cases (is_empty (trim_space bin))) [
      | inl e ↦ rw e (failed_for-IsShort _)
      | inr e ↦ rw e (
          command_outcome-IsShort
            (combined_output host
              (record {
                path = trim_space bin;
                args = arg ∷ args;
                work_dir = [];
                env = process_env host.environ;
              })
              l).0)
    ]
