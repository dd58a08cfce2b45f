-- ===== src/RuntimeProbe/Tests.antt =====
-- The theorems on the dependency probes at a host with one PHP socket.
use releasepanel_agent.Base.{◌≡◌, ◌≢◌, ◌⊎◌, refl, true, false, none, [], ◌∷◌, ◌++◌, All, List, ◌≤◌}
use releasepanel_agent.Text.{
  codes, text_eq, trim_space, trim_left, trim_right, is_space, to_lower, lower_rune, has_prefix,
  byte_length, rune_length, atoi, Unicode, Text,
}
use releasepanel_agent.FilePath.{is_abs}
use releasepanel_agent.System.{found, socket}
use releasepanel_agent.Config.Probes.{
  Spec, RuntimeDependencyProbe, compile_runtime_dependency_probes,
}
use releasepanel_agent.RuntimeProbe.{
  Host, Log, state_observed, content, delivered, exit_error, exited, no_error, run_one, run_all,
  probe_systemctl, probe_unix_socket, probe_pid_file, has_primary, has_secondary,
}
use releasepanel_agent.RuntimeProbe.Rows.{AreRowsOf, run_all-AreRowsOf}
use releasepanel_agent.RuntimeProbe.Reasons.{byte_length-probe_systemctl}
use releasepanel_agent.RuntimeProbe.Evidence.Observed.{
  IsEvidence, run_one-IsEvidence, run_one-one_word,
}
use releasepanel_agent.RuntimeProbe.InOrder.{row_in_order, run_one-in_order}

instance ascii : Unicode
ascii = record { lower = λ c. c; quote = λ s. codes "\"" ++ (s ++ codes "\"") }

abbrev spec : Spec
spec = record {
  dependency = codes "php_fpm";
  socket_path = codes "/run/php.sock";
  tcp_addr = [];
  systemctl_argv = codes "/bin/systemctl" ∷ codes "is-active" ∷ [];
  pid_file = codes "/run/php.pid";
}

abbrev probe : RuntimeDependencyProbe
probe = record {
  kind = codes " php_fpm";
  socket = codes "/run/php.sock";
  tcp = [];
  systemctl_argv = codes "/bin/systemctl" ∷ codes "is-active" ∷ [];
  pid_file = codes "/run/php.pid";
}

abbrev host : Host
host = record {
  stat = λ l path. found (record { kind = socket; perm = 0o660 });
  dial = λ l network addr. none;
  combined_output = λ l c. record { output = codes "active\n"; error = no_error };
  read_file = λ l path. content (codes "42\n");
  kill = λ l pid. delivered;
  done = λ l. false;
  now = λ l. codes "2026-01-01T00:00:00Z";
  environ = codes "PATH=/usr/bin" ∷ [];
  split_host_port = λ addr. none;
  join_host_port = λ name port. name ++ (codes ":" ++ port);
}

-- A host on which the unit is not active, and says so.
abbrev inactive : Host
inactive = record host {
  combined_output = λ l c. record { output = codes "inactive\n"; error = exit_error (exited 3) };
}

run_one-IsEvidence_example :
    IsEvidence host spec (run_one host spec []).1
    × ((has_primary spec ≡ true) ⊎ (has_secondary spec ≡ true))
unfolding run_one trim_space trim_right trim_left is_space text_eq probe_unix_socket is_abs
    has_prefix probe_systemctl probe_pid_file atoi
run_one-IsEvidence_example = run_one-IsEvidence host spec refl

run_one-in_order_example :
    All (λ sp. (l : Log) → run_one host sp l ≡ row_in_order host sp l) (spec ∷ [])
unfolding compile_runtime_dependency_probes trim_space trim_left trim_right is_space to_lower
    lower_rune text_eq is_abs has_prefix byte_length rune_length
run_one-in_order_example =
    run_one-in_order (λ addr. none) host (probe ∷ []) {specs = spec ∷ []} refl

run_all-AreRowsOf_example : AreRowsOf (spec ∷ []) (run_all inactive (spec ∷ []) []).0
run_all-AreRowsOf_example = run_all-AreRowsOf inactive (spec ∷ []) []

abbrev is_active : List Text
is_active = codes "/bin/systemctl" ∷ codes "is-active" ∷ []

byte_length-probe_systemctl_example :
    byte_length (probe_systemctl inactive is_active []).0.reason ≤ 2003
unfolding probe_systemctl trim_space trim_right trim_left is_space
byte_length-probe_systemctl_example = byte_length-probe_systemctl inactive is_active [] refl

abbrev one_word : Spec
one_word = record spec { systemctl_argv = codes "/bin/systemctl" ∷ [] }

run_one-one_word_example : (run_one host one_word []).0.state ≢ state_observed
run_one-one_word_example = run_one-one_word host one_word (codes "/bin/systemctl") refl
