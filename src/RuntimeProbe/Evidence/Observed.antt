-- ===== src/RuntimeProbe/Evidence/Observed.antt =====
-- The row of runtimeprobe.runOne against what the host has answered.
use releasepanel_agent.RuntimeProbe.Evidence.Single.{
  probe_unix_socket-Attests, probe_tcp-Attests, probe_systemctl-Attests, probe_pid_file-Attests,
}
use releasepanel_agent.Base.{
  ◌≡◌, ◌≢◌, ◌⊎◌, refl, arith, Bool, true, false, not, ◌&&◌, List, [], ◌∷◌, if◌then◌else◌, is_empty,
  &&-true, inl, inr,
}
use releasepanel_agent.Text.{Text, codes, text_eq, text_eq_iff, trim_space}
use releasepanel_agent.Config.Probes.{Spec}
use releasepanel_agent.RuntimeProbe.{
  Host, Log, Probe, pure, Outcome, state_observed, probe_systemctl, probe_pid_file, is_observed,
  row_of, fail_row, probe_primary, next, run_checks, run_one, has_primary, has_secondary,
}
use releasepanel_agent.RuntimeProbe.Evidence.{
  SocketAnswered, AddressAnswered, CommandSucceeded, ProcessRuns, Extends, Extends-Any,
  Extends-trans, Attests, if_lem, attested,
}
use releasepanel_agent.Api.{RuntimeDependencyReportRow}

-- The evidence for every check that a spec asks for.
pub record IsEvidence (host : Host) (sp : Spec) (log : Log) : Type 0 where
  pub socket : (sp.socket_path ≡ []) ⊎ SocketAnswered (trim_space sp.socket_path) log
  pub address : (sp.tcp_addr ≡ []) ⊎ AddressAnswered host (trim_space sp.tcp_addr) log
  pub command : (sp.systemctl_argv ≡ []) ⊎ CommandSucceeded host sp.systemctl_argv log
  pub process : (trim_space sp.pid_file ≡ []) ⊎ ProcessRuns (trim_space sp.pid_file) log

-- Evidence stays when more is asked.
abbrev Stays : (Log → Type 0) → Type 0
Stays E = (k m : Log) → Extends k m → E k → E m

SocketAnswered-Stays : (path : Text) → Stays (SocketAnswered path)
SocketAnswered-Stays path k m x e = record {
  info = e.info;
  is_a_socket = e.is_a_socket;
  was_there = Extends-Any _ k m x e.was_there;
  accepted = Extends-Any _ k m x e.accepted;
}

AddressAnswered-Stays : (host : Host) (addr : Text) → Stays (AddressAnswered host addr)
AddressAnswered-Stays host addr k m x e = record {
  name = e.name;
  port = e.port;
  split = e.split;
  accepted = Extends-Any _ k m x e.accepted;
}

CommandSucceeded-Stays : (host : Host) (argv : List Text) → Stays (CommandSucceeded host argv)
CommandSucceeded-Stays host argv k m x e = record {
  bin = e.bin;
  arg = e.arg;
  args = e.args;
  words = e.words;
  reply = e.reply;
  succeeded = e.succeeded;
  finished = Extends-Any _ k m x e.finished;
}

-- What the first check leaves: at most one of the two addresses was asked for.
record PrimaryEvidence (host : Host) (sp : Spec) (log : Log) : Type 0 where
  socket : sp.socket_path ≢ [] → SocketAnswered (trim_space sp.socket_path) log
  address :
      sp.socket_path ≡ [] → sp.tcp_addr ≢ [] → AddressAnswered host (trim_space sp.tcp_addr) log

PrimaryEvidence-Stays : (host : Host) (sp : Spec) → Stays (PrimaryEvidence host sp)
PrimaryEvidence-Stays host sp k m x e = record {
  socket = λ h. SocketAnswered-Stays _ k m x (e.socket h);
  address = λ q h. AddressAnswered-Stays host _ k m x (e.address q h);
}

weaken :
    {E F : Log → Type 0} {l : Log} {r : Outcome × Log}
    → Attests E l r
    → (E r.1 → F r.1)
    → Attests F l r
weaken a f = record { grown = a.grown; proved = λ h. f (a.proved h) }

module _ (host : Host) (sp : Spec) where
  probe_primary-Attests : (l : Log) → Attests (PrimaryEvidence host sp) l (probe_primary host sp l)
  unfolding probe_primary
  probe_primary-Attests l =
      if_lem (Attests (PrimaryEvidence host sp) l) (not (is_empty sp.socket_path)) _ _ l
        (λ e.
          weaken (probe_unix_socket-Attests host sp.socket_path l)
            λ a. record { socket = λ h. a; address = λ q h. ground arith })
        (λ e.
          if_lem (Attests (PrimaryEvidence host sp) l) (not (is_empty sp.tcp_addr)) _ _ l
            (λ f.
              weaken (probe_tcp-Attests host sp.tcp_addr l)
                λ a. record { socket = λ h. ground arith; address = λ q h. a })
            (λ f.
              attested [] refl
                (record { socket = λ h. ground arith; address = λ q h. ground arith })))

next-Attests :
    (host : Host) (E F : Log → Type 0) (configured : Bool) (check : Probe Outcome) (l : Log)
    (r : Outcome × Log)
    → Stays E
    → Attests E l r
    → Attests F r.1 (check r.1)
    → Attests (λ log. E log × (configured ≡ true → F log)) l (next host configured check r.0 r.1)
unfolding next is_observed
next-Attests host E F configured check l r stays a b =
    if_lem (Attests (λ log. E log × (configured ≡ true → F log)) l)
      (text_eq r.0.state state_observed && configured) check (pure r.0) r.1
      (λ e. record {
        grown = Extends-trans l r.1 _ a.grown b.grown;
        proved = λ h. (
          stays r.1 _ b.grown
              (a.proved ((text_eq_iff r.0.state state_observed).0 (&&-true _ _ e).0)),
          λ c. b.proved h,
        );
      })
      (λ e. record {
        grown = a.grown;
        proved = λ h. (a.proved h, λ c. ground (arith, text_eq_iff r.0.state state_observed));
      })

or_nil : {A : Type 0} {E : Type 0} (xs : List A) → (xs ≢ [] → E) → (xs ≡ []) ⊎ E
or_nil [] f = inl refl
or_nil (x ∷ xs) f = inr (f λ h. ground arith)

-- All that the three checks leave together.
abbrev Full : Host → Spec → Log → Type 0
Full host sp log =
    (PrimaryEvidence host sp log
      × (not (is_empty sp.systemctl_argv) ≡ true → CommandSucceeded host sp.systemctl_argv log))
    × (not (is_empty (trim_space sp.pid_file)) ≡ true → ProcessRuns (trim_space sp.pid_file) log)

module _ (host : Host) (sp : Spec) where
  run_checks_lem :
      (dep : Text) (l : Log)
      → (run_checks host dep sp l).0.state ≡ state_observed
      → Full host sp (run_checks host dep sp l).1
  unfolding run_checks row_of
  run_checks_lem dep l h = third.proved h
    where
      a : Outcome × Log
      a = probe_primary host sp l

      b : Outcome × Log
      b =
          next host (not (is_empty sp.systemctl_argv)) (probe_systemctl host sp.systemctl_argv) a.0
            a.1

      second :
          Attests
            (λ log.
              PrimaryEvidence host sp log
              × (not (is_empty sp.systemctl_argv) ≡ true
                  → CommandSucceeded host sp.systemctl_argv log))
            l
            b
      second =
          next-Attests host (PrimaryEvidence host sp) _ (not (is_empty sp.systemctl_argv))
            (probe_systemctl host sp.systemctl_argv) l a (PrimaryEvidence-Stays host sp)
            (probe_primary-Attests host sp l) (probe_systemctl-Attests host sp.systemctl_argv a.1)

      third : Attests (Full host sp) l (
          next host
            (not (is_empty (trim_space sp.pid_file)))
            (probe_pid_file host (trim_space sp.pid_file))
            b.0
            b.1)
      third =
          next-Attests host _ (ProcessRuns (trim_space sp.pid_file))
            (not (is_empty (trim_space sp.pid_file))) (probe_pid_file host (trim_space sp.pid_file))
            l b
            (λ k m x e. (
              PrimaryEvidence-Stays host sp k m x e.0,
              λ c. CommandSucceeded-Stays host _ k m x (e.1 c),
            ))
            second (probe_pid_file-Attests host (trim_space sp.pid_file) b.1)

  Full-IsEvidence :
      (log : Log)
      → (not (is_empty sp.socket_path) && not (is_empty sp.tcp_addr)) ≡ false
      → Full host sp log
      → IsEvidence host sp log
  Full-IsEvidence log h e = record {
    socket = or_nil sp.socket_path e.0.0.socket;
    address = or_nil sp.tcp_addr (λ k. e.0.0.address (ground arith) k);
    command = or_nil sp.systemctl_argv (λ k. e.0.1 (ground arith));
    process = or_nil (trim_space sp.pid_file) (λ k. e.1 (ground arith));
  }

  fail_row-ne-observed :
      (dep reason : Text) (l : Log) → (fail_row host dep reason l).0.state ≢ state_observed
  unfolding fail_row row_of
  fail_row-ne-observed dep reason l h = ground arith

-- A row that says `observed` rests on answers that the host has given for this row: every check
-- that the spec asks for has been made and has passed. The socket was a socket and accepted a
-- connection; the address split in two and accepted one; the command ended with the code 0; the
-- pid file held the number of a process that is there. And there was such a check.
pub run_one-IsEvidence :
    (host : Host) (sp : Spec)
    → (run_one host sp []).0.state ≡ state_observed
    → IsEvidence host sp (run_one host sp []).1
      × ((has_primary sp ≡ true) ⊎ (has_secondary sp ≡ true))
unfolding run_one
run_one-IsEvidence host sp =
    split_if (is_empty (trim_space sp.dependency)) _ _
      (fail_row-ne-observed host sp (trim_space sp.dependency) (codes "empty dependency name") [])
      (λ named.
        split_if (not (is_empty sp.socket_path) && not (is_empty sp.tcp_addr)) _ _
          (fail_row-ne-observed host sp (trim_space sp.dependency)
            (codes "probe declares both socket and tcp") [])
          (λ one.
            split_if (not (has_primary sp) && not (has_secondary sp)) _ _
              (fail_row-ne-observed host sp (trim_space sp.dependency)
                (codes "probe has no checks configured") [])
              (λ some_check h. (
                Full-IsEvidence host sp _ one
                    (run_checks_lem host sp (trim_space sp.dependency) [] h),
                ground arith,
              ))))
  where
    split_if :
        (b : Bool) (m n : Probe RuntimeDependencyReportRow)
        → (m []).0.state ≢ state_observed
        → (b ≡ false
            → (n []).0.state ≡ state_observed
            → IsEvidence host sp (n []).1 × ((has_primary sp ≡ true) ⊎ (has_secondary sp ≡ true)))
        → ((if b then m else n) []).0.state ≡ state_observed
        → IsEvidence host sp ((if b then m else n) []).1
          × ((has_primary sp ≡ true) ⊎ (has_secondary sp ≡ true))
    split_if true m n never k h = absurd (never h)
    split_if false m n never k h = k refl h

-- A command of one word, which a configuration may hold, keeps its dependency from ever being
-- observed, whatever the host answers.
pub run_one-one_word :
    (host : Host) (sp : Spec) (bin : Text)
    → sp.systemctl_argv ≡ bin ∷ []
    → (run_one host sp []).0.state ≢ state_observed
run_one-one_word host sp bin e h = impossible (run_one-IsEvidence host sp h).0.command
  where
    impossible :
        (sp.systemctl_argv ≡ []) ⊎ CommandSucceeded host sp.systemctl_argv (run_one host sp []).1
        → ⊥
    impossible (inl n) = ground arith
    impossible (inr c) = ground (arith, c.words)
