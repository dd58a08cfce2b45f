-- ===== src/RuntimeProbe/Evidence/Single.antt =====
-- internal/runtimeprobe/run.go: what each check rests on when it observes.
use releasepanel_agent.RuntimeProbe.Evidence.{
  SocketAnswered, AddressAnswered, CommandSucceeded, ProcessRuns, Attests, if_lem, unattested,
  attested,
}
use releasepanel_agent.Base.{
  ℕ, ◌≡◌, ◌≢◌, ◌⊎◌, ◌<◌, inl, inr, refl, arith, Bool, true, false, not, ◌||◌, Option, none, some,
  List, [], ◌∷◌, is_empty,
}
use releasepanel_agent.Text.{Text, codes, trim_space, atoi}
use releasepanel_agent.FilePath.{is_abs}
use releasepanel_agent.System.{StatReply, found, missing, failed, socket, FileInfo, Command}
use releasepanel_agent.RuntimeProbe.{
  Host, Log, statted, dialed, ran, read, signalled, state_observed, is_socket, socket_dial_outcome,
  tcp_dial_outcome, after_socket_dial, dial_socket, probe_unix_socket, after_tcp_dial, dial_tcp,
  probe_tcp, is_success, exit_outcome, command_outcome, run_unit, probe_systemctl, signal_outcome,
  signal_pid, check_pid, positive, on_pid_file, probe_pid_file, DialError, CommandReply, no_error,
  exit_error, exited, SignalReply, delivered, no_process, refused, ReadReply, content, absent,
  unreadable, process_env,
}

socket_dial_outcome-ne-observed :
    (e : DialError) (late : Bool) → (socket_dial_outcome e late).state ≢ state_observed
unfolding socket_dial_outcome
socket_dial_outcome-ne-observed e late h = ground arith

tcp_dial_outcome-ne-observed :
    (e : DialError) (late : Bool) → (tcp_dial_outcome e late).state ≢ state_observed
unfolding tcp_dial_outcome
tcp_dial_outcome-ne-observed e late h = ground arith

is_socket_lem : (fi : FileInfo) → is_socket fi ≡ true → fi.kind ≡ socket
unfolding is_socket
is_socket_lem fi h = ground arith

module _ (host : Host) where
  dial_socket-Attests :
      (path : Text) (r : StatReply) (l : Log)
      → Attests (SocketAnswered path) l (dial_socket host path r (statted path r ∷ l))
  unfolding dial_socket after_socket_dial
  dial_socket-Attests path (missing e) l =
      unattested (statted path (missing e) ∷ []) refl (λ h. ground arith)
  dial_socket-Attests path (failed e) l =
      unattested (statted path (failed e) ∷ []) refl (λ h. ground arith)
  dial_socket-Attests path (found fi) l =
      if_lem (Attests (SocketAnswered path) l) (is_socket fi) _ _ _
        (λ e. connected e (host.dial (statted path (found fi) ∷ l) (codes "unix") path))
        (λ e. unattested (statted path (found fi) ∷ []) refl (λ h. ground arith))
    where
      connected :
          is_socket fi ≡ true
          → (reply : Option DialError)
          → Attests (SocketAnswered path) l (
              after_socket_dial host reply
                (dialed (codes "unix") path reply ∷ statted path (found fi) ∷ l))
      connected e none =
          attested (dialed (codes "unix") path none ∷ statted path (found fi) ∷ []) refl (record {
            info = fi;
            is_a_socket = is_socket_lem fi e;
            was_there = inr (inl refl);
            accepted = inl refl;
          })
      connected e (some x) =
          unattested (dialed (codes "unix") path (some x) ∷ statted path (found fi) ∷ []) refl
            (socket_dial_outcome-ne-observed x _)

  pub probe_unix_socket-Attests :
      (path : Text) (l : Log)
      → Attests (SocketAnswered (trim_space path)) l (probe_unix_socket host path l)
  unfolding probe_unix_socket
  probe_unix_socket-Attests path l =
      if_lem (Attests (SocketAnswered (trim_space path)) l) (not (is_abs (trim_space path))) _ _ l
        (λ e. unattested [] refl (λ h. ground arith))
        (λ e. dial_socket-Attests (trim_space path) (host.stat l (trim_space path)) l)

  after_tcp_dial-Attests :
      (addr name port : Text) (l : Log) (reply : Option DialError)
      → host.split_host_port addr ≡ some (name, port)
      → Attests (AddressAnswered host addr) l (
          after_tcp_dial host reply
            (dialed (codes "tcp") (host.join_host_port name port) reply ∷ l))
  unfolding after_tcp_dial
  after_tcp_dial-Attests addr name port l none q =
      attested (dialed (codes "tcp") (host.join_host_port name port) none ∷ []) refl
        (record { name = name; port = port; split = q; accepted = inl refl })
  after_tcp_dial-Attests addr name port l (some x) q =
      unattested (dialed (codes "tcp") (host.join_host_port name port) (some x) ∷ []) refl
        (tcp_dial_outcome-ne-observed x _)

  dial_tcp-Attests :
      (addr : Text) (r : Option (Text × Text)) (l : Log)
      → host.split_host_port addr ≡ r
      → Attests (AddressAnswered host addr) l (dial_tcp host r l)
  unfolding dial_tcp
  dial_tcp-Attests addr none l q = unattested [] refl (λ h. ground arith)
  dial_tcp-Attests addr (some (name, port)) l q =
      if_lem (Attests (AddressAnswered host addr) l) (is_empty name || is_empty port) _ _ l
        (λ e. unattested [] refl (λ h. ground arith))
        (λ e.
          after_tcp_dial-Attests addr name port l
            (host.dial l (codes "tcp") (host.join_host_port name port)) q)

  pub probe_tcp-Attests :
      (addr : Text) (l : Log)
      → Attests (AddressAnswered host (trim_space addr)) l (probe_tcp host addr l)
  unfolding probe_tcp
  probe_tcp-Attests addr l =
      if_lem (Attests (AddressAnswered host (trim_space addr)) l) (is_empty (trim_space addr)) _ _ l
        (λ e. unattested [] refl (λ h. ground arith))
        (λ e. dial_tcp-Attests (trim_space addr) _ l refl)

  pub command_outcome_lem :
      (r : CommandReply)
      → (command_outcome r).state ≡ state_observed
      → (r.error ≡ no_error) ⊎ (r.error ≡ exit_error (exited 0))
  unfolding command_outcome is_success exit_outcome
  command_outcome_lem r h = ground arith

  pub probe_systemctl-Attests :
      (argv : List Text) (l : Log)
      → Attests (CommandSucceeded host argv) l (probe_systemctl host argv l)
  unfolding probe_systemctl run_unit
  probe_systemctl-Attests [] l = unattested [] refl (λ h. ground arith)
  probe_systemctl-Attests (bin ∷ []) l = unattested [] refl (λ h. ground arith)
  probe_systemctl-Attests (bin ∷ arg ∷ args) l =
      if_lem (Attests (CommandSucceeded host (bin ∷ arg ∷ args)) l) (is_empty (trim_space bin)) _ _
        l (λ e. unattested [] refl (λ h. ground arith))
        (λ e. record {
          grown = (ran command (host.combined_output l command) ∷ [], refl);
          proved = λ h. record {
            bin = bin;
            arg = arg;
            args = args;
            words = refl;
            reply = host.combined_output l command;
            succeeded = command_outcome_lem _ h;
            finished = inl refl;
          };
        })
    where
      command : Command
      command = record {
        path = trim_space bin;
        args = arg ∷ args;
        work_dir = [];
        env = process_env host.environ;
      }

  signal_pid-Attests :
      (path text : Text) (pid : ℕ) (l : Log)
      → atoi (trim_space text) ≡ some (false, pid)
      → 0 < pid
      → (late : Bool)
      → Attests (ProcessRuns path) l (signal_pid host pid late (read path (content text) ∷ l))
  unfolding signal_pid signal_outcome
  signal_pid-Attests path text pid l number p true =
      unattested (read path (content text) ∷ []) refl (λ h. ground arith)
  signal_pid-Attests path text pid l number p false =
      answered (host.kill (read path (content text) ∷ l) pid)
    where
      answered :
          (r : SignalReply)
          → Attests
              (ProcessRuns path)
              l
              (signal_outcome r, signalled pid r ∷ read path (content text) ∷ l)
      answered delivered =
          attested (signalled pid delivered ∷ read path (content text) ∷ []) refl (record {
            text = text;
            pid = pid;
            was_read = inr (inl refl);
            number = number;
            pid_positive = p;
            reached = inl refl;
          })
      answered no_process =
          unattested (signalled pid no_process ∷ read path (content text) ∷ []) refl
            (λ h. ground arith)
      answered (refused x) =
          unattested (signalled pid (refused x) ∷ read path (content text) ∷ []) refl
            (λ h. ground arith)

  positive_lem :
      (r : Option (Bool × ℕ)) (pid : ℕ)
      → positive r ≡ some pid
      → (r ≡ some (false, pid)) × (0 < pid)
  unfolding positive
  positive_lem r pid h = ground arith

  check_pid-Attests :
      (path text : Text) (l : Log) (pid : Option ℕ)
      → positive (atoi (trim_space text)) ≡ pid
      → Attests (ProcessRuns path) l (check_pid host pid (read path (content text) ∷ l))
  unfolding check_pid
  check_pid-Attests path text l none q =
      unattested (read path (content text) ∷ []) refl (λ h. ground arith)
  check_pid-Attests path text l (some pid) q =
      let (number, p) = positive_lem (atoi (trim_space text)) pid q in
      signal_pid-Attests path text pid l number p (host.done (read path (content text) ∷ l))

  on_pid_file-Attests :
      (path : Text) (r : ReadReply) (l : Log)
      → Attests (ProcessRuns path) l (on_pid_file host r (read path r ∷ l))
  unfolding on_pid_file
  on_pid_file-Attests path (absent e) l =
      unattested (read path (absent e) ∷ []) refl (λ h. ground arith)
  on_pid_file-Attests path (unreadable e) l =
      unattested (read path (unreadable e) ∷ []) refl (λ h. ground arith)
  on_pid_file-Attests path (content text) l = check_pid-Attests path text l _ refl

  pub probe_pid_file-Attests :
      (path : Text) (l : Log) → Attests (ProcessRuns path) l (probe_pid_file host path l)
  unfolding probe_pid_file
  probe_pid_file-Attests path l =
      if_lem (Attests (ProcessRuns path) l) (not (is_abs path)) _ _ l
        (λ e. unattested [] refl (λ h. ground arith))
        (λ e. on_pid_file-Attests path (host.read_file l path) l)
