-- ===== src/RuntimeProbe/Evidence.antt =====
-- What must have been answered before runtimeprobe calls a dependency observed.
pub mod Single
pub mod Observed
use releasepanel_agent.Base.{
  ℕ, ◌≡◌, ◌≢◌, ◌⊎◌, ◌<◌, inl, inr, refl, arith, Bool, true, false, not, ◌&&◌, ◌||◌, Option, none,
  some, List, [], ◌∷◌, ◌++◌, if◌then◌else◌, is_empty, Any, Bool-cases, ◌==◌, append_assoc,
}
use releasepanel_agent.Text.{Text, codes, text_eq, text_eq_iff, trim_space, atoi}
use releasepanel_agent.FilePath.{is_abs}
use releasepanel_agent.System.{StatReply, found, missing, failed, socket, FileInfo, Command}
use releasepanel_agent.Config.Probes.{Spec}
use releasepanel_agent.RuntimeProbe.{
  Host, Log, Event, statted, dialed, ran, read, signalled, Probe, ◌>>=◌, pure, Outcome,
  state_observed, observed, is_socket, socket_dial_outcome, tcp_dial_outcome, after_socket_dial,
  dial_socket, probe_unix_socket, after_tcp_dial, dial_tcp, probe_tcp, is_success, exit_outcome,
  command_outcome, run_unit, probe_systemctl, signal_outcome, signal_pid, check_pid, positive,
  on_pid_file, probe_pid_file, is_observed, row_of, fail_row, probe_primary, next, run_checks,
  run_one, DialError, CommandReply, no_error, exit_error, exited, exec_error, SignalReply,
  delivered, no_process, refused, ReadReply, content, absent, unreadable, process_env,
}

abbrev pub Has : Event → Log → Type 0
Has e log = Any (λ x. x ≡ e) log

-- The socket was there, and it accepted a connection.
pub record SocketAnswered (path : Text) (log : Log) : Type 0 where
  pub info : FileInfo
  pub is_a_socket : info.kind ≡ socket
  pub was_there : Any (λ x. x ≡ statted path (found info)) log
  pub accepted : Any (λ x. x ≡ dialed (codes "unix") path none) log

module _ (host : Host) where
  -- The address has both its parts, and it accepted a connection.
  pub record AddressAnswered (addr : Text) (log : Log) : Type 0 where
    pub name : Text
    pub port : Text
    pub split : host.split_host_port addr ≡ some (name, port)
    pub accepted : Any (λ x. x ≡ dialed (codes "tcp") (host.join_host_port name port) none) log

  -- The command, which had at least two words, ran, and its exit code was zero.
  pub record CommandSucceeded (argv : List Text) (log : Log) : Type 0 where
    pub bin : Text
    pub arg : Text
    pub args : List Text
    pub words : argv ≡ bin ∷ arg ∷ args
    pub reply : CommandReply
    pub succeeded : (reply.error ≡ no_error) ⊎ (reply.error ≡ exit_error (exited 0))
    pub finished :
        Any
          (λ x.
            x
            ≡ ran
                (record {
                  path = trim_space bin;
                  args = arg ∷ args;
                  work_dir = [];
                  env = process_env host.environ;
                })
                reply)
          log

-- The file held the positive number of a process that a signal reaches.
pub record ProcessRuns (path : Text) (log : Log) : Type 0 where
  pub text : Text
  pub pid : ℕ
  pub was_read : Any (λ x. x ≡ read path (content text)) log
  pub number : atoi (trim_space text) ≡ some (false, pid)
  pub pid_positive : 0 < pid
  pub reached : Any (λ x. x ≡ signalled pid delivered) log

-- A log behind which more has been asked.
abbrev pub Extends : Log → Log → Type 0
Extends l k = (new : Log) × (k ≡ new ++ l)

Any-append-right : (P : Event → Type 0) (new l : Log) → Any P l → Any P (new ++ l)
Any-append-right P [] l h = h
Any-append-right P (e ∷ new) l h = inr (Any-append-right P new l h)

pub Extends-Any : (P : Event → Type 0) (l k : Log) → Extends l k → Any P l → Any P k
Extends-Any P l k (new, e) h = rw e (Any-append-right P new l h)

pub Extends-trans : (l k m : Log) → Extends l k → Extends k m → Extends l m
Extends-trans l k m (a, e) (b, f) = (b ++ a, rw (f, e, append_assoc) refl)

-- The log has grown, and an observed outcome has its evidence there.
pub record Attests (E : Log → Type 0) (l : Log) (r : Outcome × Log) : Type 0 where
  pub grown : Extends l r.1
  pub proved : r.0.state ≡ state_observed → E r.1

pub if_lem :
    (P : Outcome × Log → Type 0) (b : Bool) (m n : Probe Outcome) (l : Log)
    → (b ≡ true → P (m l))
    → (b ≡ false → P (n l))
    → P ((if b then m else n) l)
if_lem P true m n l h k = h refl
if_lem P false m n l h k = k refl

-- An outcome that is not observed needs no evidence.
pub unattested :
    {E : Log → Type 0} {l : Log} {r : Outcome × Log} (new : Log)
    → r.1 ≡ new ++ l
    → r.0.state ≢ state_observed
    → Attests E l r
unattested new e h = record { grown = (new, e); proved = λ q. absurd (h q) }

-- Evidence in what has been asked.
pub attested :
    {E : Log → Type 0} {l : Log} {r : Outcome × Log} (new : Log)
    → r.1 ≡ new ++ l
    → E r.1
    → Attests E l r
attested new e h = record { grown = (new, e); proved = λ q. h }
