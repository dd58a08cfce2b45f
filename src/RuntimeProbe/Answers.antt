-- ===== src/RuntimeProbe/Answers.antt =====
-- What internal/runtimeprobe asks of the host. `Host` answers each question as it likes, from
-- what has been asked before; the questions of a probe and their answers stand in its log, the
-- newest first.
use releasepanel_agent.Base.{ℕ, Bool, Option, List, ◌∷◌}
use releasepanel_agent.Text.{Text}
use releasepanel_agent.System.{StatReply, Command}

-- An error of `DialContext`: whether it is `os.ErrPermission`, and whether a `net.Error` in it
-- says that it timed out.
pub record DialError : Type 0 where
  pub is_permission : Bool
  pub is_timeout : Bool
  pub message : Text

-- How a process ended: its code, or a signal, for which `ExitCode` is -1.
pub data Ending : Type 0 where
  exited : ℕ → Ending
  signaled : Ending

-- The error of `CombinedOutput`: none, an `exec.ExitError`, or another.
pub data CommandError : Type 0 where
  no_error : CommandError
  exit_error : Ending → CommandError
  exec_error : Text → CommandError

pub record CommandReply : Type 0 where
  pub output : Text
  pub error : CommandError

-- The answer of `os.ReadFile`; `absent` is an error that is `os.ErrNotExist`.
pub data ReadReply : Type 0 where
  content : Text → ReadReply
  absent unreadable : Text → ReadReply

-- The answer to signal 0; `no_process` is ESRCH.
pub data SignalReply : Type 0 where
  delivered no_process : SignalReply
  refused : Text → SignalReply

pub data Event : Type 0 where
  statted : Text → StatReply → Event
  dialed : Text → Text → Option DialError → Event
  ran : Command → CommandReply → Event
  read : Text → ReadReply → Event
  signalled : ℕ → SignalReply → Event

abbrev pub Log : Type 0
Log = List Event

pub record Host : Type 0 where
  pub stat : Log → Text → StatReply
  pub dial : Log → Text → Text → Option DialError
  pub combined_output : Log → Command → CommandReply
  pub read_file : Log → Text → ReadReply
  pub kill : Log → ℕ → SignalReply
  -- Whether the deadline of the context has passed.
  pub done : Log → Bool
  pub now : Log → Text
  pub environ : List Text
  -- `net.SplitHostPort`, where `none` is its error, and `net.JoinHostPort`.
  pub split_host_port : Text → Option (Text × Text)
  pub join_host_port : Text → Text → Text

abbrev pub Probe : Type 0 → Type 0
Probe A = Log → A × Log

infixl 5 ◌>>=◌
abbrev pub ◌>>=◌ : {A B : Type 0} → Probe A → (A → Probe B) → Probe B
◌>>=◌ m f l = let (a, k) = m l in f a k

abbrev pub pure : {A : Type 0} → A → Probe A
pure a l = (a, l)

module _ (host : Host) where
  abbrev pub stat : Text → Probe StatReply
  stat path l = let r = host.stat l path in (r, statted path r ∷ l)

  abbrev pub dial : Text → Text → Probe (Option DialError)
  dial network addr l = let r = host.dial l network addr in (r, dialed network addr r ∷ l)

  abbrev pub combined_output : Command → Probe CommandReply
  combined_output c l = let r = host.combined_output l c in (r, ran c r ∷ l)

  abbrev pub read_file : Text → Probe ReadReply
  read_file path l = let r = host.read_file l path in (r, read path r ∷ l)

  abbrev pub kill : ℕ → Probe SignalReply
  kill pid l = let r = host.kill l pid in (r, signalled pid r ∷ l)

  abbrev pub done : Probe Bool
  done l = (host.done l, l)

  abbrev pub now : Probe Text
  now l = (host.now l, l)
