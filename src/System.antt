-- ===== src/System.antt =====
-- What the agent meets outside its own code: processes, files, the clock and the receipts that it
-- posts. `Os` answers every request, as it likes and from all that has happened; `Sys` holds the
-- files that the agent itself writes and the log of its receipts and commands, the newest first.
mod Flow
pub mod Ensures
pub mod Goes
pub mod Files
pub mod Atomic
pub mod Trace
unfoldable pub use Flow.*
use releasepanel_agent.Base.{ℕ, ◌+◌, Bool, true, false, Option, none, some, List, [], ◌∷◌}
use releasepanel_agent.Text.{Text}
use releasepanel_agent.Api.{SiteRuntimeReportRow}

-- A value, or the message of an error.
pub data Result (A : Type 0) : Type 0 where
  ok : A → Result A
  err : Text → Result A

pub data Kind : Type 0 where
  regular directory symlink socket other : Kind

pub record FileInfo : Type 0 where
  pub kind : Kind
  pub perm : ℕ

-- The answer of `os.Stat`; `missing` is an error that is `os.ErrNotExist`.
pub data StatReply : Type 0 where
  found : FileInfo → StatReply
  missing failed : Text → StatReply

pub record Command : Type 0 where
  pub path : Text
  pub args : List Text
  pub work_dir : Text
  pub env : List Text

-- What a finished process leaves: its two outputs, and the error of `Run` or `Output`.
pub record ExecReply : Type 0 where
  pub stdout : Text
  pub stderr : Text
  pub error : Option Text

-- The calls on files. `Os.fault` may answer each with an error instead.
pub data FileCall : Type 0 where
  mkdir_all create_temp create_new sync close lstat readlink remove read_file : Text → FileCall
  write append : Text → Text → FileCall
  chmod : Text → ℕ → FileCall
  rename symlink_to : Text → Text → FileCall

pub data Event : Type 0 where
  reported : SiteRuntimeReportRow → Option Text → Event
  executed : Command → ExecReply → Event
  touched : FileCall → Option Text → Event

-- A file with its content and mode, or a symbolic link. Directories are not kept.
pub data Node : Type 0 where
  file : Text → ℕ → Node
  link : Text → Node

abbrev pub Disk : Type 0
Disk = Text → Option Node

pub record Sys : Type 0 where
  pub disk : Disk
  pub log : List Event
  pub ticks : ℕ

pub record Os : Type 0 where
  pub look_path : Sys → Text → Result Text
  pub exec : Sys → Command → ExecReply × Disk
  pub stat : Sys → Text → StatReply
  pub eval_symlinks : Sys → Text → Result Text
  pub open_file : Sys → Text → Option Text
  pub post : Sys → SiteRuntimeReportRow → Option Text
  pub now : Sys → Text
  pub environ : List Text
  pub fault : Sys → FileCall → Option Text
  -- The name of a new temporary file, from its directory and pattern.
  pub temp_name : Sys → Text → Text → Text
  -- How much of a text a failed write has left.
  pub partial : Sys → ℕ

-- A computation of the agent on the system.
abbrev pub M : Type 0 → Type 0
M A = Action Sys A

-- A callback that delivers one receipt.
abbrev pub Reporter : Type 0
Reporter = SiteRuntimeReportRow → M (Option Text)

module _ (os : Os) where
  unfoldable pub report : Reporter
  report row s = let e = os.post s row in (go e, record s { log = reported row e ∷ s.log })

  -- `api.RFC3339UTC(time.Now().UTC())`.
  unfoldable pub now : M Text
  now s = (go (os.now s), record s { ticks = s.ticks + 1 })

  unfoldable pub exec : Command → M ExecReply
  exec c s =
      let (reply, disk) = os.exec s c in
      (go reply, record s { disk = disk; log = executed c reply ∷ s.log })

  unfoldable pub stat : Text → M StatReply
  stat path s = (go (os.stat s path), s)

  unfoldable pub look_path : Text → M (Result Text)
  look_path name s = (go (os.look_path s name), s)
