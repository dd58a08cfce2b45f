-- ===== src/Logs.antt =====
-- internal/logs/logs.go. What goes to the standard output is left out.
use releasepanel_agent.Base.{some, ◌++◌, []}
use releasepanel_agent.Text.{Text, codes}
use releasepanel_agent.System.{
  Os, M, Result, ok, err, now, pure, leave, check, ◌>>=◌, ◌>>◌, mkdir_all, append,
}
use releasepanel_agent.System.Files.{touch}
use releasepanel_agent.State.{agent_log, events_log}

module _ (os : Os) (log_dir : Text) where
  unfoldable pub open_sink : M (Unit {0})
  open_sink = do made ← touch os (mkdir_all log_dir); check made

  -- A line that cannot be written is dropped.
  unfoldable pub printf : Text → M (Unit {0})
  printf msg = do
    ts ← now os
    touch os (append (agent_log log_dir) (ts ++ (codes " " ++ (msg ++ codes "\n"))))
    pure tt

  -- The file is opened before the event is encoded.
  unfoldable pub append_encoded : Result Text → M (Unit {0})
  append_encoded (err e) = do
    opened ← touch os (append (events_log log_dir) [])
    check opened
    leave (some e)
  append_encoded (ok line) = do e ← touch os (append (events_log log_dir) line); leave e

  -- The event comes encoded.
  unfoldable pub append_event : Result Text → M (Unit {0})
  unfolding append_encoded
  append_event encoded = append_encoded encoded
