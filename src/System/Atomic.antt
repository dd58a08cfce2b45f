-- ===== src/System/Atomic.antt =====
-- The replacement of a file through a temporary one in its directory, as `WriteAtomicFile`
-- (internal/nginxruntime/converge.go) and `WriteJSONAtomic` (internal/state/state.go) write it;
-- they differ in the pattern, the mode and in where the content comes from.
pub mod Replaces
pub mod Settles
use releasepanel_agent.Base.{ℕ, Option, none, some}
use releasepanel_agent.Text.{Text}
use releasepanel_agent.FilePath.{dir}
use releasepanel_agent.System.{
  Os, M, Result, ok, err, pure, leave, deferred, check, ◌>>=◌, ◌>>◌, mkdir_all, sync, close, remove,
  write, chmod, rename,
}
use releasepanel_agent.System.Files.{touch, make_temp}

-- `if err != nil { return err }` behind a call with a value.
unfoldable pub got : {A : Type 0} → Result A → M A
got (ok a) = pure a
got (err e) = leave (some e)

module _ (os : Os) where
  -- `if err := …; err != nil { _ = tmp.Close(); return err }`.
  unfoldable pub close_and_check : Text → Option Text → M (Unit {0})
  close_and_check tmp none = pure tt
  close_and_check tmp (some e) = do touch os (close tmp); leave (some e)

  -- A content that could not be encoded is not written.
  unfoldable pub write_encoded : Text → Result Text → M (Option Text)
  write_encoded tmp (ok t) = touch os (write tmp t)
  write_encoded tmp (err e) = pure (some e)

  -- From the first write to the rename.
  unfoldable pub fill_and_rename : ℕ → Text → Result Text → Text → M (Unit {0})
  fill_and_rename mode path content tmp = do
    written ← write_encoded tmp content
    close_and_check tmp written
    synced ← touch os (sync tmp)
    close_and_check tmp synced
    closed ← touch os (close tmp)
    check closed
    moded ← touch os (chmod tmp mode)
    check moded
    renamed ← touch os (rename tmp path)
    leave renamed

  unfoldable pub replace_file : Text → ℕ → Text → Result Text → M (Unit {0})
  replace_file pattern mode path content = do
    let parent = dir path
    made ← touch os (mkdir_all parent)
    check made
    created ← make_temp os parent pattern
    tmp ← got created
    deferred (touch os (remove tmp)) (fill_and_rename mode path content tmp)
