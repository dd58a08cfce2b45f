-- ===== src/System/Files.antt =====
-- The calls of package os on files, over the disk of `Sys`.
use releasepanel_agent.Base.{ℕ, Option, none, some, ◌∷◌, ◌++◌, if◌then◌else◌, take}
use releasepanel_agent.Text.{Text, codes, text_eq}
use releasepanel_agent.System.{
  Os, Sys, M, Disk, Node, file, link, Result, ok, err, go, touched, FileCall, mkdir_all,
  create_temp, create_new, append, sync, close, lstat, readlink, remove, read_file, write, chmod,
  rename, symlink_to,
}

unfoldable pub update : Disk → Text → Option Node → Disk
update disk p v q = if text_eq q p then v else disk q

unfoldable pub appended : Text → Option Node → Option Node
appended t none = none
appended t (some (link target)) = some (link target)
appended t (some (file content mode)) = some (file (content ++ t) mode)

unfoldable pub with_mode : ℕ → Option Node → Option Node
with_mode mode none = none
with_mode mode (some (link target)) = some (link target)
with_mode mode (some (file content old)) = some (file content mode)

-- A file is created where there is none.
appended_or_new : Text → Option Node → Option Node
unfolding appended
appended_or_new t none = some (file t 0o644)
appended_or_new t (some n) = appended t (some n)

-- The disk after a call that succeeded.
unfoldable pub perform : FileCall → Disk → Disk
unfolding update appended appended_or_new with_mode
perform (mkdir_all p) d = d
perform (create_temp p) d = update d p (some (file (codes "") 0o600))
perform (create_new p) d = update d p (some (file (codes "") 0o600))
perform (append p t) d = update d p (appended_or_new t (d p))
perform (write p t) d = update d p (appended t (d p))
perform (sync p) d = d
perform (close p) d = d
perform (chmod p mode) d = update d p (with_mode mode (d p))
perform (rename p q) d = update (update d p none) q (d p)
perform (lstat p) d = d
perform (readlink p) d = d
perform (read_file p) d = d
perform (remove p) d = update d p none
perform (symlink_to target p) d = update d p (some (link target))

-- The disk after one that failed: a write may have left a part.
unfoldable pub spoil : ℕ → FileCall → Disk → Disk
unfolding update appended appended_or_new
spoil n (write p t) d = update d p (appended (take n t) (d p))
spoil n (append p t) d = update d p (appended_or_new (take n t) (d p))
spoil n _ d = d

unfoldable pub settle : ℕ → FileCall → Option Text → Disk → Disk
unfolding perform spoil
settle n c none d = perform c d
settle n c (some e) d = spoil n c d

unfoldable pub target_of : Option Node → Result Text
target_of none = err (codes "readlink: no such file or directory")
target_of (some (file content mode)) = err (codes "readlink: invalid argument")
target_of (some (link target)) = ok target

-- The answer of `os.ReadFile`; `absent` is an error that is `os.ErrNotExist`.
pub data ReadReply : Type 0 where
  contents absent unreadable : Text → ReadReply

unfoldable pub text_of : Option Node → ReadReply
text_of none = absent (codes "open: no such file or directory")
text_of (some (file content mode)) = contents content
text_of (some (link target)) = absent (codes "open: no such file or directory")

unfoldable pub text_at : Disk → Result Text → ReadReply
unfolding text_of
text_at d (ok p) = text_of (d p)
text_at d (err e) = unreadable e

module _ (os : Os) where
  -- A call that changes files, with its error.
  unfoldable pub touch : FileCall → M (Option Text)
  unfolding settle
  touch c s =
      let e = os.fault s c in
      (go e, record s { disk = settle (os.partial s) c e s.disk; log = touched c e ∷ s.log })

  unfoldable pub created : Text → Option Text → Result Text
  created p none = ok p
  created p (some e) = err e

  -- `os.CreateTemp`.
  unfoldable pub make_temp : Text → Text → M (Result Text)
  unfolding touch created
  make_temp dir pattern s =
      let p = os.temp_name s dir pattern in
      let e = os.fault s (create_temp p) in
      (
        go (created p e),
        record s {
          disk = settle 0 (create_temp p) e s.disk;
          log = touched (create_temp p) e ∷ s.log;
        },
      )

  unfoldable pub seen : Option Text → Option Node → Result (Option Node)
  seen none n = ok n
  seen (some e) n = err e

  -- `os.Lstat`: `none` is an error that is `os.ErrNotExist`.
  unfoldable pub look : Text → M (Result (Option Node))
  unfolding seen
  look p s = (go (seen (os.fault s (lstat p)) (s.disk p)), s)

  unfoldable pub read_target : Option Text → Option Node → Result Text
  unfolding target_of
  read_target none n = target_of n
  read_target (some e) n = err e

  -- `os.Readlink`.
  unfoldable pub follow : Text → M (Result Text)
  unfolding read_target
  follow p s = (go (read_target (os.fault s (readlink p)) (s.disk p)), s)

  -- A link is followed to the file at its end.
  unfoldable pub text_behind : Sys → Text → Option Text → Option Node → ReadReply
  unfolding text_of text_at
  text_behind s p (some e) n = unreadable e
  text_behind s p none (some (link target)) = text_at s.disk (os.eval_symlinks s p)
  text_behind s p none n = text_of n

  -- `os.ReadFile`.
  unfoldable pub read_text : Text → M ReadReply
  unfolding text_behind
  read_text p s = (go (text_behind s p (os.fault s (read_file p)) (s.disk p)), s)
