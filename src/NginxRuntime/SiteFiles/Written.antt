-- ===== src/NginxRuntime/SiteFiles/Written.antt =====
-- What the disk holds after a site's file and link were written.
use releasepanel_agent.Base.{
  ℕ, ◌≡◌, ◌≢◌, refl, sym, ◌∙◌, Option, none, some, arith, Bool, true, false,
}
use releasepanel_agent.Text.{Text, codes, text_eq, text_eq_iff}
use releasepanel_agent.FilePath.{dir}
use releasepanel_agent.System.{
  Os, Sys, Disk, Node, file, link, Result, ok, err, Exit, stop, go, call, result, check, remove,
  symlink_to,
}
use releasepanel_agent.System.Ensures.{
  Ensures, Post, Ensures-bind, Ensures-pure, Ensures-leave, Ensures-fact,
}
use releasepanel_agent.System.Files.{
  touch, look, follow, perform, spoil, read_target, seen, target_of,
}
use releasepanel_agent.System.Atomic.{got}
use releasepanel_agent.System.Atomic.Replaces.{update_same, update_other, Ensures-touch}
use releasepanel_agent.System.Atomic.Settles.{Settles, replace_file-Settles}
use releasepanel_agent.NginxRuntime.SiteFiles.{
  write_atomic_file, ensure_symlink, ensure_symlink_steps, replace_stale, drop_stale,
}

-- `WriteAtomicFile` always returns, and is all or nothing: if it returns nil, the path holds the
-- content with mode 0644, the temporary file is gone and no other file is changed; if it returns
-- an error, no file but the temporary one is changed. The hypothesis is that `os.CreateTemp`
-- never gives the temporary file the name of the path.
pub write_atomic_file-Settles :
    (os : Os) (path content : Text) (s : Sys)
    (apart : (t : Sys) → path ≢ os.temp_name t (dir path) (codes ".rp-nginx-*"))
    → (e : Option Text) × ((write_atomic_file os path content s).0 ≡ go e)
      × Settles os
          (codes ".rp-nginx-*")
          path
          apart
          0o644
          (ok content)
          s.disk
          e
          (write_atomic_file os path content s).1.disk
unfolding write_atomic_file call
write_atomic_file-Settles os path content s apart =
    (_, refl, replace_file-Settles os (codes ".rp-nginx-*") path apart 0o644 (ok content) s)

-- How `EnsureSymlink` may end, from the disk `d` before it.
abbrev pub Linked : Disk → Text → Text → Option Text → Disk → Type 0
Linked d linkpath target none d' =
    (d' linkpath ≡ some (link target))
    × ((q : Text) → q ≢ linkpath → d' q ≡ d q)
    × ((content : Text) (mode : ℕ) → d linkpath ≢ some (file content mode))
Linked d linkpath target (some e) d' =
    ((q : Text) → q ≢ linkpath → d' q ≡ d q)
    × ((content : Text) (mode : ℕ)
        → d linkpath ≡ some (file content mode)
        → d' linkpath ≡ d linkpath)

module _ (os : Os) (linkpath target : Text) (d : Disk) where
  abbrev LinkedIn : Option Text → Sys → Type 0
  LinkedIn e s = Linked d linkpath target e s.disk

  abbrev SeenIn : Result (Option Node) → Sys → Type 0
  SeenIn (ok n) s = (s.disk ≡ d) × (d linkpath ≡ n)
  SeenIn (err e) s = s.disk ≡ d

  -- Before the link is made: at most a link stood there, and only it was touched.
  abbrev ClearIn : Sys → Type 0
  ClearIn s =
      ((q : Text) → q ≢ linkpath → s.disk q ≡ d q)
      × ((content : Text) (mode : ℕ) → d linkpath ≢ some (file content mode))

  abbrev ClearedIn : Option Text → Sys → Type 0
  ClearedIn e s = ClearIn s

  seen_Post : (s : Sys) (e : Option Text) → s.disk ≡ d → SeenIn (seen os e (s.disk linkpath)) s
  unfolding seen
  seen_Post s none q = (q, cc q)
  seen_Post s (some e) q = q

  Ensures-look : Ensures (λ s. s.disk ≡ d) (look os linkpath) SeenIn LinkedIn
  unfolding look
  Ensures-look = record { at = λ s q. seen_Post s _ q }

  Ensures-got :
      (r : Result (Option Node)) → Ensures (SeenIn r) (got r) (λ n. SeenIn (ok n)) LinkedIn
  unfolding got
  Ensures-got (ok n) = Ensures-pure n (λ s h. h)
  Ensures-got (err e) =
      Ensures-leave (λ n. SeenIn (ok n)) (some e) (λ s q. (λ p n. cc q, λ c m x. cc q))

  kept_link :
      (old : Text) (s : Sys) (e : Text) → SeenIn (ok (some (link old))) s → LinkedIn (some e) s
  kept_link old s e h = (λ p n. cc (h.0), λ c m x. cc (h.0))

  no_file :
      (old : Text)
      → d linkpath ≡ some (link old)
      → (c : Text) (m : ℕ) → d linkpath ≢ some (file c m)
  no_file old q c m x = ground arith

  -- The target that is read is the one that stands there.
  abbrev ReadIn : Text → Result Text → Sys → Type 0
  ReadIn old (ok cur) s = SeenIn (ok (some (link old))) s × (cur ≡ old)
  ReadIn old (err e) s = SeenIn (ok (some (link old))) s

  read_Post :
      (old : Text) (s : Sys) (e : Option Text) (n : Option Node)
      → n ≡ some (link old)
      → SeenIn (ok (some (link old))) s
      → ReadIn old (read_target os e n) s
  unfolding read_target target_of
  read_Post old s none none q h = ground arith
  read_Post old s none (some (file c m)) q h = ground arith
  read_Post old s none (some (link t)) q h = (h, ground arith)
  read_Post old s (some e) n q h = h

  Ensures-follow :
      (old : Text)
      → Ensures (SeenIn (ok (some (link old)))) (follow os linkpath) (ReadIn old) LinkedIn
  unfolding follow
  Ensures-follow old = record { at = λ s h. read_Post old s _ _ (cc (h.0, h.1)) h }

  Ensures-read :
      (old : Text) (r : Result Text)
      → Ensures
          (ReadIn old r)
          (got r)
          (λ cur s. SeenIn (ok (some (link old))) s × (cur ≡ old))
          LinkedIn
  unfolding got
  Ensures-read old (ok cur) = Ensures-pure cur (λ s h. h)
  Ensures-read old (err e) =
      Ensures-leave (λ cur s. SeenIn (ok (some (link old))) s × (cur ≡ old)) (some e)
        (λ s h. kept_link old s e h)

  Ensures-check : (e : Option Text) → Ensures (ClearedIn e) (check e) (λ _. ClearIn) LinkedIn
  unfolding check
  Ensures-check none = Ensures-pure tt (λ s h. h)
  Ensures-check (some e) =
      Ensures-leave (λ _. ClearIn) (some e) (λ s h. (h.0, λ c m x. absurd (h.1 c m x)))

  Ensures-drop :
      (old : Text) (same : Bool)
      → (same ≡ true → old ≡ target)
      → Ensures
          (SeenIn (ok (some (link old))))
          (drop_stale os linkpath same)
          (λ _. ClearIn)
          LinkedIn
  unfolding drop_stale perform spoil
  Ensures-drop old true q =
      Ensures-leave (λ _. ClearIn) none
        (λ s h. (cc (h.0, h.1, q refl), λ p n. cc (h.0), no_file old h.1))
  Ensures-drop old false q =
      Ensures-bind
        (Ensures-touch os (remove linkpath) ClearedIn
          (λ s t h e. (λ p n. cc (e, update_other s.disk linkpath p none n, h.0), no_file old h.1))
          (λ s t x h e. (λ p n. cc (e, h.0), no_file old h.1)))
        Ensures-check

  Ensures-replace_stale :
      (n : Option Node)
      → Ensures (SeenIn (ok n)) (replace_stale os linkpath target n) (λ _. ClearIn) LinkedIn
  unfolding replace_stale
  Ensures-replace_stale none = Ensures-pure tt (λ s h. (λ p n. cc (h.0), λ c m x. ground arith))
  Ensures-replace_stale (some (file content mode)) =
      Ensures-leave (λ _. ClearIn) _ (λ s h. (λ p n. cc (h.0), λ c m x. cc (h.0)))
  Ensures-replace_stale (some (link old)) = Ensures-bind (Ensures-follow old) λ r.
      Ensures-bind (Ensures-read old r) λ cur.
        Ensures-fact
          λ q. Ensures-drop old (text_eq cur target) (λ e. sym q ∙ (text_eq_iff cur target).0 e)

  Ensures-symlink_to : Ensures ClearIn (touch os (symlink_to target linkpath)) LinkedIn LinkedIn
  unfolding perform spoil
  Ensures-symlink_to =
      Ensures-touch os (symlink_to target linkpath) LinkedIn
        (λ s t h e. (
          cc (e, update_same s.disk linkpath (some (link target))),
          λ p n. cc (e, update_other s.disk linkpath p (some (link target)) n, h.0 p n),
          h.1,
        ))
        (λ s t x h e. (λ p n. cc (e, h.0 p n), λ c m y. absurd (h.1 c m y)))

  Ensures-ensure_symlink_steps :
      Ensures (λ s. s.disk ≡ d) (ensure_symlink_steps os linkpath target) (λ _ _. ⊥) LinkedIn
  unfolding ensure_symlink_steps
  Ensures-ensure_symlink_steps = Ensures-bind Ensures-look λ r. Ensures-bind (Ensures-got r) λ n.
      Ensures-bind (Ensures-replace_stale n)
        λ _. Ensures-bind Ensures-symlink_to λ e. Ensures-leave (λ _ _. ⊥) e (λ s h. h)

  Linked-result :
      (r : Exit (Unit {0})) (t : Sys)
      → Post (λ _ _. ⊥) LinkedIn r t
      → Linked d linkpath target (result r) t.disk
  unfolding result
  Linked-result (stop e) t h = h
  Linked-result (go a) t h = absurd h

-- `EnsureSymlink` always returns and touches no other path: if it returns nil, the path is a link
-- to the target and no file stood there; if it returns an error, a file that stood there is kept.
pub ensure_symlink-Linked :
    (os : Os) (linkpath target : Text) (s : Sys)
    → (e : Option Text) × ((ensure_symlink os linkpath target s).0 ≡ go e)
      × Linked s.disk linkpath target e (ensure_symlink os linkpath target s).1.disk
unfolding ensure_symlink call
ensure_symlink-Linked os linkpath target s = (
  _,
  refl,
  Linked-result os linkpath target s.disk _ _
      ((Ensures-ensure_symlink_steps os linkpath target s.disk).at s refl),
)
