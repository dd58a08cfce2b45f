-- ===== src/System/Atomic/Settles.antt =====
-- What the whole replacement does to the disk, with its clean-up.
use releasepanel_agent.Base.{ℕ, ◌≡◌, ◌≢◌, refl, Option, none, some, [], ◌∷◌}
use releasepanel_agent.Text.{Text}
use releasepanel_agent.FilePath.{dir}
use releasepanel_agent.System.{
  Os, Sys, Disk, file, Result, ok, err, Exit, stop, go, result, deferred, check, mkdir_all,
  create_temp, remove, touched,
}
use releasepanel_agent.System.Ensures.{Ensures, Post, Ensures-bind, Ensures-pure, Ensures-leave}
use releasepanel_agent.System.Files.{touch, make_temp, update, perform, spoil, settle, created}
use releasepanel_agent.System.Atomic.{got, fill_and_rename, replace_file}
use releasepanel_agent.System.Atomic.Replaces.{
  update_same, update_other, Ensures-touch, Replaced, wanted, Ensures-fill,
}

module _ (os : Os) (pattern path : Text)
    (apart : (s : Sys) → path ≢ os.temp_name s (dir path) pattern) (mode : ℕ)
    (content : Result Text) where
  -- What the whole replacement guarantees, for the disk `d` before it.
  abbrev pub Settles : Disk → Option Text → Disk → Type 0
  Settles d e d' = (tmp : Text) × (path ≢ tmp) × Replaced d path tmp (wanted content mode) e d'

  abbrev SettlesIn : Disk → Option Text → Sys → Type 0
  SettlesIn d e s = Settles d e s.disk

  -- The disk after `os.CreateTemp`, or after a call that failed before it.
  abbrev CreatedIn : Disk → Result Text → Sys → Type 0
  CreatedIn d (ok tmp) s = (s.disk ≡ update d tmp (some (file [] 0o600))) × (path ≢ tmp)
  CreatedIn d (err e) s = s.disk ≡ d

  abbrev SameIf : Disk → Option Text → Sys → Type 0
  SameIf d e s = s.disk ≡ d

  unchanged : (s : Sys) (d : Disk) (e : Text) → s.disk ≡ d → Settles d (some e) s.disk
  unchanged s d e q = (os.temp_name s (dir path) pattern, apart s, λ p n. cc q)

  created_Post :
      (d : Disk) (s : Sys) (e : Option Text) (tmp : Text)
      → path ≢ tmp
      → s.disk ≡ d
      → CreatedIn d (created os tmp e) (record s {
        disk = settle 0 (create_temp tmp) e s.disk;
        log = touched (create_temp tmp) e ∷ s.log;
      })
  unfolding created settle perform spoil
  created_Post d s none tmp n q = (cc q, n)
  created_Post d s (some e) tmp n q = q

  Ensures-make_temp :
      (d : Disk)
      → Ensures (λ s. s.disk ≡ d) (make_temp os (dir path) pattern) (CreatedIn d) (SettlesIn d)
  unfolding make_temp
  Ensures-make_temp d = record { at = λ s q. created_Post d s _ _ (apart s) q }

  Ensures-mkdir :
      (d : Disk)
      → Ensures (λ s. s.disk ≡ d) (touch os (mkdir_all (dir path))) (SameIf d) (SettlesIn d)
  unfolding perform spoil
  Ensures-mkdir d =
      Ensures-touch os (mkdir_all (dir path)) (SameIf d) (λ s t q e. cc) (λ s t x q e. cc)

  Ensures-made :
      (d : Disk) (e : Option Text)
      → Ensures (SameIf d e) (check e) (λ _ s. s.disk ≡ d) (SettlesIn d)
  unfolding check
  Ensures-made d none = Ensures-pure tt (λ s q. q)
  Ensures-made d (some e) = Ensures-leave (λ _ s. s.disk ≡ d) (some e) (λ s q. unchanged s d e q)

  Ensures-got :
      (d : Disk) (r : Result Text)
      → Ensures (CreatedIn d r) (got r) (λ tmp. CreatedIn d (ok tmp)) (SettlesIn d)
  unfolding got
  Ensures-got d (ok tmp) = Ensures-pure tmp (λ s q. q)
  Ensures-got d (err e) =
      Ensures-leave (λ tmp. CreatedIn d (ok tmp)) (some e) (λ s q. unchanged s d e q)

  settled :
      (d : Disk) (tmp : Text) (r : Exit (Unit {0})) (t : Sys)
      → path ≢ tmp
      → Post (λ _ _. ⊥) (λ e s. Replaced d path tmp (wanted content mode) e s.disk) r t
      → Post (λ _ _. ⊥) (SettlesIn d) r t
  settled d tmp (stop e) t n h = (tmp, n, h)
  settled d tmp (go a) t n h = absurd h

  Ensures-filled :
      (d : Disk) (tmp : Text)
      → Ensures
          (CreatedIn d (ok tmp))
          (deferred (touch os (remove tmp)) (fill_and_rename os mode path content tmp))
          (λ _ _. ⊥)
          (SettlesIn d)
  Ensures-filled d tmp = record {
    at = λ s h. settled d tmp _ _ h.1 (
        (Ensures-fill os d path tmp h.1 mode content).at s (
          cc (h.0, update_same d tmp (some (file [] 0o600))),
          λ q b. cc (h.0, update_other d tmp q (some (file [] 0o600)) b),
        ));
  }

  Ensures-replace_file :
      (d : Disk)
      → Ensures
          (λ s. s.disk ≡ d)
          (replace_file os pattern mode path content)
          (λ _ _. ⊥)
          (SettlesIn d)
  unfolding replace_file
  Ensures-replace_file d = Ensures-bind (Ensures-mkdir d) λ e. Ensures-bind (Ensures-made d e) λ _.
      Ensures-bind (Ensures-make_temp d)
        λ r. Ensures-bind (Ensures-got d r) λ tmp. Ensures-filled d tmp

  returned :
      (d : Disk) (r : Exit (Unit {0})) (t : Sys)
      → Post (λ _ _. ⊥) (SettlesIn d) r t
      → Settles d (result r) t.disk
  unfolding result
  returned d (stop e) t h = h
  returned d (go a) t h = absurd h

  pub replace_file-Settles :
      (s : Sys)
      → let (r, t) = replace_file os pattern mode path content s in Settles s.disk (result r) t.disk
  replace_file-Settles s = returned s.disk _ _ ((Ensures-replace_file s.disk).at s refl)
