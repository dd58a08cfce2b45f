-- ===== src/Deploy/Converges.antt =====
-- What `Reconcile` makes of the record that it is given.
use releasepanel_agent.Base.{◌≡◌, [], ◌∷◌, Option}
use releasepanel_agent.Text.{Text, codes}
use releasepanel_agent.System.{Os}
use releasepanel_agent.System.Ensures.{Ensures}
use releasepanel_agent.FilePath.{join}
use releasepanel_agent.Deploy.Outcome.{IsConverged, Outcome}
use releasepanel_agent.Deploy.{locks_dir, ConvergenceRecord, Remote, World}

module _ (os : Os) (remote : Remote) (state_dir node_id : Text) (c : ConvergenceRecord) where
  abbrev On : (ConvergenceRecord → Type 0) → World → Type 0
  On P w = P w.conv

  abbrev End : Option Text → World → Type 0
  End e w = Outcome os remote state_dir c e w.conv

  -- The reported fingerprint is still the old one.
  abbrev IsUnreported : ConvergenceRecord → Type 0
  IsUnreported r = r.last_reported_fingerprint ≡ c.last_reported_fingerprint

  -- The record with the fingerprint that was fetched.
  abbrev Desires : Text → ConvergenceRecord → Type 0
  Desires fp r = IsUnreported r × (r.desired_fingerprint ≡ fp)

  abbrev IsApplied : Text → ConvergenceRecord → Type 0
  IsApplied fp r = IsUnreported r × (r.desired_fingerprint ≡ fp) × (r.applied_fingerprint ≡ fp)

  abbrev IsDone : Text → ConvergenceRecord → Type 0
  IsDone fp r = IsConverged r × (r.desired_fingerprint ≡ fp)

  abbrev IsSame : ConvergenceRecord → Type 0
  IsSame r = r ≡ c

  abbrev IsFetched : Text → ConvergenceRecord → Type 0
  IsFetched fp r = r ≡ record c { desired_fingerprint = fp }

  abbrev lock_path : Text
  lock_path = join (locks_dir state_dir ∷ codes "deploy.lock" ∷ [])
