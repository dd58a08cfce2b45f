-- ===== src/Deploy/Outcome.antt =====
-- What a run of `Reconcile` may make of the record, and what its tests say.
use releasepanel_agent.Base.{
  ℕ, ◌≡◌, ◌≢◌, ◌⊎◌, inl, inr, refl, ◌∙◌, [], ◌∷◌, if◌then◌else◌, arith, true, false, not, ◌&&◌,
  Option, none, some, is_empty,
}
use releasepanel_agent.Text.{Text, codes, text_eq, text_eq_iff}
use releasepanel_agent.System.{Os, Sys, Result, ok, Node, create_new}
use releasepanel_agent.FilePath.{join}
use releasepanel_agent.Api.{ConvergenceReport}
use releasepanel_agent.Deploy.{
  locks_dir, post_error, is_some, fingerprint_from_payload, ConvergenceRecord, Remote,
}

-- The three fingerprints agree.
pub record IsConverged (c : ConvergenceRecord) : Type 0 where
  pub is_applied : c.applied_fingerprint ≡ c.desired_fingerprint
  pub is_reported : c.last_reported_fingerprint ≡ c.desired_fingerprint

module _ (os : Os) (remote : Remote) (state_dir : Text) where
  -- Another run holds the lock: its file was there, or the exclusive create said so.
  abbrev pub IsHeld : Type 0
  IsHeld =
      (s : Sys) × (((n : Node) × (s.disk (join (locks_dir state_dir ∷ codes "deploy.lock" ∷ []))
            ≡ some n))
        ⊎ ((e : Text) × (os.fault s
                (create_new (join (locks_dir state_dir ∷ codes "deploy.lock" ∷ [])))
              ≡ some e)
            × (remote.is_exist e ≡ true)))

  -- Central had no manifest.
  abbrev pub HasNoManifest : Type 0
  HasNoManifest = (s : Sys) × (remote.fetch_desired s ≡ ok ([], []))

  -- The fingerprint of the manifest that Central gave: its own, or else the one in its payload.
  pub record IsNamed (fp : Text) : Type 0 where
    pub sys : Sys
    pub raw : Text
    pub own : Text
    pub fetched : remote.fetch_desired sys ≡ ok (raw, own)
    pub named :
        ((own ≢ []) × (fp ≡ own))
        ⊎ ((own ≡ [])
            × (raw ≢ [])
            × ((remote.fingerprint_of raw ≡ some fp)
                ⊎ ((remote.fingerprint_of raw ≡ none) × (fp ≡ []))))

  -- Central has taken a report that this fingerprint is desired and applied.
  pub record IsPosted (fp : Text) : Type 0 where
    pub sys : Sys
    pub report : ConvergenceReport
    pub taken : remote.post_convergence sys report ≡ none
    pub desired : report.desired_fingerprint ≡ fp
    pub applied : report.applied_fingerprint ≡ fp

  -- What a run that returned `e` has made of the record `c`.
  abbrev pub Outcome : ConvergenceRecord → Option Text → ConvergenceRecord → Type 0
  Outcome c none c' =
      ((c' ≡ c) × (IsHeld ⊎ HasNoManifest))
      ⊎ (IsConverged c'
          × IsNamed c'.desired_fingerprint
          × (IsPosted c'.desired_fingerprint
              ⊎ ((c.applied_fingerprint ≡ c'.desired_fingerprint)
                  × (c.last_reported_fingerprint ≡ c'.desired_fingerprint))))
  Outcome c (some e) c' =
      (c'.last_reported_fingerprint ≡ c.last_reported_fingerprint)
      ⊎ (IsConverged c' × IsPosted c'.desired_fingerprint)

module _ (os : Os) (remote : Remote) (state_dir : Text) where
  pub reached :
      (fp : Text) (r : ConvergenceRecord)
      → (not (is_empty fp)
          && text_eq r.applied_fingerprint fp
          && text_eq r.last_reported_fingerprint fp)
        ≡ true
      → (r.applied_fingerprint ≡ fp) × (r.last_reported_fingerprint ≡ fp)
  reached fp r h = (
    ground (arith, text_eq_iff r.applied_fingerprint fp),
    ground (arith, text_eq_iff r.last_reported_fingerprint fp),
  )

  pub none_there :
      (s : Sys) (r : Result (Text × Text)) (raw own : Text)
      → remote.fetch_desired s ≡ r
      → r ≡ ok (raw, own)
      → (is_empty raw && is_empty own) ≡ true
      → HasNoManifest os remote state_dir
  none_there s r [] [] e q h = (s, e ∙ q)
  none_there s r [] (x ∷ own) e q h = ground arith
  none_there s r (x ∷ raw) own e q h = ground arith

  payload_lem :
      (x : ℕ) (raw : Text) (r : Option Text)
      → remote.fingerprint_of (x ∷ raw) ≡ r
      → (remote.fingerprint_of (x ∷ raw) ≡ some (fingerprint_from_payload remote (x ∷ raw)))
        ⊎ ((remote.fingerprint_of (x ∷ raw) ≡ none)
            × (fingerprint_from_payload remote (x ∷ raw) ≡ []))
  unfolding fingerprint_from_payload
  payload_lem x raw none q = rw q (inr (refl, refl))
  payload_lem x raw (some t) q = rw q (inl refl)

  pub named_lem :
      (s : Sys) (raw own : Text)
      → remote.fetch_desired s ≡ ok (raw, own)
      → (is_empty raw && is_empty own) ≡ false
      → IsNamed os remote state_dir
          (if is_empty own then fingerprint_from_payload remote raw else own)
  unfolding fingerprint_from_payload
  named_lem s [] [] e h = ground arith
  named_lem s raw (x ∷ own) e h = record {
    sys = s;
    raw = raw;
    own = x ∷ own;
    fetched = e;
    named = inl (ground arith, refl);
  }
  named_lem s (x ∷ raw) [] e h = record {
    sys = s;
    raw = x ∷ raw;
    own = [];
    fetched = e;
    named = inr (refl, ground arith, payload_lem x raw (remote.fingerprint_of (x ∷ raw)) refl);
  }

  pub is_some_lem : (n : Option Node) → is_some n ≡ true → (m : Node) × (n ≡ some m)
  unfolding is_some
  is_some_lem none h = ground arith
  is_some_lem (some m) h = (m, refl)

  pub post_error_lem :
      (node_id : Text) (e : Option Text)
      → post_error os remote state_dir node_id e ≡ none
      → e ≡ none
  unfolding post_error
  post_error_lem node_id none h = refl
  post_error_lem node_id (some x) h = ground arith
