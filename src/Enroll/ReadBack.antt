-- ===== src/Enroll/ReadBack.antt =====
-- internal/enroll/enroll.go: `ReadRecord` after `Run`.
use releasepanel_agent.Enroll.Persisted.{run-Ensures}
use releasepanel_agent.Base.{◌≡◌, ◌≢◌, refl, sym, ◌∙◌, ap, none, some, []}
use releasepanel_agent.Text.{Text, codes, trim_space, Unicode}
use releasepanel_agent.FilePath.{dir}
use releasepanel_agent.System.{Os, Sys, file, ok, go, pure, ◌>>=◌, read_file}
use releasepanel_agent.System.Ensures.{Ensures-go}
use releasepanel_agent.System.Files.{read_text, text_behind}
use releasepanel_agent.System.Atomic.Replaces.{wanted}
use releasepanel_agent.Config.Settings.{Config}
use releasepanel_agent.Api.{NodeFacts}
use releasepanel_agent.Central.{Http, Json}
use releasepanel_agent.State.{EnrollmentRecord, enrollment, read_json}
use releasepanel_agent.Enroll.{Machine, Codec, run, read_record}

read_record_lem :
    (os : Os) (codec : Codec) (state_dir text : Text) (rec : EnrollmentRecord) (s : Sys)
    → os.fault s (read_file (enrollment state_dir)) ≡ none
    → s.disk (enrollment state_dir) ≡ some (file text 0o600)
    → codec.decode text ≡ ok rec
    → (read_record os codec state_dir s).0 ≡ go rec
unfolding read_record read_json read_text text_behind ◌>>=◌ pure
read_record_lem os codec state_dir text rec s f d c = rw (f, d, c) refl

-- What an enrollment has written is what the agent reads when it starts: after an enrollment
-- without an error, `ReadRecord` gives a record whose node id and key are not blank. The
-- hypotheses are that package json reads back what it has written, that the file can be read, and
-- that `os.CreateTemp` never gives the temporary file the name of the enrollment file.
pub read_record-run :
    ⦃u : Unicode⦄ (os : Os) (http : Http) (json : Json) (codec : Codec) (cfg : Config)
    (base token : Text) (facts : NodeFacts) (w : Machine)
    → ((s : Sys)
        → enrollment cfg.state_dir
          ≢ os.temp_name s (dir (enrollment cfg.state_dir)) (codes ".rp-*"))
    → ((rec : EnrollmentRecord)
        → (t : Text) × (codec.encode rec ≡ ok t) × (codec.decode t ≡ ok rec))
    → ((s : Sys) → os.fault s (read_file (enrollment cfg.state_dir)) ≡ none)
    → (run os http json codec cfg base token facts w).0 ≡ go tt
    → (rec : EnrollmentRecord) × ((read_record os codec cfg.state_dir
          (run os http json codec cfg base token facts w).1.sys).0
        ≡ go rec)
      × (trim_space rec.node_id ≢ [])
      × (trim_space rec.api_key ≢ [])
read_record-run os http json codec cfg base token facts w apart round readable h =
    let e = Ensures-go (run-Ensures os http json codec cfg base token facts apart w) w tt refl h in
    let (t, written, back) = round e.stored in
    (
      e.stored,
      read_record_lem os codec cfg.state_dir t _ _ (readable _)
          (e.written.0 ∙ ap (λ r. wanted r 0o600) written) back,
      λ q. e.node_given (ap trim_space (sym e.stored_node) ∙ q),
      λ q. e.key_given (ap trim_space (sym e.stored_key) ∙ q),
    )
