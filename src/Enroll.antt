-- ===== src/Enroll.antt =====
-- internal/enroll/enroll.go. The agent's files and the exchanges with Central are one state.
pub mod Triples
pub mod Persisted
pub mod ReadBack
mod Tests
use releasepanel_agent.Base.{
  ℕ, ◌||◌, ◌==◌, Option, none, some, List, [], ◌∷◌, ◌++◌, if◌then◌else◌, is_empty,
}
use releasepanel_agent.Text.{Text, codes, trim_space, trim_right, Unicode}
use releasepanel_agent.System.{
  Os, Sys, M, Result, ok, err, Exit, go, stop, Action, pure, leave, check, result, ◌>>=◌, ◌>>◌,
}
use releasepanel_agent.Config.Origin.{Url}
use releasepanel_agent.Config.Settings.{Config}
use releasepanel_agent.Api.{NodeFacts, EnrollRequest, EnrollResponse, schema_v1}
use releasepanel_agent.Central.{Http, Json, Wire, Client, new, enroll}
use releasepanel_agent.State.{
  EnrollmentRecord, ReadJson, decoded, not_there, broken, enrollment, ensure_tree,
  write_json_atomic, read_json,
}

pub record Machine : Type 0 where
  pub sys : Sys
  pub wire : Wire

-- A call on the files, with its error as a value.
unfoldable pub on_sys : {A : Type 0} → M A → Action Machine (Option Text)
unfolding result
on_sys m w = let (r, t) = m w.sys in (go (result r), record w { sys = t })

unfoldable pub answer_of : {A : Type 0} → Exit A → Result A
answer_of (go a) = ok a
answer_of (stop none) = err []
answer_of (stop (some e)) = err e

-- A call of Central, with its answer as a value.
unfoldable pub on_wire : {A : Type 0} → Action Wire A → Action Machine (Result A)
unfolding answer_of
on_wire m w = let (r, t) = m w.wire in (go (answer_of r), record w { wire = t })

unfoldable pub or_leave : {A : Type 0} → (Text → Text) → Result A → Action Machine A
or_leave wrap (ok a) = pure a
or_leave wrap (err e) = leave (some (wrap e))

unfoldable pub wrapped : Text → Option Text → Option Text
wrapped message none = none
wrapped message (some e) = some (message ++ e)

unfoldable pub missing_credentials : EnrollResponse → Option Text
missing_credentials resp =
    if is_empty (trim_space resp.node_id) || is_empty (trim_space resp.api_key)
    then some (codes "enroll response missing node_id or api_key")
    else none

unfoldable pub record_of : Text → EnrollResponse → Text → EnrollmentRecord
record_of base resp at = record {
  schema_version = schema_v1;
  node_id = resp.node_id;
  api_key = resp.api_key;
  central_base_url = trim_right (λ c. c == b'/') base;
  enrolled_at = at;
}

-- Package json on the record, and `url.Parse`.
pub record Codec : Type 0 where
  pub parse_url : Text → Result Url
  pub encode : EnrollmentRecord → Result Text
  pub decode : Text → Result EnrollmentRecord

module _ (os : Os) (codec : Codec) where
  -- The clock's time of the state.
  unfoldable pub clock : Action Machine Text
  clock w = (go (os.now w.sys), w)

  unfoldable pub persist : Text → EnrollmentRecord → Action Machine (Unit {0})
  unfolding wrapped
  persist state_dir rec = do
    made ← on_sys (ensure_tree os (state_dir ∷ []))
    check made
    saved ← on_sys (write_json_atomic os (enrollment state_dir) (codec.encode rec) 0o600)
    check (wrapped (codes "persist enrollment: ") saved)

  unfoldable pub record_read : Text → ReadJson EnrollmentRecord → M EnrollmentRecord
  record_read state_dir (decoded rec) = pure rec
  record_read state_dir (not_there e) =
      leave (some (codes "state file does not exist: " ++ enrollment state_dir))
  record_read state_dir (broken e) = leave (some e)

  unfoldable pub read_record : Text → M EnrollmentRecord
  unfolding record_read
  read_record state_dir = do
    r ← read_json os codec.decode (enrollment state_dir)
    record_read state_dir r

module _ ⦃u : Unicode⦄ (os : Os) (http : Http) (json : Json) (codec : Codec) where
  unfoldable pub run : Config → Text → Text → NodeFacts → Action Machine (Unit {0})
  unfolding or_leave on_wire missing_credentials record_of persist clock
  run cfg base token facts = do
    cl ← or_leave (λ e. e) (new codec.parse_url base cfg.skip_tls_verify)
    answer ← on_wire (
        enroll http json cl
          (record { schema_version = schema_v1; token = token; node_facts = facts }))
    resp ← or_leave (λ e. codes "enroll request: " ++ e) answer
    check (missing_credentials resp)
    at ← clock os codec
    persist os codec cfg.state_dir (record_of base resp at)
