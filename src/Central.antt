-- ===== src/Central.antt =====
-- internal/central/client.go: the client of a node. Package json is the parameter `Json`.
mod Exchanges
pub mod Ping
pub mod Sends
pub mod Pings
pub mod Outcomes
pub mod Manifest
pub mod Calls
mod Tests
unfoldable pub use Exchanges.*
use releasepanel_agent.Base.{
  ℕ, Bool, true, false, ◌||◌, ◌&&◌, Option, none, some, List, [], ◌∷◌, ◌++◌, ◌==◌, if◌then◌else◌,
  is_empty,
}
use releasepanel_agent.Text.{Text, codes, trim_space, trim_right, Unicode}
use releasepanel_agent.System.{
  Result, ok, err, Exit, go, stop, Action, pure, leave, check, ◌>>=◌, ◌>>◌,
}
use releasepanel_agent.Config.Origin.{Url, validate_http_origin}
use releasepanel_agent.Api.{
  EnrollRequest, EnrollResponse, InventoryReport, HealthReport, HeartbeatReport, ConvergenceReport,
  AgentPingPostBody, AgentPingResponse,
}

pub record Client : Type 0 where
  pub base_url : Url
  pub skip_tls_verify : Bool
  pub node_id : Text
  pub api_key : Text

pub record Json : Type 0 where
  pub enroll_request : EnrollRequest → Result Text
  pub enroll_response : Text → Result EnrollResponse
  pub inventory : InventoryReport → Result Text
  pub health : HealthReport → Result Text
  pub heartbeat : HeartbeatReport → Result Text
  pub convergence : ConvergenceReport → Result Text
  pub ping_body : AgentPingPostBody → Result Text
  pub ping_response : Text → Result AgentPingResponse
  -- The field `fingerprint` of a text, and the fields that a missing value leaves at zero.
  pub fingerprint : Text → Option Text

unfoldable pub client_at : Bool → Result Url → Result Client
client_at skip (err e) = err e
client_at skip (ok u) =
    ok (record { base_url = u; skip_tls_verify = skip; node_id = []; api_key = [] })

unfoldable pub client_unless : Option Text → Result Client → Result Client
client_unless none c = c
client_unless (some e) c = err e

-- `New`, with `url.Parse` as `parse`.
unfoldable pub new : ⦃u : Unicode⦄ → (Text → Result Url) → Text → Bool → Result Client
unfolding client_at client_unless
new parse base skip =
    client_unless (validate_http_origin parse (trim_space base))
      (client_at skip (parse (trim_right (λ c. c == b'/') (trim_space base))))

unfoldable pub with_auth : Client → Text → Text → Client
with_auth c node_id api_key = record c { node_id = node_id; api_key = api_key }

unfoldable pub bearer : Text → Text
bearer key = codes "Bearer " ++ key

unfoldable pub unless_empty : Text → Option Text
unless_empty [] = none
unless_empty (c ∷ s) = some (c ∷ s)

unfoldable pub post_request : Client → Text → Text → Bool → Request
unfolding bearer unless_empty
post_request c url buf auth = record {
  method = codes "POST";
  url = url;
  authorization = if auth then some (bearer c.api_key) else none;
  node_id = if auth then unless_empty c.node_id else none;
  content_type = some (codes "application/json");
  accept = none;
  body = some buf;
}

unfoldable pub get_request : Client → Text → Request
unfolding bearer
get_request c url = record {
  method = codes "GET";
  url = url;
  authorization = some (bearer c.api_key);
  node_id = some c.node_id;
  content_type = none;
  accept = none;
  body = none;
}

unfoldable pub missing_key : Client → Bool → Option Text
missing_key c auth = if auth && is_empty c.api_key then some (codes "missing api key") else none

-- The body into `out`: it is left alone where there is none, or nothing to decode.
unfoldable pub decode_into : {A : Type 0} → Option (Text → Result A) → A → Text → Result A
decode_into none zero raw = ok zero
decode_into (some decode) zero raw = if is_empty raw then ok zero else decode raw

unfoldable pub or_empty : Option Text → Text
or_empty none = []
or_empty (some t) = t

abbrev pub no_response : EnrollResponse
no_response = record { schema_version = 0; node_id = []; api_key = [] }

module _ (http : Http) (json : Json) (c : Client) where
  unfoldable pub node_path : Text → Text
  node_path rest = codes "/api/v1/nodes/" ++ (http.path_escape c.node_id ++ rest)

  unfoldable pub post_json :
      {A : Type 0} → Text → Result Text → Option (Text → Result A) → A → Bool → Action Wire A
  unfolding post_request missing_key decode_into
  post_json path body decode zero auth = do
    buf ← value_of body
    check (http.bad_request (codes "POST") (http.resolve c.base_url path))
    check (missing_key c auth)
    resp ← exchange http (post_request c (http.resolve c.base_url path) buf auth)
    check (
        status_error (codes "POST") (http.redacted c.base_url path) resp.status (read_limited resp))
    value_of (decode_into decode zero (read_limited resp))

  unfoldable pub enroll : EnrollRequest → Action Wire EnrollResponse
  unfolding post_json
  enroll req =
      post_json (codes "/api/v1/nodes/enroll") (json.enroll_request req) (some json.enroll_response)
        no_response false

  unfoldable pub post_report : Text → Result Text → Action Wire (Unit {0})
  unfolding post_json node_path
  post_report rest body = post_json (node_path rest) body none tt true

  unfoldable pub post_inventory : InventoryReport → Action Wire (Unit {0})
  unfolding post_report
  post_inventory report = post_report (codes "/reports/inventory") (json.inventory report)

  unfoldable pub post_health : HealthReport → Action Wire (Unit {0})
  unfolding post_report
  post_health report = post_report (codes "/reports/health") (json.health report)

  unfoldable pub post_heartbeat : HeartbeatReport → Action Wire (Unit {0})
  unfolding post_report
  post_heartbeat report = post_report (codes "/heartbeat") (json.heartbeat report)

  unfoldable pub post_convergence : ConvergenceReport → Action Wire (Unit {0})
  unfolding post_report
  post_convergence report = post_report (codes "/reports/convergence") (json.convergence report)

  -- What a response brings; 404 is no manifest.
  unfoldable pub raw_of : Text → Response → Action Wire Text
  raw_of path resp = if resp.status == 404 then pure [] else (do
    check
        (status_error (codes "GET") (http.redacted c.base_url path) resp.status (read_limited resp))
    pure (read_limited resp))

  unfoldable pub get_raw : Text → Action Wire Text
  unfolding get_request raw_of
  get_raw path = do
    check (http.bad_request (codes "GET") (http.resolve c.base_url path))
    resp ← exchange http (get_request c (http.resolve c.base_url path))
    check (read_error resp)
    raw_of path resp

  unfoldable pub missing_auth : Option Text
  missing_auth =
      if is_empty c.node_id || is_empty c.api_key
      then some (codes "central client missing auth")
      else none

  -- The manifest and its fingerprint.
  unfoldable pub fetch_desired : Action Wire (Text × Text)
  unfolding get_raw node_path missing_auth or_empty
  fetch_desired = do
    check missing_auth
    raw ← get_raw (node_path (codes "/desired"))
    pure (raw, or_empty (json.fingerprint raw))
