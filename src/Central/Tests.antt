-- ===== src/Central/Tests.antt =====
-- The theorems on the clients of Central at a server that takes everything.
use releasepanel_agent.Base.{◌≡◌, ◌↔◌, refl, false, none, some, [], ◌++◌}
use releasepanel_agent.Text.{Text, codes, byte_length, byte_prefix, Unicode}
use releasepanel_agent.System.{ok, go, ◌>>=◌, check}
use releasepanel_agent.Config.Origin.{Url}
use releasepanel_agent.Api.{HeartbeatReport}
use releasepanel_agent.Central.{
  Http, Json, Client, fetch_desired, no_response, exchange, read_error, status_error, read_limited,
}
use releasepanel_agent.Central.Ping.{PingClient, no_intents}
use releasepanel_agent.Central.Outcomes.{heartbeat, post, IsPosted, post_iff}
use releasepanel_agent.Central.Manifest.{IsManifest, fetch_desired-IsManifest}
use releasepanel_agent.Central.Calls.{reports, after, SendsAtMostOne, after-SendsAtMostOne}

instance ascii : Unicode
ascii = record { lower = λ c. c; quote = λ s. codes "\"" ++ (s ++ codes "\"") }

abbrev origin : Url
origin = record {
  scheme = codes "https";
  host = codes "a.example";
  path = [];
  raw_query = [];
  fragment = [];
}

abbrev http : Http
http = record {
  respond = λ w req. ok (record { status = 200; body = codes "{}"; broken = none });
  bad_request = λ method url. none;
  resolve = λ u path. codes "https://a.example" ++ path;
  redacted = λ u path. codes "https://a.example" ++ path;
  path_escape = λ s. s;
}

abbrev json : Json
json = record {
  enroll_request = λ r. ok (codes "{}");
  enroll_response = λ t. ok no_response;
  inventory = λ r. ok (codes "{}");
  health = λ r. ok (codes "{}");
  heartbeat = λ r. ok (codes "{}");
  convergence = λ r. ok (codes "{}");
  ping_body = λ r. ok (codes "{}");
  ping_response = λ t. ok no_intents;
  fingerprint = λ t. some (codes "f1");
}

abbrev client : Client
client = record {
  base_url = origin;
  skip_tls_verify = false;
  node_id = codes "n1";
  api_key = codes "k1";
}

abbrev beat : HeartbeatReport
beat = record {
  schema_version = 1;
  node_id = codes "n1";
  collected_at = codes "2026-01-01T00:00:00Z";
  agent_version = codes "0.1";
}

post_iff_example :
    ((post http json client (heartbeat beat) []).0 ≡ go tt)
    ↔ IsPosted http json client (heartbeat beat) [] (post http json client (heartbeat beat) []).1
post_iff_example = post_iff http json client (heartbeat beat) []

fetch_desired-IsManifest_example :
    IsManifest http json client [] (codes "{}", codes "f1") (fetch_desired http json client []).1
unfolding fetch_desired ◌>>=◌ check exchange read_error byte_length status_error read_limited
    byte_prefix
fetch_desired-IsManifest_example =
    fetch_desired-IsManifest http json client [] (codes "{}", codes "f1") refl

after-SendsAtMostOne_example :
    SendsAtMostOne client
      (reports (heartbeat beat))
      []
      (after http json client (reports (heartbeat beat)) [])
after-SendsAtMostOne_example = after-SendsAtMostOne http json client (reports (heartbeat beat)) []

abbrev ping_client : PingClient
ping_client = record { base_url = origin; skip_tls_verify = false; token = codes "t1" }
