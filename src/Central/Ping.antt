-- ===== src/Central/Ping.antt =====
-- internal/central/ping.go: the client of the agent's own routes, with the bearer token alone.
use releasepanel_agent.Base.{Bool, Option, none, some, [], ◌++◌, if◌then◌else◌, is_empty}
use releasepanel_agent.Text.{Text, codes, trim_space, Unicode}
use releasepanel_agent.System.{Result, ok, err, Action, pure, check, ◌>>=◌, ◌>>◌}
use releasepanel_agent.Config.Origin.{Url}
use releasepanel_agent.Api.{AgentPingPostBody, AgentPingResponse}
use releasepanel_agent.Central.{
  Http, Json, Wire, Request, Client, value_of, exchange, read_limited, read_error, status_error,
  bearer, new,
}

pub record PingClient : Type 0 where
  pub base_url : Url
  pub skip_tls_verify : Bool
  pub token : Text

unfoldable pub ping_client_of : Text → Result Client → Result PingClient
ping_client_of token (err e) = err e
ping_client_of token (ok cli) =
    if is_empty token
    then err (codes "ping client: empty bearer token")
    else ok
        (record { base_url = cli.base_url; skip_tls_verify = cli.skip_tls_verify; token = token })

unfoldable pub new_ping_client :
    ⦃u : Unicode⦄ → (Text → Result Url) → Text → Bool → Text → Result PingClient
unfolding ping_client_of
new_ping_client parse base skip bearer_token =
    ping_client_of (trim_space bearer_token) (new parse base skip)

abbrev path_agent_ping : Text
path_agent_ping = codes "/api/v1/agent/ping"

abbrev pub no_intents : AgentPingResponse
no_intents = record { site_repository_deploy_intents = []; site_runtime_apply_intents = [] }

-- The two methods of a ping.
pub data Ping : Type 0 where
  get : Ping
  post : AgentPingPostBody → Ping

unfoldable pub method_of : Ping → Text
method_of get = codes "GET"
method_of (post body) = codes "POST"

unfoldable pub content_type_of : Ping → Option Text
content_type_of get = none
content_type_of (post body) = some (codes "application/json")

unfoldable pub decode_ping : Result AgentPingResponse → Result AgentPingResponse
decode_ping (ok r) = ok r
decode_ping (err e) = err (codes "decode ping response: " ++ e)

module _ (http : Http) (json : Json) (p : PingClient) where
  unfoldable pub encode_ping : Ping → Action Wire (Option Text)
  encode_ping get = pure none
  encode_ping (post body) = do raw ← value_of (json.ping_body body); pure (some raw)

  unfoldable pub ping_request : Ping → Option Text → Request
  unfolding method_of content_type_of
  ping_request ping body = record {
    method = method_of ping;
    url = http.resolve p.base_url path_agent_ping;
    authorization = some (bearer p.token);
    node_id = none;
    content_type = content_type_of ping;
    accept = some (codes "application/json");
    body = body;
  }

  unfoldable pub ping_answer : Text → Result AgentPingResponse
  unfolding decode_ping
  ping_answer raw = if is_empty raw then ok no_intents else decode_ping (json.ping_response raw)

  unfoldable pub do_ping : Ping → Action Wire AgentPingResponse
  unfolding encode_ping ping_request ping_answer method_of
  do_ping ping = do
    body ← encode_ping ping
    check (http.bad_request (method_of ping) (http.resolve p.base_url path_agent_ping))
    resp ← exchange http (ping_request ping body)
    check (read_error resp)
    check (
        status_error (method_of ping) (http.redacted p.base_url path_agent_ping) resp.status
          (read_limited resp))
    value_of (ping_answer (read_limited resp))

  unfoldable pub get_ping : Action Wire AgentPingResponse
  unfolding do_ping
  get_ping = do_ping get

  unfoldable pub post_ping : AgentPingPostBody → Action Wire AgentPingResponse
  unfolding do_ping
  post_ping body = do_ping (post body)
