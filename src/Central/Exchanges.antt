-- ===== src/Central/Exchanges.antt =====
-- The requests of internal/central and the answers to them. `Http` stands for net/http, net/url
-- and the network: it answers each request as it likes, from the exchanges before it.
use releasepanel_agent.Base.{
  ℕ, Bool, ◌||◌, Option, none, some, List, ◌∷◌, ◌++◌, ltb, leb, not, if◌then◌else◌,
}
use releasepanel_agent.Text.{Text, codes, byte_length, byte_prefix, trim_space, decimal}
use releasepanel_agent.System.{Result, ok, err, go, Action, pure, leave, ◌>>=◌}
use releasepanel_agent.Config.Origin.{Url}

-- A request with the headers that the clients set.
pub record Request : Type 0 where
  pub method : Text
  pub url : Text
  pub authorization : Option Text
  pub node_id : Option Text
  pub content_type : Option Text
  pub accept : Option Text
  pub body : Option Text

-- A response, whose body may break off with an error.
pub record Response : Type 0 where
  pub status : ℕ
  pub body : Text
  pub broken : Option Text

pub record Exchange : Type 0 where
  pub request : Request
  pub response : Result Response

-- What has been sent, the newest first.
abbrev pub Wire : Type 0
Wire = List Exchange

pub record Http : Type 0 where
  pub respond : Wire → Request → Result Response
  -- The error of `http.NewRequestWithContext`.
  pub bad_request : Text → Text → Option Text
  -- `ResolveReference` of a path, as a text, and its `Redacted` form.
  pub resolve : Url → Text → Text
  pub redacted : Url → Text → Text
  pub path_escape : Text → Text

-- A value, or a return with its error.
unfoldable pub value_of : {A : Type 0} → Result A → Action Wire A
value_of (ok a) = pure a
value_of (err e) = leave (some e)

-- `io.LimitReader(resp.Body, 1<<20)`.
abbrev pub body_limit : ℕ
body_limit = 1048576

unfoldable pub read_limited : Response → Text
read_limited r = byte_prefix body_limit r.body

-- The error of `io.ReadAll`: what comes behind the limit is not read.
unfoldable pub read_error : Response → Option Text
read_error r = if ltb (byte_length r.body) body_limit then r.broken else none

unfoldable pub is_success : ℕ → Bool
is_success status = not (ltb status 200 || leb 300 status)

unfoldable pub status_error : Text → Text → ℕ → Text → Option Text
unfolding is_success
status_error method url status raw =
    if is_success status
    then none
    else some (
        codes "central "
        ++ (method
            ++ (codes " "
                ++ (url
                    ++ (codes ": status="
                        ++ (decimal status ++ (codes " body=" ++ trim_space raw)))))))

module _ (http : Http) where
  -- `http.Client.Do`.
  unfoldable pub send : Request → Action Wire (Result Response)
  send req w = let r = http.respond w req in (go r, record { request = req; response = r } ∷ w)

  unfoldable pub exchange : Request → Action Wire Response
  unfolding send value_of
  exchange req = do r ← send req; value_of r
