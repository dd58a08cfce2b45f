-- ===== src/Central/Pings.antt =====
-- What the ping client of internal/central/ping.go sends, and what its answer rests on.
use releasepanel_agent.Base.{ℕ, ◌≡◌, ◌≤◌, ◌<◌, ◌⊎◌, refl, arith, Option, none, some, ◌∷◌}
use releasepanel_agent.Text.{Text}
use releasepanel_agent.System.{Result, ok, err}
use releasepanel_agent.System.Ensures.{
  Ensures, Ensures-bind, Ensures-pure, Ensures-fact, Ensures-weaken,
}
use releasepanel_agent.Api.{AgentPingResponse}
use releasepanel_agent.Central.{
  Http, Json, Wire, status_error, is_success, Request, Response, read_limited, read_error, bearer,
}
use releasepanel_agent.Central.Sends.{
  check-Ensures, value_of-Ensures, exchange-Ensures, status_error_lem,
}
use releasepanel_agent.Central.Ping.{
  PingClient, Ping, get, post, encode_ping, ping_request, ping_answer, do_ping,
}

encode_ping-Ensures :
    (http : Http) (json : Json) (p : PingClient) (ping : Ping) (w : Wire)
    {R : Option Text → Wire → Type 0}
    → ((t : Text) (s : Wire) → s ≡ w → R (some t) s)
    → Ensures (λ s. s ≡ w) (encode_ping http json p ping) (λ _ s. s ≡ w) R
unfolding encode_ping
encode_ping-Ensures http json p get w k = Ensures-pure none (λ s e. e)
encode_ping-Ensures http json p (post body) w k =
    Ensures-bind (value_of-Ensures (json.ping_body body) (λ t q s e. k t s e))
      λ raw. Ensures-pure (some raw) (λ s e. e.0)

module _ (http : Http) (json : Json) (p : PingClient) (ping : Ping) (w : Wire) where
  -- Central took the ping, and the intents are those of its answer.
  pub record IsAnswered (r : AgentPingResponse) (s : Wire) : Type 0 where
    pub body : Option Text
    pub response : Response
    pub exchanged :
        s ≡ record { request = ping_request http json p ping body; response = ok response } ∷ w
    pub accepted : (200 ≤ response.status) × (response.status < 300)
    pub whole : read_error response ≡ none
    pub decoded : ping_answer http json p (read_limited response) ≡ ok r

  abbrev pub AtMostPing : Wire → Type 0
  AtMostPing s =
      (s ≡ w)
      ⊎ ((body : Option Text) × (answer : Result Response) × (s
            ≡ record { request = ping_request http json p ping body; response = answer } ∷ w))

  -- How a ping fails: it was not sent, or got no answer, one that broke off, one of
  -- another status, or one that could not be decoded.
  pub data IsFailed (s : Wire) : Type 0 where
    unsent : s ≡ w → IsFailed s
    unanswered :
        (body : Option Text) (e : Text)
        → s ≡ record { request = ping_request http json p ping body; response = err e } ∷ w
        → IsFailed s
    broke_off :
        (body : Option Text) (resp : Response) (e : Text)
        → s ≡ record { request = ping_request http json p ping body; response = ok resp } ∷ w
        → read_error resp ≡ some e
        → IsFailed s
    refused :
        (body : Option Text) (resp : Response)
        → s ≡ record { request = ping_request http json p ping body; response = ok resp } ∷ w
        → ¬ ((200 ≤ resp.status) × (resp.status < 300))
        → IsFailed s
    undecodable :
        (body : Option Text) (resp : Response) (e : Text)
        → s ≡ record { request = ping_request http json p ping body; response = ok resp } ∷ w
        → ping_answer http json p (read_limited resp) ≡ err e
        → IsFailed s

  refused_lem :
      (method url raw : Text) (status : ℕ) {t : Text}
      → status_error method url status raw ≡ some t
      → ¬ ((200 ≤ status) × (status < 300))
  unfolding status_error is_success
  refused_lem method url raw status h (lo, hi) = ground arith

  pub do_ping-Ensures :
      Ensures (λ s. s ≡ w) (do_ping http json p ping) IsAnswered (λ e s. IsFailed s)
  unfolding do_ping
  do_ping-Ensures =
      Ensures-bind (encode_ping-Ensures http json p ping w (λ t s e. unsent e)) λ body.
        Ensures-bind (check-Ensures _ (λ t q s e. unsent e)) λ _. Ensures-fact λ _.
          Ensures-bind
            (exchange-Ensures http (ping_request http json p ping body) w
              (λ e. unanswered body e refl))
            λ resp.
              Ensures-bind (check-Ensures (read_error resp) (λ t q s e. broke_off body resp t e q))
                λ _. Ensures-fact λ whole.
                  Ensures-bind
                    (check-Ensures _ (λ t q s e. refused body resp e (refused_lem _ _ _ _ q)))
                    λ _. Ensures-fact λ taken.
                      Ensures-weaken
                        (value_of-Ensures (ping_answer http json p (read_limited resp))
                          (λ t q s e. undecodable body resp t e q))
                        (λ r s e. record {
                          body = body;
                          response = resp;
                          exchanged = e.0;
                          accepted = status_error_lem _ _ _ _ taken;
                          whole = whole;
                          decoded = e.1;
                        })

-- A request with the token alone.
abbrev pub IsBearerOnly : PingClient → Request → Type 0
IsBearerOnly p q = (q.authorization ≡ some (bearer p.token)) × (q.node_id ≡ none)
