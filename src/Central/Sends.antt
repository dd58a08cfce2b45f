-- ===== src/Central/Sends.antt =====
-- What the client of internal/central/client.go sends, and with which outcome: triples over the
-- exchanges.
use releasepanel_agent.Base.{
  ℕ, ◌≡◌, ◌≤◌, ◌<◌, ◌⊎◌, inl, inr, refl, arith, Bool, Option, none, some, [], ◌∷◌, ◌==◌,
}
use releasepanel_agent.Text.{Text, codes}
use releasepanel_agent.System.{Result, ok, err, check}
use releasepanel_agent.System.Ensures.{
  Ensures, Ensures-bind, Ensures-pure, Ensures-leave, Ensures-fact, Ensures-if, Ensures-weaken,
}
use releasepanel_agent.Central.{
  Http, Json, Wire, Request, Response, Client, value_of, exchange, send, read_limited, read_error,
  status_error, is_success, post_request, get_request, missing_key, decode_into, post_json, raw_of,
  get_raw,
}

-- Central took the request.
abbrev pub IsAccepted : Result Response → Type 0
IsAccepted r = (resp : Response) × (r ≡ ok resp) × (200 ≤ resp.status) × (resp.status < 300)

-- What is returned early holds in the state where it is.
module _ {A : Type 0} {P : Wire → Type 0} {R : Option Text → Wire → Type 0} where
  pub value_of-Ensures :
      (r : Result A)
      → ((e : Text) → r ≡ err e → (s : Wire) → P s → R (some e) s)
      → Ensures P (value_of r) (λ a s. P s × (r ≡ ok a)) R
  unfolding value_of
  value_of-Ensures (ok a) k = Ensures-pure a (λ s p. (p, refl))
  value_of-Ensures (err e) k = Ensures-leave _ (some e) (k e refl)

module _ {P : Wire → Type 0} {R : Option Text → Wire → Type 0} where
  pub check-Ensures :
      (e : Option Text)
      → ((t : Text) → e ≡ some t → (s : Wire) → P s → R (some t) s)
      → Ensures P (check e) (λ a s. P s × (e ≡ none)) R
  unfolding check
  check-Ensures none k = Ensures-pure tt (λ s p. (p, refl))
  check-Ensures (some t) k = Ensures-leave _ (some t) (k t refl)

module _ (http : Http) {R : Option Text → Wire → Type 0} where
  answered-Ensures :
      (req : Request) (w : Wire) (r : Result Response)
      → ((e : Text) → R (some e) (record { request = req; response = err e } ∷ w))
      → Ensures
          (λ s. s ≡ record { request = req; response = r } ∷ w)
          (value_of r)
          (λ resp s. s ≡ record { request = req; response = ok resp } ∷ w)
          R
  unfolding value_of
  answered-Ensures req w (ok resp) k = Ensures-pure resp (λ s p. p)
  answered-Ensures req w (err e) k = Ensures-leave _ (some e) (λ s p. rw p (k e))

  pub exchange-Ensures :
      (req : Request) (w : Wire)
      → ((e : Text) → R (some e) (record { request = req; response = err e } ∷ w))
      → Ensures
          (λ s. s ≡ w)
          (exchange http req)
          (λ resp s. s ≡ record { request = req; response = ok resp } ∷ w)
          R
  unfolding exchange send
  exchange-Ensures req w k =
      Ensures-bind {Q = λ r s. s ≡ record { request = req; response = r } ∷ w}
        (record { at = λ s p. rw p refl }) (λ r. answered-Ensures req w r k)

pub status_error_lem :
    (method url : Text) (status : ℕ) (raw : Text)
    → status_error method url status raw ≡ none
    → (200 ≤ status) × (status < 300)
unfolding status_error is_success
status_error_lem method url status raw h = ground arith

not-IsAccepted :
    (method url raw : Text) (resp : Response) {t : Text}
    → status_error method url resp.status raw ≡ some t
    → ¬ IsAccepted (ok resp)
unfolding status_error is_success
not-IsAccepted method url raw resp h (taken, e, lo, hi) = ground arith

module _ (http : Http) (c : Client) {A : Type 0} (path : Text) (body : Result Text)
    (decode : Option (Text → Result A)) (zero : A) (auth : Bool) (w : Wire) where
  abbrev request_with : Text → Request
  request_with buf = post_request c (http.resolve c.base_url path) buf auth

  -- The request was sent and taken, and its answer was decoded.
  pub record Delivered (a : A) (s : Wire) : Type 0 where
    pub buf : Text
    pub response : Response
    pub encoded : body ≡ ok buf
    pub key_given : missing_key c auth ≡ none
    pub exchanged : s ≡ record { request = request_with buf; response = ok response } ∷ w
    pub accepted : (200 ≤ response.status) × (response.status < 300)
    pub decoded : decode_into decode zero (read_limited response) ≡ ok a

  -- Nothing was sent, or Central did not take the request, or its answer was not readable.
  pub data NotDelivered (s : Wire) : Type 0 where
    unsent : s ≡ w → NotDelivered s
    refused :
        (buf : Text) (r : Result Response)
        → missing_key c auth ≡ none
        → s ≡ record { request = request_with buf; response = r } ∷ w
        → ¬ IsAccepted r
        → NotDelivered s
    unreadable :
        (buf : Text) (resp : Response) (e : Text)
        → missing_key c auth ≡ none
        → s ≡ record { request = request_with buf; response = ok resp } ∷ w
        → decode_into decode zero (read_limited resp) ≡ err e
        → NotDelivered s

  pub post_json-Ensures :
      (json : Json)
      → Ensures
          (λ s. s ≡ w)
          (post_json http json c path body decode zero auth)
          Delivered
          (λ e s. NotDelivered s)
  unfolding post_json
  post_json-Ensures json = Ensures-bind (value_of-Ensures body (λ e q s p. unsent p)) λ buf.
      Ensures-fact λ encoded.
        Ensures-bind
          (check-Ensures (http.bad_request (codes "POST") (http.resolve c.base_url path))
            (λ e q s p. unsent p))
          λ _. Ensures-fact λ _.
            Ensures-bind (check-Ensures (missing_key c auth) (λ e q s p. unsent p)) λ _.
              Ensures-fact λ given.
                Ensures-bind
                  (exchange-Ensures http (request_with buf) w
                    (λ e. refused buf (err e) given refl (λ a. ground arith)))
                  λ resp.
                    Ensures-bind
                      (check-Ensures
                        (status_error (codes "POST") (http.redacted c.base_url path) resp.status
                          (read_limited resp))
                        (λ t q s p. refused buf (ok resp) given p (not-IsAccepted _ _ _ resp q)))
                      λ _. Ensures-fact λ taken.
                        Ensures-weaken
                          (value_of-Ensures (decode_into decode zero (read_limited resp))
                            (λ e q s p. unreadable buf resp e given p q))
                          (λ a s p. record {
                            buf = buf;
                            response = resp;
                            encoded = encoded;
                            key_given = given;
                            exchanged = p.0;
                            accepted = status_error_lem _ _ _ _ taken;
                            decoded = p.1;
                          })

module _ (http : Http) (json : Json) (c : Client) (path : Text) (w : Wire) where
  abbrev get_from : Request
  get_from = get_request c (http.resolve c.base_url path)

  -- Central's answer to the request is whole, and brings this text: none with 404.
  pub record Fetched (raw : Text) (s : Wire) : Type 0 where
    pub response : Response
    pub exchanged : s ≡ record { request = get_from; response = ok response } ∷ w
    pub whole : read_error response ≡ none
    pub brings :
        ((response.status ≡ 404) × (raw ≡ []))
        ⊎ ((200 ≤ response.status) × (response.status < 300) × (raw ≡ read_limited response))

  -- At most the one request was sent.
  abbrev pub AtMostGet : Wire → Type 0
  AtMostGet s =
      (s ≡ w) ⊎ ((r : Result Response) × (s ≡ record { request = get_from; response = r } ∷ w))

  raw_of-Ensures :
      (resp : Response)
      → read_error resp ≡ none
      → Ensures
          (λ s. s ≡ record { request = get_from; response = ok resp } ∷ w)
          (raw_of http json c path resp)
          Fetched
          (λ e s. AtMostGet s)
  unfolding raw_of
  raw_of-Ensures resp whole =
      Ensures-if (resp.status == 404)
        (λ e. Ensures-pure [] (λ s p. record {
          response = resp;
          exchanged = p;
          whole = whole;
          brings = inl (ground arith, refl);
        }))
        (λ e. Ensures-bind (check-Ensures _ (λ t q s p. inr (ok resp, p))) λ _.
          Ensures-fact λ taken. Ensures-pure (read_limited resp) (λ s p. record {
            response = resp;
            exchanged = p;
            whole = whole;
            brings = let (lo, hi) = status_error_lem _ _ _ _ taken in inr (lo, hi, refl);
          }))

  pub get_raw-Ensures : Ensures (λ s. s ≡ w) (get_raw http json c path) Fetched (λ e s. AtMostGet s)
  unfolding get_raw
  get_raw-Ensures = Ensures-bind (check-Ensures _ (λ t q s p. inl p)) λ _. Ensures-fact λ _.
      Ensures-bind (exchange-Ensures http get_from w (λ e. inr (err e, refl))) λ resp.
        Ensures-bind (check-Ensures (read_error resp) (λ t q s p. inr (ok resp, p)))
          λ _. Ensures-fact λ whole. raw_of-Ensures resp whole
