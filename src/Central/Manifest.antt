-- ===== src/Central/Manifest.antt =====
-- internal/central/client.go: what `FetchDesired` returns.
use releasepanel_agent.Base.{
  Bool-cases, leb, ltb, subst, sym, ◌≡◌, ◌≢◌, ◌≤◌, ◌<◌, ◌⊎◌, inl, inr, refl, arith, none, [], ◌∷◌,
}
use releasepanel_agent.Text.{
  Text, codes, byte_length, byte_length-byte_prefix, byte_prefix, byte_prefix-all,
}
use releasepanel_agent.System.{Result, ok, go}
use releasepanel_agent.System.Ensures.{
  Ensures, Ensures-bind, Ensures-pure, Ensures-fact, Ensures-relax, Ensures-go,
}
use releasepanel_agent.Central.{
  Http, Json, Wire, Response, Client, read_limited, read_error, get_request, missing_auth,
  node_path, fetch_desired, or_empty,
}
use releasepanel_agent.Central.Sends.{check-Ensures, AtMostGet, get_raw-Ensures}

missing_auth_lem :
    (http : Http) (json : Json) (c : Client)
    → missing_auth http json c ≡ none
    → (c.node_id ≢ []) × (c.api_key ≢ [])
unfolding missing_auth
missing_auth_lem http json c h = (λ e. ground arith, λ e. ground arith)

-- What is kept of a body: all of it up to 1 MiB, else its first 1048576 bytes.
abbrev pub IsKept : Text → Text → Type 0
IsKept body raw =
    ((byte_length body ≤ 1048576) × (raw ≡ body))
    ⊎ ((1048576 < byte_length body)
        × (raw ≡ byte_prefix 1048576 body)
        × (byte_length raw ≡ 1048576))

-- The answer to the one request, and what the fetch returns of it. That the body broke off is seen
-- only before the limit.
pub record IsManifest (http : Http) (json : Json) (c : Client) (w : Wire) (got : Text × Text)
    (s : Wire) : Type 0 where
  pub response : Response
  pub exchanged :
      s
      ≡ record {
        request =
            get_request c (http.resolve c.base_url (node_path http json c (codes "/desired")));
        response = ok response;
      }
        ∷ w
  pub unbroken : (response.broken ≡ none) ⊎ (1048576 ≤ byte_length response.body)
  pub brings :
      ((response.status ≡ 404) × (got.0 ≡ []))
      ⊎ ((200 ≤ response.status) × (response.status < 300) × IsKept response.body got.0)
  pub fingerprint : got.1 ≡ or_empty (json.fingerprint got.0)

-- A fetch that ended early has sent nothing, or its one request.
abbrev pub Asked : Http → Json → Client → Wire → Wire → Type 0
Asked http json c w s =
    (s ≡ w)
    ⊎ ((c.node_id ≢ [])
        × (c.api_key ≢ [])
        × ((answer : Result Response) × (s
              ≡ record {
                request =
                    get_request c
                      (http.resolve c.base_url (node_path http json c (codes "/desired")));
                response = answer;
              }
                ∷ w)))

module _ (http : Http) (json : Json) (c : Client) (w : Wire) where
  kept_lem : (resp : Response) → IsKept resp.body (read_limited resp)
  unfolding read_limited
  kept_lem resp = elim (Bool-cases (leb (byte_length resp.body) 1048576)) [
    | inl e ↦ inl (ground arith, byte_prefix-all 1048576 resp.body (ground arith))
    | inr e ↦ inr (ground arith, refl, ground (arith, byte_length-byte_prefix 1048576 resp.body))
  ]

  unbroken_lem :
      (resp : Response)
      → read_error resp ≡ none
      → (resp.broken ≡ none) ⊎ (1048576 ≤ byte_length resp.body)
  unfolding read_error
  unbroken_lem resp h = elim (Bool-cases (ltb (byte_length resp.body) 1048576)) [
    | inl e ↦ inl (ground arith)
    | inr e ↦ inr (ground arith)
  ]

  brings_lem :
      (raw : Text) (resp : Response)
      → ((resp.status ≡ 404) × (raw ≡ []))
        ⊎ ((200 ≤ resp.status) × (resp.status < 300) × (raw ≡ read_limited resp))
      → ((resp.status ≡ 404) × (raw ≡ []))
        ⊎ ((200 ≤ resp.status) × (resp.status < 300) × IsKept resp.body raw)
  brings_lem raw resp (inl h) = inl h
  brings_lem raw resp (inr h) = inr (h.0, h.1, subst (IsKept resp.body) (sym h.2) (kept_lem resp))

  pub fetch_desired-Ensures :
      Ensures
        (λ s. s ≡ w)
        (fetch_desired http json c)
        (λ got s. IsManifest http json c w got s × (c.node_id ≢ []) × (c.api_key ≢ []))
        (λ e s. Asked http json c w s)
  unfolding fetch_desired
  fetch_desired-Ensures =
      Ensures-bind (check-Ensures (missing_auth http json c) (λ t q s p. inl p)) λ _.
        Ensures-fact λ given.
          Ensures-bind
            (Ensures-relax
              (get_raw-Ensures http json c (node_path http json c (codes "/desired")) w)
              (λ e s p. asked (missing_auth_lem http json c given) s p))
            λ raw. Ensures-pure _ (λ s f. (
              record {
                response = f.response;
                exchanged = f.exchanged;
                unbroken = unbroken_lem f.response f.whole;
                brings = brings_lem raw f.response f.brings;
                fingerprint = refl;
              },
              (missing_auth_lem http json c given).0,
              (missing_auth_lem http json c given).1,
            ))
    where
      asked :
          (c.node_id ≢ []) × (c.api_key ≢ [])
          → (s : Wire) → AtMostGet http json c (node_path http json c (codes "/desired")) w s
          → Asked http json c w s
      asked g s (inl e) = inl e
      asked g s (inr a) = inr (g.0, g.1, a)

-- A fetch that succeeds sent one request for the manifest of the node, which Central answered: with
-- 404, and then there is no manifest, or with a status from 200 to 299, and then the manifest is the
-- body, of which only the first 1048576 bytes are kept if it is longer; the fingerprint is the one
-- that the manifest names. The body had not broken off before 1048576 bytes.
pub fetch_desired-IsManifest :
    (http : Http) (json : Json) (c : Client) (w : Wire) (got : Text × Text)
    → (fetch_desired http json c w).0 ≡ go got
    → IsManifest http json c w got (fetch_desired http json c w).1
fetch_desired-IsManifest http json c w got h =
    (Ensures-go (fetch_desired-Ensures http json c w) w got refl h).0
