-- ===== src/Central/Calls.antt =====
-- internal/central/client.go: what each call sends.
use releasepanel_agent.Central.Outcomes.{Report, post, Reported, post_lem}
use releasepanel_agent.Central.Manifest.{Asked, fetch_desired-Ensures}
use releasepanel_agent.Base.{◌≡◌, ◌≢◌, ◌⊎◌, inl, inr, refl, false, none, some, [], ◌∷◌}
use releasepanel_agent.Text.{codes}
use releasepanel_agent.System.Ensures.{Ensures-either}
use releasepanel_agent.Api.{EnrollRequest}
use releasepanel_agent.Central.{
  Http, Json, Wire, Exchange, Request, Client, bearer, unless_empty, post_request, get_request,
  fetch_desired, enroll, no_response,
}
use releasepanel_agent.Central.Sends.{NotDelivered, unsent, refused, unreadable, post_json-Ensures}

-- The calls of the client.
pub data Call : Type 0 where
  enrolls : EnrollRequest → Call
  reports : Report → Call
  fetches : Call

abbrev pub after : Http → Json → Client → Call → Wire → Wire
after http json c (enrolls req) w = (enroll http json c req w).1
after http json c (reports r) w = (post http json c r w).1
after http json c fetches w = (fetch_desired http json c w).1

-- The credentials of a request: none to enroll, else the key and the id of the node, and a key that
-- is not empty.
abbrev HasCredentials : Client → Call → Request → Type 0
HasCredentials c (enrolls req) q = (q.authorization ≡ none) × (q.node_id ≡ none)
HasCredentials c (reports r) q =
    (c.api_key ≢ [])
    × (q.authorization ≡ some (bearer c.api_key))
    × (q.node_id ≡ unless_empty c.node_id)
HasCredentials c fetches q =
    (c.api_key ≢ [])
    × (c.node_id ≢ [])
    × (q.authorization ≡ some (bearer c.api_key))
    × (q.node_id ≡ some c.node_id)

abbrev pub SendsAtMostOne : Client → Call → Wire → Wire → Type 0
SendsAtMostOne c call w s =
    (s ≡ w) ⊎ ((x : Exchange) × (s ≡ x ∷ w) × HasCredentials c call x.request)

-- Each call of the client sends at most one request. A request to enroll carries no credentials;
-- any other carries the node's key, which is then not empty, and its id.
pub after-SendsAtMostOne :
    (http : Http) (json : Json) (c : Client) (call : Call) (w : Wire)
    → SendsAtMostOne c call w (after http json c call w)
unfolding enroll post_request get_request
after-SendsAtMostOne http json c (enrolls req) w =
    Ensures-either
      (post_json-Ensures http c (codes "/api/v1/nodes/enroll") (json.enroll_request req)
        (some json.enroll_response) no_response false w json)
      w refl (λ a e d. inr (_, d.exchanged, (refl, refl))) (λ e q n. enrolled _ n)
  where
    enrolled :
        (s : Wire)
        → NotDelivered http c
            (codes "/api/v1/nodes/enroll")
            (json.enroll_request req)
            (some json.enroll_response)
            no_response
            false
            w
            s
        → SendsAtMostOne c (enrolls req) w s
    enrolled s (unsent e) = inl e
    enrolled s (refused buf answer key e n) = inr (_, e, (refl, refl))
    enrolled s (unreadable buf resp x key e d) = inr (_, e, (refl, refl))
after-SendsAtMostOne http json c (reports r) w = reported (post_lem http json c r w).1
  where
    reported :
        Reported http json c r w (post http json c r w).1
        → SendsAtMostOne c (reports r) w (post http json c r w).1
    reported (inl e) = inl e
    reported (inr (key, (buf, answer, e))) = inr (_, e, (key, refl, refl))
after-SendsAtMostOne http json c fetches w =
    Ensures-either (fetch_desired-Ensures http json c w) w refl
      (λ got e p. inr (_, p.0.exchanged, (p.2, p.1, refl, refl))) (λ e q a. fetched _ a)
  where
    fetched : (s : Wire) → Asked http json c w s → SendsAtMostOne c fetches w s
    fetched s (inl e) = inl e
    fetched s (inr (id, key, (answer, e))) = inr (_, e, (key, id, refl, refl))
