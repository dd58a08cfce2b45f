-- ===== src/Central/Outcomes.antt =====
-- What each operation of the client sends, and what its result says of Central's answer.
use releasepanel_agent.Base.{
  ◌≡◌, ◌≢◌, ◌≤◌, ◌<◌, ◌⊎◌, ◌↔◌, inl, inr, refl, arith, ap, sym, ◌∙◌, length, true, none, some, [],
  ◌∷◌,
}
use releasepanel_agent.Text.{Text, codes}
use releasepanel_agent.System.{Result, ok, Exit, go, Action}
use releasepanel_agent.System.Ensures.{Ensures-either}
use releasepanel_agent.Api.{InventoryReport, HealthReport, HeartbeatReport, ConvergenceReport}
use releasepanel_agent.Central.{
  Http, Json, Wire, Exchange, Request, Response, Client, bearer, unless_empty, post_request,
  missing_key, decode_into, post_report, node_path, post_inventory, post_health, post_heartbeat,
  post_convergence,
}
use releasepanel_agent.Central.Sends.{
  Delivered, NotDelivered, unsent, refused, unreadable, post_json-Ensures,
}

-- A report that a node posts.
pub data Report : Type 0 where
  inventory : InventoryReport → Report
  health : HealthReport → Report
  heartbeat : HeartbeatReport → Report
  convergence : ConvergenceReport → Report

-- Where it goes, and its text.
abbrev segment : Report → Text
segment (inventory r) = codes "/reports/inventory"
segment (health r) = codes "/reports/health"
segment (heartbeat r) = codes "/heartbeat"
segment (convergence r) = codes "/reports/convergence"

abbrev pub encoding : Json → Report → Result Text
encoding json (inventory r) = json.inventory r
encoding json (health r) = json.health r
encoding json (heartbeat r) = json.heartbeat r
encoding json (convergence r) = json.convergence r

-- The operation that posts it.
abbrev pub post : Http → Json → Client → Report → Action Wire (Unit {0})
post http json c (inventory r) = post_inventory http json c r
post http json c (health r) = post_health http json c r
post http json c (heartbeat r) = post_heartbeat http json c r
post http json c (convergence r) = post_convergence http json c r

post-post_report :
    (http : Http) (json : Json) (c : Client) (r : Report)
    → post http json c r ≡ post_report http json c (segment r) (encoding json r)
unfolding post_inventory post_health post_heartbeat post_convergence
post-post_report http json c (inventory r) = refl
post-post_report http json c (health r) = refl
post-post_report http json c (heartbeat r) = refl
post-post_report http json c (convergence r) = refl

-- A report as Central gets it: under the node's path, with its key and its id.
abbrev report_request : Http → Json → Client → Report → Text → Request
report_request http json c r buf = record {
  method = codes "POST";
  url = http.resolve c.base_url (node_path http json c (segment r));
  authorization = some (bearer c.api_key);
  node_id = unless_empty c.node_id;
  content_type = some (codes "application/json");
  accept = none;
  body = some buf;
}

-- The report was sent as this request, and Central answered with a status from 200 to 299.
pub record IsPosted (http : Http) (json : Json) (c : Client) (r : Report) (w s : Wire)
    : Type 0 where
  pub buf : Text
  pub response : Response
  pub has_key : c.api_key ≢ []
  pub encoded : encoding json r ≡ ok buf
  pub exchanged :
      s ≡ record { request = report_request http json c r buf; response = ok response } ∷ w
  pub accepted : (200 ≤ response.status) × (response.status < 300)

missing_key_lem : (c : Client) → missing_key c true ≡ none → c.api_key ≢ []
unfolding missing_key
missing_key_lem c h k = ground arith

ne-cons : (x : Exchange) (w : Wire) → w ≢ x ∷ w
ne-cons x w h = omega (arith, ap length h)

-- What was sent in a report that did not arrive.
abbrev pub Reported : Http → Json → Client → Report → Wire → Wire → Type 0
Reported http json c r w s =
    (s ≡ w)
    ⊎ ((c.api_key ≢ [])
        × ((buf : Text) × (answer : Result Response) × (s
              ≡ record { request = report_request http json c r buf; response = answer } ∷ w)))

module _ (http : Http) (json : Json) (c : Client) (r : Report) (w : Wire) where
  Delivered-IsPosted :
      (s : Wire) {a : Unit {0}}
      → Delivered http c (node_path http json c (segment r)) (encoding json r) none tt true w a s
      → IsPosted http json c r w s
  unfolding post_request
  Delivered-IsPosted s d = record {
    buf = d.buf;
    response = d.response;
    has_key = missing_key_lem c d.key_given;
    encoded = d.encoded;
    exchanged = d.exchanged;
    accepted = d.accepted;
  }

  NotDelivered-IsPosted :
      (s : Wire)
      → NotDelivered http c (node_path http json c (segment r)) (encoding json r) none tt true w s
      → ¬ IsPosted http json c r w s
  unfolding decode_into
  NotDelivered-IsPosted s (unsent e) p = ne-cons _ w (sym e ∙ p.exchanged)
  NotDelivered-IsPosted s (refused buf answer key e n) p =
      n (p.response, ground (arith, p.exchanged), p.accepted.0, p.accepted.1)
  NotDelivered-IsPosted s (unreadable buf resp x key e d) p = ground arith

  NotDelivered-Reported :
      (s : Wire)
      → NotDelivered http c (node_path http json c (segment r)) (encoding json r) none tt true w s
      → Reported http json c r w s
  unfolding post_request
  NotDelivered-Reported s (unsent e) = inl e
  NotDelivered-Reported s (refused buf answer key e n) =
      inr (missing_key_lem c key, (buf, answer, e))
  NotDelivered-Reported s (unreadable buf resp x key e d) =
      inr (missing_key_lem c key, (buf, ok resp, e))

  abbrev pub Facts : Exit (Unit {0}) → Wire → Type 0
  Facts x s = ((x ≡ go tt) ↔ IsPosted http json c r w s) × Reported http json c r w s

  post_report_lem :
      Facts
        (post_report http json c (segment r) (encoding json r) w).0
        (post_report http json c (segment r) (encoding json r) w).1
  unfolding post_report
  post_report_lem =
      Ensures-either
        (post_json-Ensures http c (node_path http json c (segment r)) (encoding json r) none tt true
          w json)
        w refl
        (λ a e d.
          let p = Delivered-IsPosted _ d in
          (((λ q. p), (λ q. ground arith)), inr (p.has_key, (p.buf, ok p.response, p.exchanged))))
        (λ e q n. (
          ((λ k. ground arith), (λ p. absurd (NotDelivered-IsPosted _ n p))),
          NotDelivered-Reported _ n,
        ))

  pub post_lem : Facts (post http json c r w).0 (post http json c r w).1
  post_lem = rw (post-post_report http json c r) post_report_lem

-- A report is posted without an error exactly when it was sent, under the node's path and with its
-- key, and Central answered with a status from 200 to 299.
pub post_iff :
    (http : Http) (json : Json) (c : Client) (r : Report) (w : Wire)
    → ((post http json c r w).0 ≡ go tt) ↔ IsPosted http json c r w (post http json c r w).1
post_iff http json c r w = (post_lem http json c r w).0
