-- ===== src/Agent/Reported.antt =====
-- What the reporters of cmd/agent/main.go tell the executors, and what they keep.
use releasepanel_agent.Base.{
  ◌≡◌, ◌⊎◌, refl, arith, Bool, true, false, Bool-cases, Option, none, some, [], ◌∷◌, inl, inr,
  if◌then◌else◌, ap, subst, ◌∙◌, sym,
}
use releasepanel_agent.Text.{Text, codes, text_eq, text_eq_iff, Unicode}
use releasepanel_agent.System.{Os, M, Result, ok, err, go, stop, Action}
use releasepanel_agent.System.Ensures.{
  Ensures, Ensures-bind, Ensures-pure, Ensures-if, Ensures-fact, Ensures-either,
}
use releasepanel_agent.Api.{SiteRuntimeReportRow, SiteRuntimeApplyIntent, AgentPingResponse}
use releasepanel_agent.Central.{Http, Json, Wire}
use releasepanel_agent.Central.Ping.{PingClient, Ping, post, post_ping}
use releasepanel_agent.Central.Pings.{IsAnswered, IsFailed, do_ping-Ensures}
use releasepanel_agent.Enroll.{answer_of, on_wire}
use releasepanel_agent.Logs.{printf}
use releasepanel_agent.State.{site_tls_echo, write_json_atomic}
use releasepanel_agent.Agent.Loop.{
  Loop, TlsEcho, lookup, insert, files, central, echo, set_echo, print,
}
use releasepanel_agent.Agent.Receipts.{
  Sender, ping_body, save_tls_echo_map, print_if, keep_tls, print_when, tell_deploy, tell_runtime,
  posted, report_row,
}

lookup-insert :
    (k j v : Text) (m : TlsEcho) → lookup k (insert j v m) ≡ (if text_eq j k then v else lookup k m)
unfolding lookup insert
lookup-insert k j v [] = refl
lookup-insert k j v ((i, w) ∷ m) = elim (Bool-cases (text_eq i j)) [
  | inl e ↦ ground (arith, text_eq_iff i j, lookup-insert k j v m)
  | inr e ↦ ground (arith, text_eq_iff i j, text_eq_iff i k, text_eq_iff j k, lookup-insert k j v m)
]

-- A run of the loop that never returns early.
abbrev pub Runs : {A : Type 0} → (Loop → Type 0) → Action Loop A → (A → Loop → Type 0) → Type 0
Runs P m Q = Ensures P m Q (λ e l. ⊥)

-- Writing files keeps what is known of Central and of the TLS states.
module _ (m : TlsEcho) (w : Wire) where
  abbrev Has : Loop → Type 0
  Has l = (l.tls_echo ≡ m) × (l.machine.wire ≡ w)

  files-Runs : {A : Type 0} (f : M A) → Runs Has (files f) (λ _. Has)
  unfolding files
  files-Runs f = record { at = λ l h. h }

  module _ (os : Os) (log_dir state_dir : Text) (encode_echo : TlsEcho → Result Text) where
    print-Runs : (msg : Text) → Runs Has (print os log_dir msg) (λ _. Has)
    unfolding print
    print-Runs msg =
        Ensures-bind (files-Runs (printf os log_dir msg)) λ _. Ensures-pure tt (λ l h. h)

    print_if-Runs :
        (what : Text) (e : Option Text)
        → Runs Has (print_if os log_dir state_dir encode_echo what e) (λ _. Has)
    unfolding print_if
    print_if-Runs what none = Ensures-pure tt (λ l h. h)
    print_if-Runs what (some e) = print-Runs _

    print_when-Runs :
        (b : Bool) (msg : Text)
        → Runs Has (print_when os log_dir state_dir encode_echo b msg) (λ _. Has)
    unfolding print_when
    print_when-Runs true msg = print-Runs msg
    print_when-Runs false msg = Ensures-pure tt (λ l h. h)

    tell_deploy-Runs :
        (row : SiteRuntimeReportRow)
        → Runs Has (tell_deploy os log_dir state_dir encode_echo row) (λ _. Has)
    unfolding tell_deploy
    tell_deploy-Runs row = Ensures-bind (print_when-Runs _ _) λ _. print_when-Runs _ _

    tell_runtime-Runs :
        ⦃u : Unicode⦄ (intent : SiteRuntimeApplyIntent) (row : SiteRuntimeReportRow)
        → Runs Has (tell_runtime os log_dir state_dir encode_echo intent row) (λ _. Has)
    unfolding tell_runtime
    tell_runtime-Runs intent row =
        Ensures-if (text_eq row.runtime_apply_state (codes "applied")) (λ h. print-Runs _)
          (λ h.
            (Ensures-if (text_eq row.runtime_apply_state (codes "reload_applied"))
              (λ k. print-Runs _)
              (λ k.
                Ensures-if (text_eq row.runtime_apply_state (codes "failed")) (λ n. print-Runs _)
                  (λ n. Ensures-pure tt (λ l q. q)))))

module _ (os : Os) (log_dir state_dir : Text) (encode_echo : TlsEcho → Result Text) where
  keep_tls-Runs :
      (m : TlsEcho) (w : Wire) (row : SiteRuntimeReportRow)
      → Runs
          (Has m w)
          (keep_tls os log_dir state_dir encode_echo row)
          (λ _. Has (insert row.site_ulid row.tls_state m) w)
  unfolding keep_tls echo set_echo save_tls_echo_map
  keep_tls-Runs m w row =
      Ensures-bind {Q = λ n l. Has m w l × (n ≡ m)} (record { at = λ l h. (h, h.0) })
        λ n. Ensures-fact λ e. rw e (
          Ensures-bind {Q = λ _. Has (insert row.site_ulid row.tls_state m) w}
            (record { at = λ l h. (refl, h.1) })
            λ _.
              Ensures-bind
                (files-Runs _ w (
                  write_json_atomic os (site_tls_echo state_dir)
                    (encode_echo (insert row.site_ulid row.tls_state m)) 0o600))
                λ saved.
                  print_if-Runs _ w os log_dir state_dir encode_echo
                    (codes "persist site_tls_echo: ") saved)

  module _ (http : Http) (json : Json) (p : PingClient) (me : Sender) (row : SiteRuntimeReportRow)
      (l : Loop) where
    abbrev receipt : Ping
    receipt = post (ping_body me (row ∷ []) [])

    -- Central's answer to the receipt was decoded, and its TLS state is the one that goes with the site.
    pub record IsKept (r : AgentPingResponse) (v : Loop) : Type 0 where
      pub answered : IsAnswered http json p receipt l.machine.wire r v.machine.wire
      pub echoed :
          (k : Text)
          → lookup k v.tls_echo
            ≡ (if text_eq row.site_ulid k then row.tls_state else lookup k l.tls_echo)

    pub record IsRefused (v : Loop) : Type 0 where
      pub failure : IsFailed http json p receipt l.machine.wire v.machine.wire
      pub same_echo : v.tls_echo ≡ l.tls_echo
      pub same_files : v.machine.sys ≡ l.machine.sys

    abbrev pub IsReported : Option Text → Loop → Type 0
    IsReported e v =
        ((r : AgentPingResponse) × (e ≡ none) × IsKept r v)
        ⊎ ((t : Text) × (e ≡ some t) × IsRefused v)

    abbrev Answers : Result AgentPingResponse → Loop → Type 0
    Answers a v =
        ((r : AgentPingResponse) × (a ≡ ok r)
          × IsAnswered http json p receipt l.machine.wire r v.machine.wire
          × (v.tls_echo ≡ l.tls_echo))
        ⊎ ((t : Text) × (a ≡ err t) × IsRefused v)

    err_of : (x : Option Text) → (t : Text) × (answer_of {A = AgentPingResponse} (stop x) ≡ err t)
    unfolding answer_of
    err_of none = ([], refl)
    err_of (some t) = (t, refl)

    central-Runs :
        Runs (λ v. v ≡ l) (central (post_ping http json p (ping_body me (row ∷ []) []))) Answers
    unfolding central on_wire post_ping
    central-Runs = record {
      at = λ v q. rw q (
          Ensures-either (do_ping-Ensures http json p receipt l.machine.wire) l.machine.wire refl
            (λ r e h. inl (r, ap answer_of e, h, refl))
            (λ x e h. inr (
              (err_of x).0,
              ap answer_of e ∙ (err_of x).1,
              record { failure = h; same_echo = refl; same_files = refl },
            )));
    }

    module _ (tell : SiteRuntimeReportRow → Action Loop (Unit {0}))
        (quiet : (m : TlsEcho) (w : Wire) → Runs (Has m w) (tell row) (λ _. Has m w)) where
      posted-Runs :
          (a : Result AgentPingResponse)
          → Runs
              (Answers a)
              (posted os log_dir state_dir encode_echo http json p me tell row a)
              IsReported
      unfolding posted
      posted-Runs (err t) = Ensures-pure (some t) (λ v h. refused t v h)
        where
          refused : (t : Text) (v : Loop) → Answers (err t) v → IsReported (some t) v
          refused t v (inl (r, e, h, n)) = ground arith
          refused t v (inr (x, e, h)) = inr (x, ground arith, h)
      posted-Runs (ok r) = record {
        at = λ v h. (kept v (answered v h).0).at v ((answered v h).1, refl);
      }
        where
          answered :
              (v : Loop)
              → Answers (ok r) v
              → IsAnswered http json p receipt l.machine.wire r v.machine.wire
                × (v.tls_echo ≡ l.tls_echo)
          answered v (inl (q, e, h, n)) = (
            subst (λ x. IsAnswered http json p receipt l.machine.wire x v.machine.wire)
                (ground arith) h,
            n,
          )
          answered v (inr (x, e, h)) = ground arith

          kept :
              (v : Loop)
              → IsAnswered http json p receipt l.machine.wire r v.machine.wire
              → Runs
                  (Has l.tls_echo v.machine.wire)
                  (posted os log_dir state_dir encode_echo http json p me tell row (ok r))
                  IsReported
          kept v a = Ensures-bind (keep_tls-Runs l.tls_echo v.machine.wire row) λ _.
              Ensures-bind (quiet _ v.machine.wire) λ _. Ensures-pure none (λ x h. inl (
                r,
                refl,
                record {
                  answered = subst (IsAnswered http json p receipt l.machine.wire r) (sym h.1) a;
                  echoed = λ k.
                      ap (lookup k) h.0 ∙ lookup-insert k row.site_ulid row.tls_state l.tls_echo;
                },
              ))

      report_row-Runs :
          Runs
            (λ v. v ≡ l)
            (report_row os log_dir state_dir encode_echo http json p me tell row)
            IsReported
      unfolding report_row
      report_row-Runs = Ensures-bind central-Runs posted-Runs

-- A reporter that the loop hands to an executor, for deployments or for convergences, either returns
-- nil or an error. With nil, the receipt was sent, Central's answer came whole up to the read limit,
-- with a status from 200 to 299, and could be decoded; then the site's TLS state is that of the row
-- and no other site's has changed. With an error one of this failed: the receipt was not sent, or
-- got no answer, another status, or an answer that broke off or could not be decoded; at most one
-- request was sent, and neither the TLS states nor any file has changed.
pub report_row-IsReported :
    ⦃u : Unicode⦄ (os : Os) (log_dir state_dir : Text) (encode_echo : TlsEcho → Result Text)
    (http : Http) (json : Json) (p : PingClient) (me : Sender) (intent : SiteRuntimeApplyIntent)
    (row : SiteRuntimeReportRow) (l : Loop)
    → let report = report_row os log_dir state_dir encode_echo http json p me in
      let deployed = report (tell_deploy os log_dir state_dir encode_echo) row l in
      let converged = report (tell_runtime os log_dir state_dir encode_echo intent) row l in
      let kept = IsReported os log_dir state_dir encode_echo http json p me row l in
      ((e : Option Text) × (deployed.0 ≡ go e) × kept e deployed.1)
      × ((e : Option Text) × (converged.0 ≡ go e) × kept e converged.1)
report_row-IsReported os log_dir state_dir encode_echo http json p me intent row l = (
  Ensures-either
      (report_row-Runs os log_dir state_dir encode_echo http json p me row l _
        (λ m w. tell_deploy-Runs m w os log_dir state_dir encode_echo row))
      l refl (λ e q h. (e, q, h)) (λ e q h. absurd h),
  Ensures-either
      (report_row-Runs os log_dir state_dir encode_echo http json p me row l _
        (λ m w. tell_runtime-Runs m w os log_dir state_dir encode_echo intent row))
      l refl (λ e q h. (e, q, h)) (λ e q h. absurd h),
)
