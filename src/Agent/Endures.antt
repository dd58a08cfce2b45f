-- ===== src/Agent/Endures.antt =====
-- cmd/agent/main.go: rules for the parts of a cycle of `cmdRun`.
pub mod Parts
pub mod Whole
use releasepanel_agent.Base.{
  ◌++◌, ◌≡◌, refl, arith, ap, ℕ, ◌+◌, Bool, true, false, Option, none, some, List, [], ◌∷◌,
  if◌then◌else◌, ◌∙◌,
}
use Prim.Native.Nat.{◌%◌, ◌^◌}
use releasepanel_agent.Text.{Text, codes, text_eq, Unicode}
use releasepanel_agent.System.{
  Os, M, Result, ok, err, Exit, go, stop, Action, pure, ◌>>=◌, ◌>>◌, Reporter, Sys,
}
use releasepanel_agent.System.Ensures.{
  Ensures, Ensures-bind, Ensures-pure, Ensures-if, Ensures-weaken, Ensures-either,
}
use releasepanel_agent.System.Files.{ReadReply, contents, absent, unreadable}
use releasepanel_agent.Api.{
  SiteRuntimeReportRow, SiteRuntimeApplyIntent, SiteRepositoryDeployIntent, AgentPingResponse,
  RuntimeDependencyReportRow, InventoryReport,
}
use releasepanel_agent.Central.{Wire, Client}
use releasepanel_agent.Central.Ping.{PingClient}
use releasepanel_agent.State.{write_json_atomic, site_tls_echo, RuntimeCounters}
use releasepanel_agent.Enroll.{on_wire}
use releasepanel_agent.Logs.{printf}
use releasepanel_agent.Agent.Loop.{
  Loop, TlsEcho, files, central, reading, probing, echo, set_echo, count, note, print, complain,
  complain_if, then_or,
}
use releasepanel_agent.Agent.Receipts.{
  keep_tls, print_if, print_when, tell_deploy, tell_runtime, posted, report_row, save_tls_echo_map,
}
use releasepanel_agent.Agent.Hosted.{hosted, after_receipts, LoopReporter}
use releasepanel_agent.Agent.Dispatch.{
  Setting, git_options, nginx_options, log_dir, deploy_sites, converge_sites, dispatch, tell_probes,
  report_probes, ping_with, with_token, ping_section,
}
use releasepanel_agent.Agent.Cycle.{
  Files, clock, counters, save_counters, print_error, begin, heartbeat, inventory_sent, inventory,
  health_sent, health, reconciling, reconcile_if, finish, cycle,
}
use releasepanel_agent.Agent.Reported.{Runs}
use releasepanel_agent.GitDeploy.Executor
use releasepanel_agent.NginxRuntime.Converge

-- What the parts of a cycle leave alone: the number of the cycle, its time and the agent's start.
abbrev pub Stamp : Type 0
Stamp = ℕ × Text × Text

abbrev pub stamp : RuntimeCounters → Stamp
stamp rt = (rt.loop_count, rt.last_loop_at, rt.started_at)

abbrev pub At : Stamp → Loop → Type 0
At n l = stamp l.rt ≡ n

-- Such a part of the cycle: it goes to its end.
abbrev pub Endures : {A : Type 0} → Action Loop A → Type 0
Endures m = (n : Stamp) → Runs (At n) m (λ _. At n)

pub bind :
    {A B : Type 0} {m : Action Loop A} {f : A → Action Loop B}
    → Endures m
    → ((a : A) → Endures (f a))
    → Endures (m >>= f)
bind h k n = Ensures-bind (h n) λ a. k a n

pub done : {A : Type 0} (a : A) → Endures (pure a)
done a n = Ensures-pure a (λ l h. h)

pub branch :
    {A : Type 0} (b : Bool) {m k : Action Loop A}
    → Endures m
    → Endures k
    → Endures (if b then m else k)
branch b h k n = Ensures-if b (λ _. h n) (λ _. k n)

pub files-Endures : {A : Type 0} (f : M A) → Endures (files f)
unfolding files
files-Endures f n = record { at = λ l h. h }

pub central-Endures : {A : Type 0} (f : Action Wire A) → Endures (central f)
unfolding central on_wire
central-Endures f n = record { at = λ l h. h }

echo-Endures : Endures echo
unfolding echo
echo-Endures n = record { at = λ l h. h }

set_echo-Endures : (m : TlsEcho) → Endures (set_echo m)
unfolding set_echo
set_echo-Endures m n = record { at = λ l h. h }

pub count-Endures :
    (f : RuntimeCounters → RuntimeCounters)
    → ((rt : RuntimeCounters) → stamp (f rt) ≡ stamp rt)
    → Endures (count f)
unfolding count
count-Endures f k n = record { at = λ l h. k l.rt ∙ h }

-- What such a part has left.
kept : {A : Type 0} {m : Action Loop A} → Endures m → (n : Stamp) (l : Loop) → At n l → At n (m l).1
kept {m = m} h n l q = Ensures-either (h n) l q (λ a e x. x) (λ e y x. absurd x)

after_receipts-At :
    (report : LoopReporter)
    → ((row : SiteRuntimeReportRow) → Endures (report row))
    → (n : Stamp) (l : Loop) (rows : List SiteRuntimeReportRow) → At n l
    → At n (after_receipts report l rows)
unfolding after_receipts
after_receipts-At report h n l [] q = q
after_receipts-At report h n l (row ∷ rows) q =
    kept (h row) n (after_receipts report l rows) (after_receipts-At report h n l rows q)

-- An executor changes the counters only through its reporter.
pub hosted-Endures :
    (run : Reporter → Sys → Option Text × Sys) (report : LoopReporter)
    → ((row : SiteRuntimeReportRow) → Endures (report row))
    → Endures (hosted run report)
unfolding hosted
hosted-Endures run report h n = record { at = λ l q. after_receipts-At report h n l _ q }

module _ (os : Os) (dir : Text) where
  pub print-Endures : (msg : Text) → Endures (print os dir msg)
  unfolding print
  print-Endures msg = bind (files-Endures (printf os dir msg)) λ _. done tt

  pub complain-Endures : (what e : Text) → Endures (complain os dir what e)
  unfolding complain note
  complain-Endures what e = bind (count-Endures _ (λ rt. refl)) λ _. print-Endures _

  pub complain_if-Endures : (what : Text) (e : Option Text) → Endures (complain_if os dir what e)
  unfolding complain_if
  complain_if-Endures what none = done tt
  complain_if-Endures what (some e) = complain-Endures what e

  pub then_or-Endures :
      {A : Type 0} (what : Text) (f : A → Action Loop (Unit {0})) (r : Result A)
      → ((a : A) → Endures (f a))
      → Endures (then_or os dir what f r)
  unfolding then_or
  then_or-Endures what f (ok a) k = k a
  then_or-Endures what f (err e) k = complain-Endures what e

module _ ⦃u : Unicode⦄ (st : Setting) where
  abbrev Kept : (SiteRuntimeReportRow → Action Loop (Unit {0})) → Type 0
  Kept tell = (row : SiteRuntimeReportRow) → Endures (tell row)

  print_when-Endures :
      (b : Bool) (msg : Text)
      → Endures (print_when st.os (log_dir st) st.cfg.state_dir st.encode_echo b msg)
  unfolding print_when
  print_when-Endures true msg = print-Endures st.os (log_dir st) msg
  print_when-Endures false msg = done tt

  print_if-Endures :
      (what : Text) (e : Option Text)
      → Endures (print_if st.os (log_dir st) st.cfg.state_dir st.encode_echo what e)
  unfolding print_if
  print_if-Endures what none = done tt
  print_if-Endures what (some e) = print-Endures st.os (log_dir st) _

  tell_deploy-Endures : Kept (tell_deploy st.os (log_dir st) st.cfg.state_dir st.encode_echo)
  unfolding tell_deploy
  tell_deploy-Endures row = bind (print_when-Endures _ _) λ _. print_when-Endures _ _

  tell_runtime-Endures :
      (intent : SiteRuntimeApplyIntent)
      → Kept (tell_runtime st.os (log_dir st) st.cfg.state_dir st.encode_echo intent)
  unfolding tell_runtime
  tell_runtime-Endures intent row =
      branch (text_eq row.runtime_apply_state (codes "applied"))
        (print-Endures st.os (log_dir st) _)
        (branch (text_eq row.runtime_apply_state (codes "reload_applied"))
          (print-Endures st.os (log_dir st) _)
          (branch (text_eq row.runtime_apply_state (codes "failed"))
            (print-Endures st.os (log_dir st) _) (done tt)))

  save_tls_echo_map-Endures :
      (m : TlsEcho)
      → Endures (save_tls_echo_map st.os (log_dir st) st.cfg.state_dir st.encode_echo m)
  unfolding save_tls_echo_map
  save_tls_echo_map-Endures m =
      files-Endures
        (write_json_atomic st.os (site_tls_echo st.cfg.state_dir) (st.encode_echo m) 0o600)

  keep_tls-Endures : Kept (keep_tls st.os (log_dir st) st.cfg.state_dir st.encode_echo)
  unfolding keep_tls
  keep_tls-Endures row = bind echo-Endures λ m. bind (set_echo-Endures _) λ _.
      bind (save_tls_echo_map-Endures _)
        λ saved. print_if-Endures (codes "persist site_tls_echo: ") saved

  module _ (p : PingClient) where
    posted-Endures :
        (tell : SiteRuntimeReportRow → Action Loop (Unit {0}))
        → Kept tell
        → (row : SiteRuntimeReportRow) (a : Result AgentPingResponse)
        → Endures (
            posted st.os
              (log_dir st)
              st.cfg.state_dir
              st.encode_echo
              st.http
              st.json
              p
              st.me
              tell
              row
              a)
    unfolding posted
    posted-Endures tell k row (err e) = done (some e)
    posted-Endures tell k row (ok r) = bind (keep_tls-Endures row) λ _. bind (k row) λ _. done none

    report_row-Endures :
        (tell : SiteRuntimeReportRow → Action Loop (Unit {0}))
        → Kept tell
        → (row : SiteRuntimeReportRow)
        → Endures (
            report_row st.os
              (log_dir st)
              st.cfg.state_dir
              st.encode_echo
              st.http
              st.json
              p
              st.me
              tell
              row)
    unfolding report_row
    report_row-Endures tell k row = bind (central-Endures _) (posted-Endures tell k row)

    pub deploy_sites-Endures :
        (intents : List SiteRepositoryDeployIntent) → Endures (deploy_sites st p intents)
    unfolding deploy_sites
    deploy_sites-Endures [] = done tt
    deploy_sites-Endures (intent ∷ intents) = bind echo-Endures λ m.
        bind
          (hosted-Endures
            (λ r.
              releasepanel_agent.GitDeploy.Executor.run st.os (some r)
                (git_options st.cfg m intent))
            _ (report_row-Endures _ tell_deploy-Endures))
          λ e.
            bind
              (complain_if-Endures st.os (log_dir st)
                (codes "repository converge site=" ++ (intent.site_ulid ++ codes ": ")) e)
              λ _. deploy_sites-Endures intents

    pub converge_sites-Endures :
        (intents : List SiteRuntimeApplyIntent) → Endures (converge_sites st p intents)
    unfolding converge_sites
    converge_sites-Endures [] = done tt
    converge_sites-Endures (intent ∷ intents) = bind echo-Endures λ m.
        bind
          (hosted-Endures
            (λ r.
              releasepanel_agent.NginxRuntime.Converge.run st.os (some r)
                (nginx_options st.cfg m intent))
            _ (report_row-Endures _ (tell_runtime-Endures intent)))
          λ e.
            bind
              (complain_if-Endures st.os (log_dir st)
                (codes "nginx runtime converge site=" ++ (intent.site_ulid ++ codes ": ")) e)
              λ _. converge_sites-Endures intents
