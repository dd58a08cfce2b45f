-- ===== src/Agent/Endures/Parts.antt =====
-- cmd/agent/main.go: the parts of a cycle, each of which goes to its end.
use Prim.Native.Nat.{◌%◌, ◌^◌}
use releasepanel_agent.Base.{
  ◌≡◌, refl, ap, ◌+◌, Bool, true, false, Option, none, some, List, [], ◌∷◌, ◌++◌, is_empty, subst,
  sym,
}
use releasepanel_agent.Text.{Text, codes, text_eq, trim_space, Unicode}
use releasepanel_agent.System.{now, M, pure}
use releasepanel_agent.System.Ensures.{Ensures-bind, Post}
use releasepanel_agent.System.Files.{ReadReply, contents, absent, unreadable}
use releasepanel_agent.System.Goes.{Goes, Goes-value, read_text-Goes, now-Goes}
use releasepanel_agent.Api.{AgentPingResponse, RuntimeDependencyReportRow, InventoryReport}
use releasepanel_agent.Config.Settings.{nginx_runtime_configured, runtime_probe_specs}
use releasepanel_agent.Central.{Client}
use releasepanel_agent.Central.Ping.{PingClient}
use releasepanel_agent.RuntimeProbe.{Log}
use releasepanel_agent.Inventory.Collected.{collect-Goes}
use releasepanel_agent.Health.Collected.{collect_health-Goes}
use releasepanel_agent.Agent.Loop.{count, Loop, reading, probing}
use releasepanel_agent.Agent.Dispatch.{
  Setting, log_dir, dispatch, tell_probes, report_probes, ping_with, with_token, ping_section,
}
use releasepanel_agent.Agent.Cycle.{
  Files, clock, counters, save_counters, print_error, begin, heartbeat, inventory_sent, inventory,
  should_inventory, health_sent, health, reconciling, reconcile_if, finish, persist_runtime,
}
use releasepanel_agent.Agent.Reported.{Runs}
use releasepanel_agent.Agent.Endures.{
  Stamp, At, Endures, bind, done, branch, files-Endures, central-Endures, set_echo-Endures,
  count-Endures, print-Endures, complain-Endures, complain_if-Endures, then_or-Endures,
  deploy_sites-Endures, converge_sites-Endures,
}
use releasepanel_agent.State.{write_json_atomic, runtime_state, inventory_cache}
use releasepanel_agent.Logs.{append_event}

reading-Endures : {A : Type 0} (m : M A) → Goes m → Endures (reading m)
unfolding reading
reading-Endures m h n = record {
  at = λ l q.
      subst (λ r. Post (λ a. At n) (λ e v. ⊥) r (reading m l).1)
        (sym (Goes-value h l.machine.sys).1) q;
}

probing-Endures : {A : Type 0} (f : Log → A × Log) → Endures (probing f)
unfolding probing
probing-Endures f n = record { at = λ l h. h }

module _ ⦃u : Unicode⦄ (st : Setting) where
  tell_probes-Endures : (rows : List RuntimeDependencyReportRow) → Endures (tell_probes st rows)
  unfolding tell_probes
  tell_probes-Endures [] = done tt
  tell_probes-Endures (r ∷ rs) =
      branch (text_eq r.state (codes "observed")) (tell_probes-Endures rs) (
        bind (print-Endures st.os (log_dir st) (r.dependency ++ (codes " probe " ++ r.state)))
          λ _. tell_probes-Endures rs)

  report_probes-Endures : (p : PingClient) → Endures (report_probes st p)
  unfolding report_probes
  report_probes-Endures p = branch (is_empty (runtime_probe_specs st.cfg)) (done tt) (
      bind (probing-Endures _) λ reports. bind (central-Endures _) λ answer.
        then_or-Endures st.os (log_dir st) (codes "post ping runtime_dependency_reports: ")
          (λ r. tell_probes st reports) answer (λ r. tell_probes-Endures reports))

  dispatch-Endures : (p : PingClient) (r : AgentPingResponse) → Endures (dispatch st p r)
  unfolding dispatch
  dispatch-Endures p r = bind (reading-Endures _ (read_text-Goes st.os _)) λ raw.
      bind (set_echo-Endures _) λ _.
        bind (deploy_sites-Endures st p r.site_repository_deploy_intents) λ _.
          branch (nginx_runtime_configured st.cfg)
            (converge_sites-Endures st p r.site_runtime_apply_intents) (done tt)

  ping_with-Endures : (p : PingClient) → Endures (ping_with st p)
  unfolding ping_with
  ping_with-Endures p = bind (report_probes-Endures p) λ _. bind (central-Endures _) λ answer.
      then_or-Endures st.os (log_dir st) (codes "get ping: ") (dispatch st p) answer
        (dispatch-Endures p)

  with_token-Endures : (r : ReadReply) → Endures (with_token st r)
  unfolding with_token
  with_token-Endures (contents raw) =
      then_or-Endures st.os (log_dir st) (codes "ping client: ") (ping_with st) _ ping_with-Endures
  with_token-Endures (absent e) =
      complain-Endures st.os (log_dir st) (codes "read agent_ping_token_file: ") e
  with_token-Endures (unreadable e) =
      complain-Endures st.os (log_dir st) (codes "read agent_ping_token_file: ") e

  pub ping_section-Endures : Endures (ping_section st)
  unfolding ping_section
  ping_section-Endures =
      branch (is_empty (trim_space st.cfg.agent_ping_token_file)) (done tt)
        (bind (reading-Endures _ (read_text-Goes st.os _)) with_token-Endures)

module _ ⦃u : Unicode⦄ (st : Setting) (fs : Files) (cl : Client) where
  clock-Endures : Endures (clock st fs cl)
  unfolding clock
  clock-Endures = reading-Endures (now st.os) (now-Goes st.os)

  counters-Endures : Endures (counters st fs cl)
  unfolding counters
  counters-Endures n = record { at = λ l h. h }

  save_counters-Endures : Endures (save_counters st fs cl)
  unfolding save_counters
  save_counters-Endures =
      bind counters-Endures
        λ rt. files-Endures (persist_runtime st.os fs (runtime_state st.cfg.state_dir) rt)

  print_error-Endures : (what : Text) (e : Option Text) → Endures (print_error st fs cl what e)
  unfolding print_error
  print_error-Endures what none = done tt
  print_error-Endures what (some e) = print-Endures st.os (log_dir st) _

  pub heartbeat-Endures : Endures (heartbeat st fs cl)
  unfolding heartbeat
  heartbeat-Endures = bind clock-Endures λ at. bind (central-Endures _) λ answer.
      then_or-Endures st.os (log_dir st) (codes "post heartbeat: ") (λ r. pure tt) answer
        (λ r. done tt)

  inventory_sent-Endures : (inv : InventoryReport) → Endures (inventory_sent st fs cl inv)
  unfolding inventory_sent
  inventory_sent-Endures inv = bind clock-Endures λ at. bind (count-Endures _ (λ rt. refl)) λ _.
      bind
        (files-Endures (
          write_json_atomic st.os (inventory_cache st.cfg.state_dir) (fs.encode_inventory inv)
            0o644))
        λ _. done tt

  pub inventory-Endures : Endures (inventory st fs cl)
  unfolding inventory
  inventory-Endures =
      bind (reading-Endures _ (collect-Goes st.os fs.facts [] st.me.agent_version)) λ collected.
        bind counters-Endures λ rt. bind clock-Endures λ at.
          branch (should_inventory st.os fs rt at)
            (bind (central-Endures _) λ answer.
              then_or-Endures st.os (log_dir st) (codes "post inventory: ") _ answer
                (λ r. inventory_sent-Endures (record collected { node_id = st.enrolled.node_id })))
            (done tt)

  health_sent-Endures : Endures (health_sent st fs cl)
  unfolding health_sent
  health_sent-Endures = bind clock-Endures λ at. count-Endures _ (λ rt. refl)

  pub health-Endures : Endures (health st fs cl)
  unfolding health
  health-Endures =
      bind (reading-Endures _ (collect_health-Goes st.os fs.facts st.enrolled.node_id)) λ report.
        bind (central-Endures _) λ answer.
          then_or-Endures st.os (log_dir st) (codes "post health: ") (λ r. health_sent st fs cl)
            answer (λ r. health_sent-Endures)

  pub reconcile_if-Endures : (b : Bool) → Endures (reconcile_if st fs cl b)
  unfolding reconcile_if reconciling
  reconcile_if-Endures false = done tt
  reconcile_if-Endures true =
      bind (λ n. record { at = λ l h. h })
        λ e. complain_if-Endures st.os (log_dir st) (codes "reconcile: ") e

  pub finish-Endures : Endures (finish st fs cl)
  unfolding finish
  finish-Endures = bind save_counters-Endures λ saved.
      bind (print_error-Endures (codes "persist runtime: ") saved) λ _. bind clock-Endures λ at.
        bind counters-Endures λ rt.
          bind
            (files-Endures
              (append_event st.os (log_dir st) (fs.encode_event at rt.loop_count rt.last_error)))
            λ _. done tt

  -- The stamp with which a cycle that starts at `l` goes on.
  abbrev pub next_stamp : Loop → Stamp
  next_stamp l = ((l.rt.loop_count + 1) % 2 ^ 64, st.os.now l.machine.sys, l.rt.started_at)

  pub begin-Runs : (l : Loop) → Runs (λ v. v ≡ l) (begin st fs cl) (λ _. At (next_stamp l))
  unfolding begin clock count now reading
  begin-Runs l =
      Ensures-bind {Q = λ at v. (v.rt ≡ l.rt) × (at ≡ st.os.now l.machine.sys)}
        (record { at = λ v q. (ap (λ x. x.rt) q, ap (λ x. st.os.now x.machine.sys) q) })
        λ at.
          Ensures-bind {Q = λ _. At (next_stamp l)} (record { at = λ v q. rw (q.0, q.1) refl })
            λ _.
              bind save_counters-Endures
                (λ saved. print_error-Endures (codes "persist runtime: ") saved) _
