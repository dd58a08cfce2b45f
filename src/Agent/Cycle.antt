-- ===== src/Agent/Cycle.antt =====
-- cmd/agent/main.go: one cycle of the loop of `cmdRun`, and the files that the loop keeps.
use releasepanel_agent.Base.{
  zero, suc, ℕ, ◌+◌, ◌==◌, Bool, true, false, Option, none, some, [], ◌++◌, if◌then◌else◌, is_empty,
  ◌||◌,
}
use Prim.Native.Nat.{◌%◌, ◌^◌}
use releasepanel_agent.Text.{Text, codes, Unicode}
use releasepanel_agent.System.{now, Os, M, Result, go, Action, pure, ◌>>=◌, ◌>>◌, result}
use releasepanel_agent.Api.{InventoryReport, schema_v1}
use releasepanel_agent.Central.{Client, post_heartbeat, post_inventory, post_health}
use releasepanel_agent.Deploy.{ConvergenceRecord, Remote, reconcile}
use releasepanel_agent.State.{
  RuntimeCounters, ReadJson, decoded, not_there, broken, read_json, write_json_atomic,
  runtime_state, inventory_cache,
}
use releasepanel_agent.Inventory.{HostFacts, collect}
use releasepanel_agent.Health.{collect_health}
use releasepanel_agent.Logs.{append_event}
use releasepanel_agent.Agent.Loop.{
  Loop, files, central, reading, count, print, complain_if, then_or,
}
use releasepanel_agent.Agent.Dispatch.{Setting, log_dir, ping_section}

abbrev pub no_counters : RuntimeCounters
no_counters = record {
  schema_version = 0;
  started_at = [];
  last_loop_at = [];
  loop_count = 0;
  last_inventory_post_at = [];
  last_health_post_at = [];
  last_error = [];
}

abbrev pub new_convergence : Text → ConvergenceRecord
new_convergence at = record {
  schema_version = schema_v1;
  desired_fingerprint = [];
  applied_fingerprint = [];
  last_reported_fingerprint = [];
  last_deploy_run_id = [];
  updated_at = at;
}

-- A record without a version gets one.
unfoldable pub versioned : ConvergenceRecord → ConvergenceRecord
versioned c = if c.schema_version == 0 then record c { schema_version = schema_v1 } else c

-- Package json on the loop's files, the clock as a number of nanoseconds, and Central's client of
-- the reconciliation.
pub record Files : Type 0 where
  pub encode_runtime : RuntimeCounters → Result Text
  pub decode_runtime : Text → Result RuntimeCounters
  pub decode_convergence : Text → Result ConvergenceRecord
  pub encode_inventory : InventoryReport → Result Text
  pub encode_event : Text → ℕ → Text → Result Text
  -- `time.Since(t) >= every`.
  pub has_passed : Text → Text → Bool
  pub facts : HostFacts
  pub remote : Remote

module _ (os : Os) (fs : Files) where
  unfoldable pub counters_read : ReadJson RuntimeCounters → RuntimeCounters
  counters_read (decoded rt) = rt
  counters_read (not_there e) = no_counters
  counters_read (broken e) = no_counters

  -- The error of a file that cannot be read is only printed.
  unfoldable pub load_runtime : Text → M RuntimeCounters
  unfolding counters_read
  load_runtime path = do r ← read_json os fs.decode_runtime path; pure (counters_read r)

  unfoldable pub persist_runtime : Text → RuntimeCounters → M (Unit {0})
  persist_runtime path rt =
      write_json_atomic os path (fs.encode_runtime (record rt { schema_version = schema_v1 })) 0o644

  unfoldable pub convergence_read : Text → ReadJson ConvergenceRecord → ConvergenceRecord
  unfolding versioned
  convergence_read at (decoded c) = versioned c
  convergence_read at (not_there e) = new_convergence at
  convergence_read at (broken e) = new_convergence at

  unfoldable pub load_convergence : Text → M ConvergenceRecord
  unfolding convergence_read
  load_convergence path = do
    r ← read_json os fs.decode_convergence path
    at ← now os
    pure (convergence_read at r)

  -- The interval is an hour.
  unfoldable pub should_inventory : RuntimeCounters → Text → Bool
  should_inventory rt at =
      is_empty rt.last_inventory_post_at || fs.has_passed rt.last_inventory_post_at at

module _ ⦃u : Unicode⦄ (st : Setting) (fs : Files) (cl : Client) where
  unfoldable pub clock : Action Loop Text
  unfolding reading
  clock = reading (now st.os)

  unfoldable pub counters : Action Loop RuntimeCounters
  counters l = (go l.rt, l)

  unfoldable pub save_counters : Action Loop (Option Text)
  unfolding persist_runtime files counters
  save_counters = do
    rt ← counters
    files (persist_runtime st.os fs (runtime_state st.cfg.state_dir) rt)

  unfoldable pub print_error : Text → Option Text → Action Loop (Unit {0})
  print_error what none = pure tt
  print_error what (some e) = print st.os (log_dir st) (what ++ e)

  unfoldable pub begin : Action Loop (Unit {0})
  unfolding count save_counters print_error clock
  begin = do
    at ← clock
    count (λ rt. record rt {
      loop_count = (rt.loop_count + 1) % 2 ^ 64;
      last_loop_at = at;
      last_error = [];
    })
    saved ← save_counters
    print_error (codes "persist runtime: ") saved

  unfoldable pub heartbeat : Action Loop (Unit {0})
  unfolding central post_heartbeat then_or clock
  heartbeat = do
    at ← clock
    answer ← central (
        post_heartbeat st.http st.json cl (record {
          schema_version = schema_v1;
          node_id = st.enrolled.node_id;
          collected_at = at;
          agent_version = st.me.agent_version;
        }))
    then_or st.os (log_dir st) (codes "post heartbeat: ") (λ r. pure tt) answer

  unfoldable pub inventory_sent : InventoryReport → Action Loop (Unit {0})
  unfolding count files clock
  inventory_sent inv = do
    at ← clock
    count (λ rt. record rt { last_inventory_post_at = at })
    files
        (write_json_atomic st.os (inventory_cache st.cfg.state_dir) (fs.encode_inventory inv) 0o644)
    pure tt

  -- It is collected in every cycle and posted once an hour.
  unfoldable pub inventory : Action Loop (Unit {0})
  unfolding reading collect should_inventory inventory_sent central post_inventory then_or clock
      counters
  inventory = do
    collected ← reading (collect st.os fs.facts [] st.me.agent_version)
    let inv = record collected { node_id = st.enrolled.node_id }
    rt ← counters
    at ← clock
    if should_inventory st.os fs rt at
        then (do
          answer ← central (post_inventory st.http st.json cl inv)
          then_or st.os (log_dir st) (codes "post inventory: ") (λ r. inventory_sent inv) answer)
        else pure tt

  unfoldable pub health_sent : Action Loop (Unit {0})
  unfolding count clock
  health_sent = do at ← clock; count (λ rt. record rt { last_health_post_at = at })

  unfoldable pub health : Action Loop (Unit {0})
  unfolding reading collect_health central post_health then_or health_sent
  health = do
    report ← reading (collect_health st.os fs.facts st.enrolled.node_id)
    answer ← central (post_health st.http st.json cl report)
    then_or st.os (log_dir st) (codes "post health: ") (λ r. health_sent) answer

  -- `Reconcile` on the record of the loop, whose pointer it returns.
  unfoldable pub reconciling : Action Loop (Option Text)
  unfolding reconcile
  reconciling l =
      let (r, w) =
        reconcile st.os fs.remote st.cfg.state_dir st.enrolled.node_id
          (record { sys = l.machine.sys; conv = l.conv }) in
      (go (result r), record l { machine = record l.machine { sys = w.sys }; conv = w.conv })

  unfoldable pub reconcile_if : Bool → Action Loop (Unit {0})
  unfolding reconciling complain_if
  reconcile_if false = pure tt
  reconcile_if true = do e ← reconciling; complain_if st.os (log_dir st) (codes "reconcile: ") e

  unfoldable pub finish : Action Loop (Unit {0})
  unfolding save_counters print_error files append_event clock counters
  finish = do
    saved ← save_counters
    print_error (codes "persist runtime: ") saved
    at ← clock
    rt ← counters
    files (append_event st.os (log_dir st) (fs.encode_event at rt.loop_count rt.last_error))
    pure tt

  -- The body of the loop up to its wait.
  unfoldable pub cycle : Action Loop (Unit {0})
  unfolding begin heartbeat inventory health ping_section reconcile_if finish
  cycle = do
    begin
    heartbeat
    inventory
    health
    ping_section st
    reconcile_if st.cfg.manifest_reconcile_enabled
    finish

  -- The loop, from the number of ticks that come before its context is done.
  unfoldable pub run_loop : ℕ → Action Loop (Unit {0})
  unfolding cycle
  run_loop zero = do cycle; print st.os (log_dir st) (codes "shutdown: context canceled")
  run_loop (suc n) = do cycle; run_loop n
