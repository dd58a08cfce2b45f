-- ===== src/Agent/Start.antt =====
-- cmd/agent/main.go: what `cmdRun` does between the loading of its configuration and its loop.
use releasepanel_agent.Base.{some, List, [], ◌∷◌, if◌then◌else◌, is_empty}
use releasepanel_agent.Text.{Text, Unicode}
use releasepanel_agent.System.{Os, M, Result, ok, err, now, pure, leave, check, call, ◌>>=◌, ◌>>◌}
use releasepanel_agent.Api.{schema_v1}
use releasepanel_agent.Config.Settings.{Config}
use releasepanel_agent.Central.{Client, new, with_auth}
use releasepanel_agent.Deploy.{
  ConvergenceRecord, convergence_state, locks_dir, deploy_staging, deploy_runs,
}
use releasepanel_agent.State.{
  EnrollmentRecord, RuntimeCounters, ensure_tree, runtime_state, outbox_dir,
  repository_deploy_keys_dir,
}
use releasepanel_agent.Enroll.{Codec, read_record}
use releasepanel_agent.Logs.{open_sink, printf}
use releasepanel_agent.Agent.Cycle.{Files, load_runtime, load_convergence}

-- What the loop starts with.
pub record Started : Type 0 where
  pub enrolled : EnrollmentRecord
  pub client : Client
  pub rt : RuntimeCounters
  pub conv : ConvergenceRecord

abbrev tree : Config → List Text
tree cfg =
    cfg.state_dir
    ∷ locks_dir cfg.state_dir
    ∷ deploy_staging cfg.state_dir
    ∷ deploy_runs cfg.state_dir
    ∷ outbox_dir cfg.state_dir
    ∷ repository_deploy_keys_dir cfg.state_dir
    ∷ cfg.log_dir
    ∷ []

unfoldable pub client_or_exit : Result Client → M Client
client_or_exit (ok c) = pure c
client_or_exit (err e) = leave (some e)

unfoldable pub with_start : RuntimeCounters → Text → RuntimeCounters
with_start rt at = record rt {
  schema_version = schema_v1;
  started_at = if is_empty rt.started_at then at else rt.started_at;
}

module _ ⦃u : Unicode⦄ (os : Os) (fs : Files) (codec : Codec) where
  unfoldable pub start : Config → Text → M Started
  unfolding read_record open_sink ensure_tree client_or_exit load_runtime load_convergence
      with_start printf
  start cfg message = do
    rec ← read_record os codec cfg.state_dir
    open_sink os cfg.log_dir
    made ← call (ensure_tree os (tree cfg))
    check made
    cl ← client_or_exit (new codec.parse_url rec.central_base_url cfg.skip_tls_verify)
    rt ← load_runtime os fs (runtime_state cfg.state_dir)
    at ← now os
    conv ← load_convergence os fs (convergence_state cfg.state_dir)
    printf os cfg.log_dir message
    pure (record {
      enrolled = rec;
      client = with_auth cl rec.node_id rec.api_key;
      rt = with_start rt at;
      conv = conv;
    })
