-- ===== src/Deploy/Tests.antt =====
-- A first reconciliation on a small system.
use releasepanel_agent.Base.{false, none, [], ◌++◌}
use releasepanel_agent.Text.{codes}
use releasepanel_agent.System.{Os, ok, missing}
use releasepanel_agent.Deploy.{Remote, World}
use releasepanel_agent.Deploy.Outcome.{Outcome}

-- Every call succeeds.
abbrev os : Os
os = record {
  look_path = λ s name. ok name;
  exec = λ s c. (record { stdout = []; stderr = []; error = none }, s.disk);
  stat = λ s p. missing (codes "no such file or directory");
  eval_symlinks = λ s p. ok p;
  open_file = λ s p. none;
  post = λ s row. none;
  now = λ s. codes "2026-01-01T00:00:00Z";
  environ = [];
  fault = λ s c. none;
  temp_name = λ s dir pattern. dir ++ codes "/.rp-1";
  partial = λ s. 0;
}

abbrev remote : Remote
remote = record {
  fetch_desired = λ s. ok (codes "{}", codes "f1");
  post_convergence = λ s report. none;
  fingerprint_of = λ raw. none;
  encode_run = λ rec. rec.message;
  is_exist = λ e. false;
  encode_convergence = λ c. ok c.desired_fingerprint;
  run_id = λ s. codes "20260101T000000Z";
}

abbrev start : World
start = record {
  sys = record { disk = λ p. none; log = []; ticks = 0 };
  conv = record {
    schema_version = 0;
    desired_fingerprint = [];
    applied_fingerprint = [];
    last_reported_fingerprint = [];
    last_deploy_run_id = [];
    updated_at = [];
  };
}
