-- ===== src/Api.antt =====
-- pkg/api: the rows, intents and reports that the agent and Central exchange.
use releasepanel_agent.Base.{ℕ, Bool, Option, List}
use releasepanel_agent.Text.{Text}

pub record SiteRepositoryDeployIntent : Type 0 where
  pub site_ulid : Text
  pub deploy_path : Text
  pub git_ssh_url : Text
  pub branch : Text
  pub desired_commit_sha : Text
  pub deploy_state : Text
  pub repository_deploy_key_configured : Bool

pub record SiteRuntimeApplyIntent : Type 0 where
  pub site_ulid : Text
  pub domain : Text
  pub deploy_path : Text
  pub runtime_type : Text
  pub runtime_apply_state : Text
  pub tls_enabled : Bool
  pub ssl_certificate_path : Text
  pub ssl_certificate_key_path : Text
  pub redirect_http_to_https : Bool
  pub tls_ledger_state : Text

pub record SiteRuntimeReportRow : Type 0 where
  pub site_ulid : Text
  pub tls_state : Text
  pub observed_at : Text
  pub repository_deploy_state : Text
  pub repository_deploy_failure_reason : Text
  pub observed_commit_sha : Text
  pub observed_commit_message : Text
  pub observed_commit_author : Text
  pub observed_commit_observed_at : Text
  pub runtime_apply_state : Text
  pub runtime_reload_observed_at : Text
  pub failure_reason : Text

-- One observation of a dependency.
pub record RuntimeDependencyReportRow : Type 0 where
  pub dependency : Text
  pub state : Text
  pub observed_at : Text
  pub failure_reason : Text

-- What the ping of the agent brings, and what it carries.
pub record AgentPingResponse : Type 0 where
  pub site_repository_deploy_intents : List SiteRepositoryDeployIntent
  pub site_runtime_apply_intents : List SiteRuntimeApplyIntent

pub record AgentPingPostBody : Type 0 where
  pub schema_version : ℕ
  pub hostname : Text
  pub agent_version : Text
  pub site_runtime_reports : List SiteRuntimeReportRow
  pub runtime_dependency_reports : List RuntimeDependencyReportRow

abbrev pub schema_v1 : ℕ
schema_v1 = 1

pub record NodeFacts : Type 0 where
  pub hostname : Text
  pub os : Text
  pub arch : Text
  pub machine_id : Text
  pub agent_version : Text

pub record EnrollRequest : Type 0 where
  pub schema_version : ℕ
  pub token : Text
  pub node_facts : NodeFacts

pub record EnrollResponse : Type 0 where
  pub schema_version : ℕ
  pub node_id : Text
  pub api_key : Text

pub record NginxInventory : Type 0 where
  pub binary_path : Text
  pub version : Text

pub record PhpInventory : Type 0 where
  pub cli_path : Text
  pub cli_version : Text
  pub fpm : Text

-- A pointer that may be nil is an option.
pub record RuntimeInventory : Type 0 where
  pub nginx : Option NginxInventory
  pub php : Option PhpInventory

pub record DiskMount : Type 0 where
  pub path : Text
  pub fs_type : Text
  pub total_bytes : ℕ
  pub free_bytes : ℕ

pub record InventoryReport : Type 0 where
  pub schema_version : ℕ
  pub node_id : Text
  pub collected_at : Text
  pub facts : NodeFacts
  pub runtimes : RuntimeInventory
  pub disk : List DiskMount

pub record HealthCheck : Type 0 where
  pub name : Text
  pub passed : Bool
  pub detail : Text
  pub duration_ms : ℕ

pub record HealthReport : Type 0 where
  pub schema_version : ℕ
  pub node_id : Text
  pub collected_at : Text
  pub checks : List HealthCheck

pub record HeartbeatReport : Type 0 where
  pub schema_version : ℕ
  pub node_id : Text
  pub collected_at : Text
  pub agent_version : Text

pub record ConvergenceReport : Type 0 where
  pub schema_version : ℕ
  pub node_id : Text
  pub collected_at : Text
  pub desired_fingerprint : Text
  pub applied_fingerprint : Text
  pub last_reported_fingerprint : Text
  pub last_deploy_run_id : Text
  pub pending_convergence : Bool
