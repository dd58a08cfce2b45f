-- ===== src/NginxRuntime/Protocol.antt =====
-- What a run of `nginxruntime.Run` may do, independently of how it is written: the receipts, file
-- calls and commands that are legal at each stage (docs/NGINX_RUNTIME_CONVERGENCE.md).
pub mod Order
pub mod Conclusion
pub mod Files
use releasepanel_agent.Base.{◌≤◌, ◌≡◌, ◌≢◌, ◌⊎◌, Option, none, some, List, [], ◌∷◌, length}
use releasepanel_agent.Text.{Text, codes, trim_space, Unicode}
use releasepanel_agent.FilePath.{dir, clean}
use releasepanel_agent.Api.{SiteRuntimeReportRow}
use releasepanel_agent.System.{
  Os, Sys, Event, reported, executed, touched, Command, ExecReply, ok, FileCall, mkdir_all,
  create_temp, sync, close, remove, write, chmod, rename, symlink_to,
}
use releasepanel_agent.System.Trace
use releasepanel_agent.GitDeploy.PathValidate.{validate_deploy_path}
use releasepanel_agent.NginxRuntime.WebRoot.{resolve_web_root}
use releasepanel_agent.NginxRuntime.TlsIntent.{TlsMaterialization, tls_materialization_from_intent}
use releasepanel_agent.NginxRuntime.Render.{render_site_config}
use releasepanel_agent.NginxRuntime.SiteFiles.{site_config_paths}
use releasepanel_agent.NginxRuntime.Rows.{
  Options, state_requested, state_applying, state_applied, state_reload_requested,
  state_reload_applied, state_failed,
}
use releasepanel_agent.NginxRuntime.Converge.{tls_echo, tls_out, ledger_state, render_input}

pub data Stage : Type 0 where
  starting rooting : Stage
  prepared ready : Text → Option TlsMaterialization → Stage
  -- The available path, the enabled path and the configuration; the temporary file first.
  writing : Text → Text → Text → Stage
  filling : Text → Text → Text → Text → Stage
  placed : Text → Text → Text → Stage
  linked tested reloaded broken : Stage
  ended : Option Text → Stage

abbrev pub IsOpen : Stage → Type 0
IsOpen starting = ⊥
IsOpen (ended e) = ⊥
IsOpen _ = Unit

-- The calls that fill the temporary file, or clean it away.
pub data IsFilling (tmp conf : Text) : FileCall → Type 0 where
  writes : IsFilling tmp conf (write tmp conf)
  syncs : IsFilling tmp conf (sync tmp)
  closes : IsFilling tmp conf (close tmp)
  sets_mode : IsFilling tmp conf (chmod tmp 0o644)
  removes : IsFilling tmp conf (remove tmp)

module _ (o : Options) where
  -- Every row carries the site, and says nothing of a deployment.
  pub record IsRow (tls : Text) (row : SiteRuntimeReportRow) : Type 0 where
    pub of_site : row.site_ulid ≡ o.intent.site_ulid
    pub has_tls : row.tls_state ≡ tls
    pub no_deployment : row.repository_deploy_state ≡ []

  pub record IsFailure (row : SiteRuntimeReportRow) : Type 0 where
    pub is_row : IsRow (tls_echo o) row
    pub is_failed : row.runtime_apply_state ≡ state_failed
    pub reason_bounded : length row.failure_reason ≤ 19000

module _ ⦃u : Unicode⦄ (o : Options) where
  -- The ledger has asked for a configuration, or for a reload of one.
  abbrev pub IsApply : Type 0
  IsApply = (ledger_state o ≡ state_requested) ⊎ (ledger_state o ≡ state_applying)

  -- What has been verified before the first receipt.
  pub record IsPrepared (web_root : Text) (mat : Option TlsMaterialization) : Type 0 where
    pub deploy_allowed :
        validate_deploy_path (trim_space o.intent.deploy_path) o.deploy_path_roots ≡ none
    pub resolved :
        resolve_web_root (trim_space o.intent.deploy_path) o.intent.runtime_type ≡ ok web_root
    pub web_root_allowed : validate_deploy_path web_root o.deploy_path_roots ≡ none
    pub materialized : tls_materialization_from_intent o.intent ≡ ok mat

  -- Moves that leave no trace. A link that is right already is kept.
  pub data Silent : Stage → Stage → Type 0 where
    idle :
        ledger_state o ≢ state_requested
        → ledger_state o ≢ state_applying
        → ledger_state o ≢ state_reload_requested
        → Silent starting (ended none)
    active : IsApply ⊎ (ledger_state o ≡ state_reload_requested) → Silent starting rooting
    checked :
        {w : Text} {m : Option TlsMaterialization} → IsPrepared w m → Silent rooting (prepared w m)
    resumed :
        {w : Text} {m : Option TlsMaterialization}
        → (ledger_state o ≡ state_applying) ⊎ (ledger_state o ≡ state_reload_requested)
        → Silent (prepared w m) (ready w m)
    rendered :
        {w a e conf : Text} {m : Option TlsMaterialization}
        → render_site_config (render_input o w m) ≡ ok conf
        → site_config_paths o.nginx_sites_available_root o.nginx_sites_enabled_root
            o.intent.site_ulid
          ≡ ok (a, e)
        → Silent (ready w m) (writing a e conf)
    kept_link : {a e tmp : Text} → Silent (placed tmp a e) linked

-- A name that the system may give to a temporary file of a directory.
abbrev pub IsTempName : Os → Text → Text → Type 0
IsTempName os d tmp = (s : Sys) × (tmp ≡ os.temp_name s d (codes ".rp-nginx-*"))

module _ ⦃u : Unicode⦄ (os : Os) (o : Options) where
  pub data Step : Stage → Event → Stage → Type 0 where
    rooted :
        {root : Text} {x : Option Text}
        → (root ≡ o.nginx_sites_available_root) ⊎ (root ≡ o.nginx_sites_enabled_root)
        → Step rooting (touched (mkdir_all (clean (trim_space root))) x) rooting
    announced :
        {w : Text} {m : Option TlsMaterialization} {row : SiteRuntimeReportRow}
        → IsRow o (tls_echo o) row
        → row.runtime_apply_state ≡ state_applying
        → ledger_state o ≡ state_requested
        → Step (prepared w m) (reported row none) (ready w m)
    refused :
        {w : Text} {m : Option TlsMaterialization} {row : SiteRuntimeReportRow} {x : Text}
        → IsRow o (tls_echo o) row
        → row.runtime_apply_state ≡ state_applying
        → ledger_state o ≡ state_requested
        → Step (prepared w m) (reported row (some x)) (ended (some x))
    gave_up :
        {σ : Stage} {row : SiteRuntimeReportRow} {x y : Option Text}
        → IsOpen σ
        → IsFailure o row
        → (y ≡ x) ⊎ (y ≢ none)
        → Step σ (reported row x) (ended y)
    made :
        {a e conf : Text} {x : Option Text}
        → Step (writing a e conf) (touched (mkdir_all (dir a)) x) (writing a e conf)
    created :
        {a e conf tmp : Text}
        → IsTempName os (dir a) tmp
        → Step (writing a e conf) (touched (create_temp tmp) none) (filling tmp a e conf)
    not_created :
        {a e conf tmp x : Text}
        → IsTempName os (dir a) tmp
        → Step (writing a e conf) (touched (create_temp tmp) (some x)) broken
    filled :
        {a e conf tmp : Text} {c : FileCall} {x : Option Text}
        → IsFilling tmp conf c
        → Step (filling tmp a e conf) (touched c x) (filling tmp a e conf)
    renamed :
        {a e conf tmp : Text}
        → Step (filling tmp a e conf) (touched (rename tmp a) none) (placed tmp a e)
    not_renamed :
        {a e conf tmp x : Text}
        → Step (filling tmp a e conf) (touched (rename tmp a) (some x)) (filling tmp a e conf)
    cleaned :
        {a e tmp p : Text} {x : Option Text}
        → (p ≡ tmp) ⊎ (p ≡ e)
        → Step (placed tmp a e) (touched (remove p) x) (placed tmp a e)
    made_link : {a e tmp : Text} → Step (placed tmp a e) (touched (symlink_to a e) none) linked
    no_link : {a e tmp x : Text} → Step (placed tmp a e) (touched (symlink_to a e) (some x)) broken
    passed :
        {c : Command} {r : ExecReply}
        → c.path ∷ c.args ≡ o.nginx_test_argv
        → r.error ≡ none
        → Step linked (executed c r) tested
    rejected :
        {c : Command} {r : ExecReply} {x : Text}
        → c.path ∷ c.args ≡ o.nginx_test_argv
        → r.error ≡ some x
        → Step linked (executed c r) broken
    reload_passed :
        {c : Command} {r : ExecReply}
        → ledger_state o ≡ state_reload_requested
        → c.path ∷ c.args ≡ o.nginx_reload_argv
        → r.error ≡ none
        → Step tested (executed c r) reloaded
    reload_rejected :
        {c : Command} {r : ExecReply} {x : Text}
        → ledger_state o ≡ state_reload_requested
        → c.path ∷ c.args ≡ o.nginx_reload_argv
        → r.error ≡ some x
        → Step tested (executed c r) broken
    applied :
        {row : SiteRuntimeReportRow} {x : Option Text}
        → IsApply o
        → IsRow o (tls_echo o) row
        → row.runtime_apply_state ≡ state_applied
        → Step tested (reported row x) (ended x)
    reload_applied :
        {row : SiteRuntimeReportRow} {x : Option Text}
        → IsRow o (tls_out o) row
        → row.runtime_apply_state ≡ state_reload_applied
        → Step reloaded (reported row x) (ended x)

  abbrev pub Run : List Event → Stage → List Event → Type 0
  Run = Trace.Trace starting Step (Silent o)
