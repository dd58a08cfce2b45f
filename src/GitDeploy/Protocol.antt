-- ===== src/GitDeploy/Protocol.antt =====
-- What a run of `gitdeploy.Run` may do, independently of how it is written: the receipts and git
-- commands that are legal at each stage (docs/GITHUB_SITE_PULL.md, "Convergence flow"; as in the
-- code, and not as there, a ledger that is applied or failed starts again at fetching).
pub mod Bounds
pub mod Conclusion
pub mod Justified
pub mod Receipts
use releasepanel_agent.Base.{
  ◌≤◌, ◌≡◌, ◌≢◌, ◌⊎◌, true, Option, none, some, List, [], ◌∷◌, ◌++◌, length, ap,
}
use releasepanel_agent.Text.{Text, codes, trim_space, truncate_runes, Unicode}
use releasepanel_agent.Api.{SiteRuntimeReportRow}
use releasepanel_agent.System.Trace
use releasepanel_agent.System.{Event, reported, executed, Command, ExecReply}
use releasepanel_agent.GitDeploy.PathValidate.{validate_deploy_path}
use releasepanel_agent.GitDeploy.Rows.{
  state_fetching, state_fetched, state_applying, state_applied, state_failed,
}
use releasepanel_agent.GitDeploy.Git.{log_fields}
use releasepanel_agent.GitDeploy.Executor.{
  Options, site, tls_echo, deploy_path, branch, desired_sha, clone_args, fetch_args, reset_args,
  ledger_state,
}

pub data Stage : Type 0 where
  starting fetching downloaded fetched applying : Stage
  targeted reset_to : Text → Stage
  at_head : Stage
  observed : Text → Stage
  broken : Stage
  ended : Option Text → Stage

abbrev pub IsOpen : Stage → Type 0
IsOpen (ended e) = ⊥
IsOpen _ = Unit

-- What the agent has verified before it may touch the site.
pub record IsChecked (o : Options) : Type 0 where
  pub path_allowed : validate_deploy_path (deploy_path o) o.allowed_path_roots ≡ none
  pub key_configured : o.intent.repository_deploy_key_configured ≡ true

module _ (o : Options) where
  -- The command that is allowed at a stage, and the stage after its success.
  abbrev pub Work : Stage → Text → List Text → Type 0
  Work fetching d args =
      ((d ≡ []) × (args ≡ clone_args o)) ⊎ ((d ≡ deploy_path o) × (args ≡ fetch_args o))
  Work applying d args =
      (d ≡ deploy_path o)
      × (desired_sha o ≢ [])
      × (args ≡ codes "cat-file" ∷ codes "-e" ∷ (desired_sha o ++ codes "^{commit}") ∷ [])
  Work (targeted target) d args = (d ≡ deploy_path o) × (args ≡ reset_args o target)
  Work (reset_to target) d args =
      (d ≡ deploy_path o) × (args ≡ codes "rev-parse" ∷ codes "HEAD" ∷ [])
  Work at_head d args =
      (d ≡ deploy_path o)
      × (args ≡ codes "log" ∷ codes "-1" ∷ codes "-z" ∷ codes "--format=%H%x00%s%x00%an <%ae>" ∷ [])
  Work _ d args = ⊥

  abbrev pub after : Stage → Text → Stage
  after fetching out = downloaded
  after applying out = targeted (desired_sha o)
  after (targeted target) out = reset_to target
  after (reset_to target) out = at_head
  after at_head out = observed out
  after _ out = broken

  -- Every row carries the site and the echoed TLS state.
  pub record IsRow (row : SiteRuntimeReportRow) : Type 0 where
    pub of_site : row.site_ulid ≡ site o
    pub echoes_tls : row.tls_state ≡ tls_echo o

  pub record IsFailure (row : SiteRuntimeReportRow) : Type 0 where
    pub is_row : IsRow row
    pub is_failed : row.repository_deploy_state ≡ state_failed
    pub has_reason : row.repository_deploy_failure_reason ≢ []
    pub reason_bounded : length row.repository_deploy_failure_reason ≤ 19000

  -- The receipt of an observed commit, from the output of `git log`.
  pub record IsApplied (out : Text) (row : SiteRuntimeReportRow) : Type 0 where
    pub is_row : IsRow row
    pub is_applied : row.repository_deploy_state ≡ state_applied
    pub fields : Text × Text × Text
    pub logged : log_fields out ≡ some fields
    pub sha_observed : row.observed_commit_sha ≡ trim_space fields.0
    pub message_observed : row.observed_commit_message ≡ truncate_runes (trim_space fields.1) 9000
    pub author_observed : row.observed_commit_author ≡ truncate_runes (trim_space fields.2) 500

module _ ⦃u : Unicode⦄ (o : Options) where
  -- The receipt that is due at a stage, if the ledger is not past it, and the stage that it
  -- leads to.
  abbrev pub Due : Stage → Text → Type 0
  Due starting state =
      (state ≡ state_fetching)
      × IsChecked o
      × (ledger_state o ≢ state_fetched)
      × (ledger_state o ≢ state_applying)
  Due downloaded state = (state ≡ state_fetched) × (ledger_state o ≢ state_applying)
  Due fetched state = state ≡ state_applying
  Due _ state = ⊥

  abbrev pub promoted : Stage → Stage
  promoted starting = fetching
  promoted downloaded = fetched
  promoted fetched = applying
  promoted _ = broken

  pub data Step : Stage → Event → Stage → Type 0 where
    accepted :
        {σ : Stage} {row : SiteRuntimeReportRow}
        → IsRow o row
        → Due σ row.repository_deploy_state
        → Step σ (reported row none) (promoted σ)
    refused :
        {σ : Stage} {row : SiteRuntimeReportRow} {e : Text}
        → IsRow o row
        → Due σ row.repository_deploy_state
        → Step σ (reported row (some e)) (ended (some e))
    gave_up :
        {σ : Stage} {row : SiteRuntimeReportRow} {e : Option Text}
        → IsOpen σ
        → IsFailure o row
        → Step σ (reported row e) (ended e)
    succeeded :
        {σ : Stage} {c : Command} {r : ExecReply}
        → Work o σ c.work_dir c.args
        → r.error ≡ none
        → Step σ (executed c r) (after o σ (trim_space r.stdout))
    failed :
        {σ : Stage} {c : Command} {r : ExecReply} {e : Text}
        → Work o σ c.work_dir c.args
        → r.error ≡ some e
        → Step σ (executed c r) broken
    applied :
        {out : Text} {row : SiteRuntimeReportRow} {e : Option Text}
        → IsApplied o out row
        → Step (observed out) (reported row e) (ended e)

  -- Moves that leave no trace: receipts that the ledger already has, and no commit to verify.
  pub data Silent : Stage → Stage → Type 0 where
    skip_fetching :
        (ledger_state o ≡ state_fetched) ⊎ (ledger_state o ≡ state_applying)
        → IsChecked o
        → Silent starting fetching
    skip_fetched : ledger_state o ≡ state_applying → Silent downloaded fetched
    newest :
        {target : Text}
        → desired_sha o ≡ []
        → target ≡ codes "origin/" ++ branch o
        → Silent applying (targeted target)

  abbrev pub Run : List Event → Stage → List Event → Type 0
  Run = Trace.Trace starting Step Silent
