-- ===== src/GitDeploy/Rows.antt =====
-- internal/gitdeploy/executor.go: the states, the commit observation and the receipts.
use releasepanel_agent.Base.{Option, none, some, [], ◌++◌}
use releasepanel_agent.Text.{Text, codes, truncate_runes}
use releasepanel_agent.Api.{SiteRuntimeReportRow}
use releasepanel_agent.System.{Os, M, now, pure, ◌>>=◌}

abbrev pub state_fetching : Text
state_fetching = codes "fetching"

abbrev pub state_fetched : Text
state_fetched = codes "fetched"

abbrev pub state_applying : Text
state_applying = codes "applying"

abbrev pub state_applied : Text
state_applied = codes "applied"

abbrev pub state_failed : Text
state_failed = codes "failed"

pub record CommitObservation : Type 0 where
  pub sha : Text
  pub subject : Text
  pub author : Text
  pub observed_at : Text

with_commit : SiteRuntimeReportRow → Option CommitObservation → SiteRuntimeReportRow
with_commit r none = r
with_commit r (some c) = record r {
  observed_commit_sha = c.sha;
  observed_commit_message = c.subject;
  observed_commit_author = c.author;
  observed_commit_observed_at = c.observed_at;
}

-- A row with every optional field empty.
abbrev bare : Text → Text → Text → SiteRuntimeReportRow
bare site tls at = record {
  site_ulid = site;
  tls_state = tls;
  observed_at = at;
  repository_deploy_state = [];
  repository_deploy_failure_reason = [];
  observed_commit_sha = [];
  observed_commit_message = [];
  observed_commit_author = [];
  observed_commit_observed_at = [];
  runtime_apply_state = [];
  runtime_reload_observed_at = [];
  failure_reason = [];
}

-- The rows at the time `at` of the clock.
pub row_at : Text → Text → Text → Text → Option CommitObservation → Text → SiteRuntimeReportRow
unfolding with_commit
row_at site tls repo_state fail commit at =
    with_commit
      (record (bare site tls at) {
        repository_deploy_state = repo_state;
        repository_deploy_failure_reason = fail;
      })
      commit

failed_row_at : Text → Text → Text → Text → SiteRuntimeReportRow
failed_row_at site tls reason at = record (bare site tls at) {
  repository_deploy_state = state_failed;
  repository_deploy_failure_reason = truncate_runes reason 19000;
}

unfoldable pub bounded_reason : Text → Option Text → Text
bounded_reason prefix none = prefix
bounded_reason prefix (some e) = truncate_runes (prefix ++ (codes ": " ++ e)) 19000

module _ (os : Os) where
  unfoldable pub row : Text → Text → Text → Text → Option CommitObservation → M SiteRuntimeReportRow
  unfolding row_at
  row site tls repo_state fail commit = do
    at ← now os
    pure (row_at site tls repo_state fail commit at)

  unfoldable pub failed_row : Text → Text → Text → M SiteRuntimeReportRow
  unfolding failed_row_at
  failed_row site tls reason = do at ← now os; pure (failed_row_at site tls reason at)

  unfoldable pub applied_row : Text → Text → CommitObservation → M SiteRuntimeReportRow
  unfolding row
  applied_row site tls c = row site tls state_applied [] (some c)
