-- ===== src/Platforms/Given.antt =====
-- From the activities that the fetchers make to those in the program's reports.
use contribution_tracker.Prelude.{String, ◌≡◌, true, List, All}
use contribution_tracker.Domain.{
  Activity, activity_type_commit, activity_type_issue, activity_type_merged_pull_request,
  activity_type_pull_request_review,
}
use contribution_tracker.Database.Session.{World}
use contribution_tracker.Platforms.Sets.{make_type_set, has_name}
use contribution_tracker.Platforms.Yields.{Yields}
use contribution_tracker.Platforms.FromGitHub
use contribution_tracker.Platforms.FromGitLab
use contribution_tracker.Platforms.Wiring.{
  Outside, github_factory, gitlab_factory, registry_of, from_registry,
}
use contribution_tracker.Platforms.GitHub
use contribution_tracker.Platforms.GitHub.Models.{GhCommit, GhIssue, GhReview}
use contribution_tracker.Platforms.GitLab
use contribution_tracker.Platforms.GitLab.Models.{GlCommit, GlIssue, GlMergeRequest, GlNote}
use contribution_tracker.Report.{Order, ReportQuery, Thread, generate_report}
use contribution_tracker.Report.Contents.{Gives, Contains, generate_report-Contains}
use contribution_tracker.Report.Totals.{Interleaves}

-- `P` holds of what is made of each kind of item, where the kind was asked for.
pub record Makes (P : Activity → Type 0) (q : ReportQuery) : Type 0 where
  pub github_commit :
      has_name activity_type_commit.name (make_type_set q.types) ≡ true
      → (x : GhCommit) → P (GitHub.commit_activity x)
  pub github_review :
      has_name activity_type_pull_request_review.name (make_type_set q.types) ≡ true
      → (username : String) (pr : GhIssue) (x : GhReview)
      → GitHub.is_wanted username q.since q.until x ≡ true
      → P (GitHub.review_activity pr x)
  pub github_issue :
      has_name activity_type_issue.name (make_type_set q.types) ≡ true
      → (x : GhIssue) → P (GitHub.issue_activity x)
  pub github_merged :
      has_name activity_type_merged_pull_request.name (make_type_set q.types) ≡ true
      → (x : GhIssue) → P (GitHub.merged_activity x)
  pub gitlab_commit :
      has_name activity_type_commit.name (make_type_set q.types) ≡ true
      → (x : GlCommit) → P (GitLab.commit_activity x)
  pub gitlab_issue :
      has_name activity_type_issue.name (make_type_set q.types) ≡ true
      → (x : GlIssue) → P (GitLab.issue_activity x)
  pub gitlab_merged :
      has_name activity_type_merged_pull_request.name (make_type_set q.types) ≡ true
      → (x : GlMergeRequest) → P (GitLab.merged_activity x)
  pub gitlab_note :
      has_name activity_type_pull_request_review.name (make_type_set q.types) ≡ true
      → (username : String) (mr : GlMergeRequest) (x : GlNote)
      → GitLab.is_wanted username q.since q.until x ≡ true
      → P (GitLab.note_activity mr x)

module _ (P : Activity → Type 0) (q : ReportQuery) (o : Outside) (getenv : String → String) where
  github-Gives : (token : String) → Makes P q → Gives P q (github_factory o getenv token)
  unfolding GitHub.factory GitHub.new_activity_fetcher
  github-Gives token m = record {
    fetched = λ username r. Yields.all (
        FromGitHub.fetched-Yields P o.lib o.github_json o.net o.visit o.rounds _ username r q.since
          q.until q.types m.github_commit
          (λ asked pr x wanted. m.github_review asked username pr x wanted));
    searched = λ username repos. Yields.all (
        FromGitHub.searched-Yields P o.lib o.github_json o.net o.visit o.rounds _ username repos
          q.since q.until q.types m.github_issue m.github_merged);
  }

  gitlab-Gives : (token : String) → Makes P q → Gives P q (gitlab_factory o getenv token)
  unfolding GitLab.factory GitLab.new_activity_fetcher
  gitlab-Gives token m = record {
    fetched = λ username r. Yields.all (
        FromGitLab.fetched-Yields P o.lib o.gitlab_json o.net o.rounds _ username r q.since q.until
          q.types m.gitlab_commit);
    searched = λ username repos. Yields.all (
        FromGitLab.searched-Yields P o.lib o.gitlab_json o.net o.rounds _ username repos q.since
          q.until q.types m.gitlab_issue m.gitlab_merged
          (λ asked mr x wanted. m.gitlab_note asked username mr x wanted));
  }

  pub program_report-Contains :
      (order : Order)
      → ((ts : List Thread) → Interleaves ts (order.run ts))
      → Makes P q
      → (w : World) → All (Contains P) (generate_report order (registry_of o getenv) q w).0
  program_report-Contains order interleaved m w =
      generate_report-Contains P q (registry_of o getenv)
        (from_registry o getenv (Gives P q) (λ token. github-Gives token m)
          (λ token. gitlab-Gives token m))
        order interleaved w
