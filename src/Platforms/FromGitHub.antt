-- ===== src/Platforms/FromGitHub.antt =====
-- From the activities that github's fetcher makes of the answers to those that it gives.
use contribution_tracker.Prelude.{ℕ, String, ◌≡◌, true, List, map, keep}
use contribution_tracker.Domain.{
  Activity, ActivityType, Repository, activity_type_commit, activity_type_issue,
  activity_type_merged_pull_request, activity_type_pull_request_review,
}
use contribution_tracker.Platforms.Http.{Network, Formats}
use contribution_tracker.Platforms.Client.{ApiClient}
use contribution_tracker.Report.Outcomes.{value}
use contribution_tracker.Platforms.Sets.{NameSet, make_type_set, has_name, parsed}
use contribution_tracker.Platforms.Yields.{
  Yields, All-map, All-map_keep, Yields-value, Yields-bind, yields_rules,
}
use contribution_tracker.Platforms.GitHub
use contribution_tracker.Platforms.GitHub.Models.{GitHubJson, GhCommit, GhIssue, GhReview}

module _ (P : Activity → Type 0) (lib : Formats) (json : GitHubJson) (net : Network)
    (visit : NameSet → NameSet) (rounds : ℕ) (c : ApiClient) where
  commits_page :
      (page : String)
      → ((x : GhCommit) → P (GitHub.commit_activity x))
      → Yields Activity P (GitHub.commits_of lib json net visit rounds c page)
  commits_page page h =
      Yields-bind P (parsed "parsing commits response: " (json.commits page))
        (λ cs. value (map GitHub.commit_activity cs))
        (λ cs.
          Yields-value P (map GitHub.commit_activity cs) (All-map P GitHub.commit_activity cs h))

  commits-Yields :
      (username : String) (repo : Repository) (since until : ℕ)
      → ((x : GhCommit) → P (GitHub.commit_activity x))
      → Yields Activity P
          (GitHub.fetch_commits lib json net visit rounds c username repo since until)
  unfolding GitHub.fetch_commits
  commits-Yields username repo since until h = search (yields_rules, commits_page, h) depth 9

  reviews_kept :
      (username : String) (since until : ℕ) (pr : GhIssue) (rs : List GhReview)
      → ((r : GhReview)
          → GitHub.is_wanted username since until r ≡ true
          → P (GitHub.review_activity pr r))
      → Yields Activity P (
          value (map (GitHub.review_activity pr) (keep (GitHub.is_wanted username since until) rs)))
  reviews_kept username since until pr rs h =
      Yields-value P
        (map (GitHub.review_activity pr) (keep (GitHub.is_wanted username since until) rs))
        (All-map_keep P (GitHub.review_activity pr) (GitHub.is_wanted username since until) rs h)

  reviews-Yields :
      (username : String) (repo : Repository) (since until : ℕ)
      → ((pr : GhIssue) (r : GhReview)
          → GitHub.is_wanted username since until r ≡ true
          → P (GitHub.review_activity pr r))
      → Yields Activity P
          (GitHub.fetch_reviews lib json net visit rounds c username repo since until)
  unfolding GitHub.fetch_reviews
  reviews-Yields username repo since until h = search (yields_rules, reviews_kept, h) depth 9

  issues_made :
      (items : List GhIssue)
      → ((i : GhIssue) → P (GitHub.issue_activity i))
      → Yields Activity P (value (map GitHub.issue_activity items))
  issues_made items h =
      Yields-value P (map GitHub.issue_activity items) (All-map P GitHub.issue_activity items h)

  issues-Yields :
      (username : String) (since until : ℕ) (repos : NameSet)
      → ((i : GhIssue) → P (GitHub.issue_activity i))
      → Yields Activity P
          (GitHub.search_issues lib json net visit rounds c username since until repos)
  unfolding GitHub.search_issues
  issues-Yields username since until repos h = search (yields_rules, issues_made, h) depth 9

  merged_made :
      (items : List GhIssue)
      → ((i : GhIssue) → P (GitHub.merged_activity i))
      → Yields Activity P (value (map GitHub.merged_activity items))
  merged_made items h =
      Yields-value P (map GitHub.merged_activity items) (All-map P GitHub.merged_activity items h)

  merged-Yields :
      (username : String) (since until : ℕ) (repos : NameSet)
      → ((i : GhIssue) → P (GitHub.merged_activity i))
      → Yields Activity P
          (GitHub.search_merged_prs lib json net visit rounds c username since until repos)
  unfolding GitHub.search_merged_prs
  merged-Yields username since until repos h = search (yields_rules, merged_made, h) depth 9

  pub fetched-Yields :
      (username : String) (repo : Repository) (since until : ℕ) (types : List ActivityType)
      → (has_name activity_type_commit.name (make_type_set types) ≡ true
          → (x : GhCommit) → P (GitHub.commit_activity x))
      → (has_name activity_type_pull_request_review.name (make_type_set types) ≡ true
          → (pr : GhIssue) (r : GhReview) → GitHub.is_wanted username since until r ≡ true
          → P (GitHub.review_activity pr r))
      → Yields Activity P
          (GitHub.fetch_for_user lib json net visit rounds c username repo since until types)
  unfolding GitHub.fetch_for_user
  fetched-Yields username repo since until types on_commit on_review =
      search (yields_rules, commits-Yields, reviews-Yields, on_commit, on_review) depth 9

  pub searched-Yields :
      (username : String) (repos : List Repository) (since until : ℕ) (types : List ActivityType)
      → (has_name activity_type_issue.name (make_type_set types) ≡ true
          → (i : GhIssue) → P (GitHub.issue_activity i))
      → (has_name activity_type_merged_pull_request.name (make_type_set types) ≡ true
          → (i : GhIssue) → P (GitHub.merged_activity i))
      → Yields Activity P
          (GitHub.search_activities lib json net visit rounds c username repos since until types)
  unfolding GitHub.search_activities
  searched-Yields username repos since until types on_issue on_merged =
      search (yields_rules, issues-Yields, merged-Yields, on_issue, on_merged) depth 9
