-- ===== src/Platforms/FromGitLab.antt =====
-- From the activities that gitlab's fetcher makes of the answers to those that it gives.
use contribution_tracker.Prelude.{
  ℕ, String, ◌≡◌, true, List, map, keep, [], ◌∷◌, Bool, false, if◌then◌else◌, flag,
}
use contribution_tracker.Domain.{
  Activity, ActivityType, Repository, activity_type_commit, activity_type_issue,
  activity_type_merged_pull_request, activity_type_pull_request_review,
}
use contribution_tracker.Platforms.Http.{Network, Formats}
use contribution_tracker.Platforms.Client.{ApiClient}
use contribution_tracker.Report.Outcomes.{value}
use contribution_tracker.Platforms.Sets.{NameSet, make_type_set, has_name, parsed}
use contribution_tracker.Platforms.Yields.{
  Yields, All-map, All-map_keep, Yields-value, Yields-bind, yields_rules,
}
use contribution_tracker.Platforms.GitLab
use contribution_tracker.Platforms.GitLab.Models.{
  GitLabJson, GlCommit, GlIssue, GlMergeRequest, GlNote,
}

module _ (P : Activity → Type 0) (lib : Formats) (json : GitLabJson) (net : Network) (rounds : ℕ)
    (c : ApiClient) where
  commits_page :
      (page : String)
      → ((x : GlCommit) → P (GitLab.commit_activity x))
      → Yields Activity P (GitLab.commits_of lib json net rounds c page)
  commits_page page h =
      Yields-bind P (parsed "parsing commits response: " (json.commits page))
        (λ cs. value (map GitLab.commit_activity cs))
        (λ cs.
          Yields-value P (map GitLab.commit_activity cs) (All-map P GitLab.commit_activity cs h))

  commits-Yields :
      (username : String) (repo : Repository) (since until : ℕ)
      → ((x : GlCommit) → P (GitLab.commit_activity x))
      → Yields Activity P (GitLab.fetch_commits lib json net rounds c username repo since until)
  unfolding GitLab.fetch_commits
  commits-Yields username repo since until h = search (yields_rules, commits_page, h) depth 9

  one_if : (b : Bool) (a : Activity) → P a → Yields Activity P (value (if b then a ∷ [] else []))
  one_if true a h = Yields-value P (a ∷ []) (h, tt)
  one_if false a h = Yields-value P [] tt

  among-Yields :
      (repos : NameSet) (web_url : String) (a : Activity)
      → P a
      → Yields Activity P (GitLab.if_among lib json net rounds c repos web_url a)
  among-Yields repos web_url a h =
      Yields-bind P (GitLab.extract_project_path lib web_url)
        (λ name. value (if flag name repos then a ∷ [] else []))
        (λ name. one_if (flag name repos) a h)

  issues_page :
      (repos : NameSet) (page : String)
      → ((i : GlIssue) → P (GitLab.issue_activity i))
      → Yields Activity P (GitLab.issues_of lib json net rounds c repos page)
  issues_page repos page h = search (yields_rules, among-Yields, h) depth 9

  issues-Yields :
      (username : String) (since until : ℕ) (repos : NameSet)
      → ((i : GlIssue) → P (GitLab.issue_activity i))
      → Yields Activity P (GitLab.search_issues lib json net rounds c username since until repos)
  unfolding GitLab.search_issues
  issues-Yields username since until repos h = search (yields_rules, issues_page, h) depth 9

  merged_page :
      (repos : NameSet) (page : String)
      → ((i : GlMergeRequest) → P (GitLab.merged_activity i))
      → Yields Activity P (GitLab.merged_of lib json net rounds c repos page)
  merged_page repos page h = search (yields_rules, among-Yields, h) depth 9

  merged-Yields :
      (username : String) (since until : ℕ) (repos : NameSet)
      → ((i : GlMergeRequest) → P (GitLab.merged_activity i))
      → Yields Activity P
          (GitLab.search_merged_mrs lib json net rounds c username since until repos)
  unfolding GitLab.search_merged_mrs
  merged-Yields username since until repos h = search (yields_rules, merged_page, h) depth 9

  notes_kept :
      (username : String) (since until : ℕ) (mr : GlMergeRequest) (notes : List GlNote)
      → ((n : GlNote)
          → GitLab.is_wanted username since until n ≡ true
          → P (GitLab.note_activity mr n))
      → Yields Activity P (
          value
            (map (GitLab.note_activity mr) (keep (GitLab.is_wanted username since until) notes)))
  notes_kept username since until mr notes h =
      Yields-value P
        (map (GitLab.note_activity mr) (keep (GitLab.is_wanted username since until) notes))
        (All-map_keep P (GitLab.note_activity mr) (GitLab.is_wanted username since until) notes h)

  discussions-Yields :
      (username : String) (repos : List Repository) (since until : ℕ)
      → ((mr : GlMergeRequest) (n : GlNote)
          → GitLab.is_wanted username since until n ≡ true
          → P (GitLab.note_activity mr n))
      → Yields Activity P
          (GitLab.search_mr_discussions lib json net rounds c username repos since until)
  unfolding GitLab.search_mr_discussions
  discussions-Yields username repos since until h = search (yields_rules, notes_kept, h) depth 12

  pub fetched-Yields :
      (username : String) (repo : Repository) (since until : ℕ) (types : List ActivityType)
      → (has_name activity_type_commit.name (make_type_set types) ≡ true
          → (x : GlCommit) → P (GitLab.commit_activity x))
      → Yields Activity P
          (GitLab.fetch_for_user lib json net rounds c username repo since until types)
  unfolding GitLab.fetch_for_user
  fetched-Yields username repo since until types on_commit =
      search (yields_rules, commits-Yields, on_commit) depth 9

  pub searched-Yields :
      (username : String) (repos : List Repository) (since until : ℕ) (types : List ActivityType)
      → (has_name activity_type_issue.name (make_type_set types) ≡ true
          → (i : GlIssue) → P (GitLab.issue_activity i))
      → (has_name activity_type_merged_pull_request.name (make_type_set types) ≡ true
          → (i : GlMergeRequest) → P (GitLab.merged_activity i))
      → (has_name activity_type_pull_request_review.name (make_type_set types) ≡ true
          → (mr : GlMergeRequest) (n : GlNote) → GitLab.is_wanted username since until n ≡ true
          → P (GitLab.note_activity mr n))
      → Yields Activity P
          (GitLab.search_activities lib json net rounds c username repos since until types)
  unfolding GitLab.search_activities
  searched-Yields username repos since until types on_issue on_merged on_note =
      search
        (
          yields_rules, issues-Yields, merged-Yields, discussions-Yields, on_issue, on_merged,
          on_note,
        )
        depth 12
