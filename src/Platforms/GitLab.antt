-- ===== src/Platforms/GitLab.antt =====
-- src/internal/infrastructure/gitlab: client.go, fetcher.go and factory.go.
pub mod Models
pub mod Pages
use contribution_tracker.Prelude.{
  ℕ, String, Bool, ◌||◌, ◌&&◌, not, Option, some, none, List, [], ◌∷◌, ◌++◌, ◌==◌, map, keep, ltb,
  flag, if◌then◌else◌, is_prefix,
}
use Prim.Native.Char.{Char}
use Prim.Native.String
use contribution_tracker.Domain.{
  Activity, ActivityType, Repository, commit, issue, merged_pull_request, pull_request_review,
  platform_git_lab, issue_state_open, issue_state_closed, review_state_commented,
  activity_type_commit, activity_type_issue, activity_type_merged_pull_request,
  activity_type_pull_request_review,
}
use contribution_tracker.Report.Fetching.{ActivityFetcher, FetcherFactory}
use contribution_tracker.Report.Outcomes.{Outcome, value, error, crashed, about, ◌>>=◌, text_of}
use contribution_tracker.Platforms.Http.{HttpReply, Network, Formats}
use contribution_tracker.Platforms.Client.{ApiClient, new_api_client, absolute, get_body, get_pages}
use contribution_tracker.Platforms.Sets.{
  NameSet, make_type_set, make_repo_set, has_name, if_asked, then_also, parsed, gathered,
}
use Models.{GlCommit, GlIssue, GlMergeRequest, GlNote, GlProject, GitLabJson}
use Pages.{next_page_url}

abbrev pub headers : ApiClient → List (String × String)
headers c = ("PRIVATE-TOKEN", c.api_key) ∷ []

abbrev pub next_url : Formats → String → HttpReply → String
next_url lib url r = next_page_url (lib.url_string url) (r.header "X-Next-Page")

abbrev pub put_before : Char → Option String → Option String
put_before c none = none
put_before c (some s) = some (String.◌∷◌ c s)

-- What stands before the first "/-/".
abbrev pub before_marker : String → Option String
before_marker String.[] = none
before_marker (String.◌∷◌ c s) =
    let later = before_marker s in
    if is_prefix "/-/" (String.◌∷◌ c s) then some String.[] else put_before c later

abbrev pub or_empty_text : Option String → String
or_empty_text none = ""
or_empty_text (some s) = s

-- `path[1:]` of an empty path panics.
abbrev pub project_of : Option String → Outcome String
project_of none = value ""
project_of (some String.[]) = crashed
project_of (some (String.◌∷◌ c path)) = value (or_empty_text (before_marker path))

unfoldable pub extract_project_path : Formats → String → Outcome String
extract_project_path lib web_url = project_of (lib.url_path web_url)

abbrev pub commit_activity : GlCommit → Activity
commit_activity c = commit (record {
  base = record { title = c.title; url = c.web_url; created_at = c.authored_date };
  sha = c.id;
  message = c.message;
})

abbrev pub issue_activity : GlIssue → Activity
issue_activity i = issue (record {
  base = record { title = i.title; url = i.web_url; created_at = i.created_at };
  title = i.title;
  state = if i.state == "closed" then issue_state_closed else issue_state_open;
  labels = i.labels;
})

abbrev pub merge_date : ℕ → Option ℕ → ℕ
merge_date created none = created
merge_date created (some t) = t

abbrev pub merged_activity : GlMergeRequest → Activity
merged_activity mr = merged_pull_request (record {
  base = record { title = mr.title; url = mr.web_url; created_at = mr.created_at };
  title = mr.title;
  merged_at = merge_date mr.created_at mr.merged_at;
})

abbrev pub note_activity : GlMergeRequest → GlNote → Activity
note_activity mr note = pull_request_review (record {
  base = record { title = mr.title; url = mr.web_url; created_at = note.created_at };
  pull_request_title = mr.title;
  state = review_state_commented;
  submitted_at = note.created_at;
})

-- A note that is not passed over: by the user and no system note, and not outside the time.
abbrev pub is_wanted : String → ℕ → ℕ → GlNote → Bool
is_wanted username since until note =
    not (note.is_system || not (note.author.username == username))
    && not (ltb note.created_at since || ltb until note.created_at)

abbrev pub discovered_repo : Formats → GlProject → Repository
discovered_repo lib p = record {
  id = lib.decimal p.id;
  name = p.name;
  full_name = p.path_with_namespace;
  url = p.web_url;
  platform = platform_git_lab;
  api_token = "";
}

module _ (lib : Formats) (json : GitLabJson) (net : Network) (rounds : ℕ) (c : ApiClient) where
  unfoldable pub get : String → Outcome String
  get url = get_body lib net (headers c) (absolute c url)

  unfoldable pub get_all : String → Outcome (List String)
  get_all url = get_pages lib net (headers c) (next_url lib) rounds (absolute c url)

  abbrev pub commits_of : String → Outcome (List Activity)
  commits_of page = parsed "parsing commits response: " (json.commits page) >>= λ commits.
      value (map commit_activity commits)

  unfoldable pub fetch_commits : String → Repository → ℕ → ℕ → Outcome (List Activity)
  fetch_commits username repo since until =
      let params : String =
        lib.encode (
          ("author", username)
          ∷ ("since", lib.rfc3339 since)
          ∷ ("until", lib.rfc3339 until)
          ∷ []) in
      get_all (
        text_of (
          "/api/v4/projects/"
          ∷ lib.path_escape repo.full_name
          ∷ "/repository/commits?"
          ∷ params
          ∷ []))
      >>= λ pages. gathered commits_of pages

  -- An item of one of the repositories becomes an activity.
  abbrev pub if_among : NameSet → String → Activity → Outcome (List Activity)
  if_among repos web_url a =
      extract_project_path lib web_url >>= λ name. value (if flag name repos then a ∷ [] else [])

  abbrev pub issues_of : NameSet → String → Outcome (List Activity)
  issues_of repos page = parsed "parsing issues response: " (json.issues page) >>= λ issues.
      gathered (λ (i : GlIssue). if_among repos i.web_url (issue_activity i)) issues

  -- The parameters that the two searches share, after the author and the state.
  abbrev pub created_between : ℕ → ℕ → List (String × String)
  created_between since until =
      ("created_after", lib.rfc3339 since)
      ∷ ("created_before", lib.rfc3339 until)
      ∷ ("per_page", "100")
      ∷ []

  unfoldable pub search_issues : String → ℕ → ℕ → NameSet → Outcome (List Activity)
  search_issues username since until repos =
      get_all (
        String.◌++◌ "/api/v4/issues?"
          (lib.encode (("author_username", username) ∷ created_between since until)))
      >>= λ pages. gathered (issues_of repos) pages

  abbrev pub merged_of : NameSet → String → Outcome (List Activity)
  merged_of repos page =
      parsed "parsing merge requests response: " (json.merge_requests page) >>= λ mrs.
      gathered (λ (mr : GlMergeRequest). if_among repos mr.web_url (merged_activity mr)) mrs

  unfoldable pub search_merged_mrs : String → ℕ → ℕ → NameSet → Outcome (List Activity)
  search_merged_mrs username since until repos =
      get_all (
        String.◌++◌ "/api/v4/merge_requests?" (
          lib.encode
            (("author_username", username) ∷ ("state", "merged") ∷ created_between since until)))
      >>= λ pages. gathered (merged_of repos) pages

  abbrev pub notes_of : String → String → ℕ → ℕ → GlMergeRequest → Outcome (List Activity)
  notes_of project username since until mr =
      get (
        text_of (
          "/api/v4/projects/"
          ∷ project
          ∷ "/merge_requests/"
          ∷ lib.decimal mr.iid
          ∷ "/notes?per_page=100"
          ∷ []))
      >>= λ body. parsed "parsing notes response: " (json.notes body) >>= λ notes.
          value (map (note_activity mr) (keep (is_wanted username since until) notes))

  -- One round of `searchMRDiscussions`, for a repository.
  abbrev pub discussions_of : String → ℕ → ℕ → Repository → Outcome (List Activity)
  discussions_of username since until repo =
      let project : String = lib.path_escape repo.full_name in
      let params : String = lib.encode (
        ("state", "all")
        ∷ ("updated_after", lib.rfc3339 since)
        ∷ ("updated_before", lib.rfc3339 until)
        ∷ ("per_page", "100")
        ∷ []) in
      get (text_of ("/api/v4/projects/" ∷ project ∷ "/merge_requests?" ∷ params ∷ [])) >>= λ body.
      parsed "parsing merge requests response: " (json.merge_requests body) >>= λ mrs.
      gathered (notes_of project username since until) mrs

  unfoldable pub search_mr_discussions : String → List Repository → ℕ → ℕ → Outcome (List Activity)
  search_mr_discussions username repos since until =
      gathered (discussions_of username since until) repos

  unfoldable pub fetch_for_user :
      String → Repository → ℕ → ℕ → List ActivityType → Outcome (List Activity)
  fetch_for_user username repo since until types =
      if_asked (has_name activity_type_commit.name (make_type_set types)) "fetching commits: "
        (fetch_commits username repo since until)

  unfoldable pub search_activities :
      String → List Repository → ℕ → ℕ → List ActivityType → Outcome (List Activity)
  search_activities username repos since until types =
      let set : NameSet = make_type_set types in
      then_also
        (if_asked (has_name activity_type_issue.name set) "searching issues: "
          (search_issues username since until (make_repo_set repos)))
        (then_also
          (if_asked (has_name activity_type_merged_pull_request.name set) "searching merged MRs: "
            (search_merged_mrs username since until (make_repo_set repos)))
          (if_asked (has_name activity_type_pull_request_review.name set)
            "searching MR discussions: " (search_mr_discussions username repos since until)))

  abbrev pub repos_of : String → Outcome (List Repository)
  repos_of page = parsed "parsing projects response: " (json.projects page) >>= λ projects.
      value (map (discovered_repo lib) projects)

  -- The username is not used: the projects are those of the token's owner.
  unfoldable pub discover_user_repos : String → Outcome (List Repository)
  discover_user_repos username =
      about "fetching user projects: " (get_all "/api/v4/projects?membership=true&per_page=100")
      >>= λ pages. gathered repos_of pages

  unfoldable pub new_activity_fetcher : ActivityFetcher
  new_activity_fetcher = record {
    fetch_for_user = fetch_for_user;
    search_activities = search_activities;
    discover_user_repos = some discover_user_repos;
  }

-- `FetcherFactory.Build`
unfoldable pub factory : Formats → GitLabJson → Network → ℕ → String → FetcherFactory
factory lib json net rounds base_url api_key =
    new_activity_fetcher lib json net rounds (new_api_client base_url api_key)
