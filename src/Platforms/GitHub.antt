-- ===== src/Platforms/GitHub.antt =====
-- src/internal/infrastructure/github: client.go, fetcher.go and factory.go.
pub mod Models
pub mod Links
use contribution_tracker.Prelude.{
  ℕ, String, Bool, ◌||◌, ◌&&◌, not, Option, some, none, List, [], ◌∷◌, ◌++◌, ◌==◌, map, keep, ltb,
  if◌then◌else◌,
}
use Prim.Native.String
use contribution_tracker.Domain.{
  Activity, ActivityType, Repository, commit, issue, merged_pull_request, pull_request_review,
  platform_git_hub, issue_state_open, issue_state_closed, review_state_approved,
  review_state_changes_requested, review_state_commented, activity_type_commit, activity_type_issue,
  activity_type_merged_pull_request, activity_type_pull_request_review,
}
use contribution_tracker.Report.Fetching.{ActivityFetcher, FetcherFactory}
use contribution_tracker.Report.Outcomes.{Outcome, value, error, about, ◌>>=◌, text_of}
use contribution_tracker.Platforms.Http.{HttpReply, Network, Formats}
use contribution_tracker.Platforms.Client.{ApiClient, new_api_client, absolute, get_body, get_pages}
use contribution_tracker.Platforms.Sets.{
  NameSet, make_type_set, make_repo_set, has_name, if_asked, then_also, parsed, gathered,
}
use Models.{GhCommit, GhIssue, GhPrRef, GhRepository, GhReview, GitHubJson}
use Links.{parse_next_link}

abbrev pub headers : ApiClient → List (String × String)
headers c =
    ("Authorization", String.◌++◌ "Bearer " c.api_key)
    ∷ ("Accept", "application/vnd.github+json")
    ∷ []

abbrev pub next_url : String → HttpReply → String
next_url url r = parse_next_link (r.header "Link")

abbrev pub commit_activity : GhCommit → Activity
commit_activity c = commit (record {
  base = record { title = c.commit.message; url = c.html_url; created_at = c.commit.author.date };
  sha = c.sha;
  message = c.commit.message;
})

abbrev pub map_review_state : String → String
map_review_state state =
    if state == "APPROVED"
    then review_state_approved
    else if state == "CHANGES_REQUESTED"
    then review_state_changes_requested
    else review_state_commented

abbrev pub review_activity : GhIssue → GhReview → Activity
review_activity pr r = pull_request_review (record {
  base = record { title = pr.title; url = r.html_url; created_at = r.submitted_at };
  pull_request_title = pr.title;
  state = map_review_state r.state;
  submitted_at = r.submitted_at;
})

-- A review that is not passed over: by the user, and not outside the time.
abbrev pub is_wanted : String → ℕ → ℕ → GhReview → Bool
is_wanted username since until r =
    (r.user.login == username) && not (ltb r.submitted_at since || ltb until r.submitted_at)

abbrev pub issue_activity : GhIssue → Activity
issue_activity i = issue (record {
  base = record { title = i.title; url = i.html_url; created_at = i.created_at };
  title = i.title;
  state = if i.state == "closed" then issue_state_closed else issue_state_open;
  labels = map (λ l. l.name) i.labels;
})

-- `item.PullRequest.MergedAt`, or the date of creation where either pointer is nil.
abbrev pub merge_date : ℕ → Option GhPrRef → ℕ
merge_date created none = created
merge_date created (some pr) = elim pr.merged_at [ some t ↦ t | none ↦ created ]

abbrev pub merged_activity : GhIssue → Activity
merged_activity i = merged_pull_request (record {
  base = record { title = i.title; url = i.html_url; created_at = i.created_at };
  title = i.title;
  merged_at = merge_date i.created_at i.pull_request;
})

abbrev pub discovered_repo : Formats → GhRepository → Repository
discovered_repo lib r = record {
  id = lib.decimal r.id;
  name = r.name;
  full_name = r.full_name;
  url = r.html_url;
  platform = platform_git_hub;
  api_token = "";
}

-- `visit` is the order in which Go visits a map, and `rounds` the number of pages that a call of
-- `GetAll` may read.
module _ (lib : Formats) (json : GitHubJson) (net : Network) (visit : NameSet → NameSet)
    (rounds : ℕ) (c : ApiClient) where
  unfoldable pub get : String → Outcome String
  get url = get_body lib net (headers c) (absolute c url)

  unfoldable pub get_all : String → Outcome (List String)
  get_all url = get_pages lib net (headers c) next_url rounds (absolute c url)

  abbrev pub commits_of : String → Outcome (List Activity)
  commits_of page = parsed "parsing commits response: " (json.commits page) >>= λ commits.
      value (map commit_activity commits)

  unfoldable pub fetch_commits : String → Repository → ℕ → ℕ → Outcome (List Activity)
  fetch_commits username repo since until =
      let params : String =
        lib.encode (
          ("author", username)
          ∷ ("since", lib.rfc3339 since)
          ∷ ("until", lib.rfc3339 until)
          ∷ []) in
      get_all (text_of ("/repos/" ∷ repo.full_name ∷ "/commits?" ∷ params ∷ [])) >>= λ pages.
      gathered commits_of pages

  -- `created:<since>..<until>`
  abbrev pub created_between : ℕ → ℕ → String
  created_between since until = text_of (" created:" ∷ lib.date since ∷ ".." ∷ lib.date until ∷ [])

  abbrev pub searched : String → Outcome (List GhIssue)
  searched q = get (String.◌++◌ "/search/issues?" (lib.encode (("q", q) ∷ []))) >>= λ body.
      parsed "parsing search response: " (json.search body)

  abbrev pub reviews_of : String → Repository → ℕ → ℕ → GhIssue → Outcome (List Activity)
  reviews_of username repo since until pr =
      get
        (text_of ("/repos/" ∷ repo.full_name ∷ "/pulls/" ∷ lib.decimal pr.number ∷ "/reviews" ∷ []))
      >>= λ body. parsed "parsing reviews response: " (json.reviews body) >>= λ reviews.
          value (map (review_activity pr) (keep (is_wanted username since until) reviews))

  unfoldable pub fetch_reviews : String → Repository → ℕ → ℕ → Outcome (List Activity)
  fetch_reviews username repo since until =
      searched (
        text_of (
          "reviewed-by:" ∷ username ∷ " repo:" ∷ repo.full_name ∷ created_between since until ∷ []))
      >>= λ prs. gathered (reviews_of username repo since until) prs

  -- The searches for one kind of item, a repository at a time.
  abbrev pub search_each : String → String → ℕ → ℕ → NameSet → Outcome (List GhIssue)
  search_each username kind since until repos =
      gathered
        (λ (e : String × Bool). searched (
          text_of
            ("author:" ∷ username ∷ kind ∷ " repo:" ∷ e.0 ∷ created_between since until ∷ [])))
        (visit repos)

  unfoldable pub search_issues : String → ℕ → ℕ → NameSet → Outcome (List Activity)
  search_issues username since until repos =
      search_each username " type:issue" since until repos >>= λ items.
      value (map issue_activity items)

  unfoldable pub search_merged_prs : String → ℕ → ℕ → NameSet → Outcome (List Activity)
  search_merged_prs username since until repos =
      search_each username " type:pr is:merged" since until repos >>= λ items.
      value (map merged_activity items)

  unfoldable pub fetch_for_user :
      String → Repository → ℕ → ℕ → List ActivityType → Outcome (List Activity)
  fetch_for_user username repo since until types =
      let set : NameSet = make_type_set types in
      then_also
        (if_asked (has_name activity_type_commit.name set) "fetching commits: "
          (fetch_commits username repo since until))
        (if_asked (has_name activity_type_pull_request_review.name set) "fetching reviews: "
          (fetch_reviews username repo since until))

  unfoldable pub search_activities :
      String → List Repository → ℕ → ℕ → List ActivityType → Outcome (List Activity)
  search_activities username repos since until types =
      let set : NameSet = make_type_set types in
      then_also
        (if_asked (has_name activity_type_issue.name set) "searching issues: "
          (search_issues username since until (make_repo_set repos)))
        (if_asked (has_name activity_type_merged_pull_request.name set) "searching merged PRs: "
          (search_merged_prs username since until (make_repo_set repos)))

  abbrev pub repos_of : String → Outcome (List Repository)
  repos_of page = parsed "parsing repos response: " (json.repositories page) >>= λ repos.
      value (map (discovered_repo lib) repos)

  unfoldable pub discover_user_repos : String → Outcome (List Repository)
  discover_user_repos username =
      about "fetching user repos: "
        (get_all (text_of ("/users/" ∷ lib.path_escape username ∷ "/repos?per_page=100" ∷ [])))
      >>= λ pages. gathered repos_of pages

  unfoldable pub new_activity_fetcher : ActivityFetcher
  new_activity_fetcher = record {
    fetch_for_user = fetch_for_user;
    search_activities = search_activities;
    discover_user_repos = some discover_user_repos;
  }

-- `FetcherFactory.Build`
unfoldable pub factory :
    Formats → GitHubJson → Network → (NameSet → NameSet) → ℕ → String → FetcherFactory
factory lib json net visit rounds base_url api_key =
    new_activity_fetcher lib json net visit rounds (new_api_client base_url api_key)
