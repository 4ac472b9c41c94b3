-- ===== src/Examples/Platforms.antt =====
-- The properties of the clients and fetchers with a small server and small libraries.
use contribution_tracker.Prelude.{
  ℕ, String, ◌≡◌, refl, ◌↔◌, ◌≤◌, false, some, none, [], ◌∷◌, ◌==◌, All, arith, if◌then◌else◌,
}
use mathlib.Core.List.{flatten}
use Prim.Native.String
use contribution_tracker.Domain.{activity_type_commit, activity_type_pull_request_review}
use contribution_tracker.Database.Session.{ok}
use contribution_tracker.Report.Outcomes.{value, unfinished}
use contribution_tracker.Platforms.Http.{HttpReply, Network, Formats, replied}
use contribution_tracker.Platforms.Client.{ApiClient, requested, get_pages}
use contribution_tracker.Platforms.Client.Paging.{
  Chain, ended, page, get_pages_iff, get_pages_endless,
}
use contribution_tracker.Platforms.GitHub
use contribution_tracker.Platforms.GitHub.Links.{parse_next_link}
use contribution_tracker.Platforms.GitHub.Models.{GitHubJson, GhCommit, GhIssue, GhReview}
use contribution_tracker.Platforms.GitLab
use contribution_tracker.Platforms.GitLab.Models.{GitLabJson, GlIssue}
use contribution_tracker.Platforms.GitLab.Pages.{next_page_url, split_params}
use contribution_tracker.Platforms.Wiring.{Outside, registry_of}
use contribution_tracker.Platforms.Sets.{make_repo_set}
use contribution_tracker.Platforms.Complete.{fetch_commits-all, search_issues-all}
use contribution_tracker.Platforms.Paths.{extract_project_path_iff}
use contribution_tracker.Platforms.NextLink.{Links, parse_next_link-Links}
use contribution_tracker.Platforms.Parameters.{next_page_url-params}
use contribution_tracker.Platforms.Types.{IsAsked, generate_report-IsAsked}
use contribution_tracker.Platforms.Dates.{IsReviewOf, generate_report-IsReviewOf}
use contribution_tracker.Report.{ReportQuery, generate_report}
use contribution_tracker.Report.Contents.{Contains}
use contribution_tracker.Examples.Data.{small_world, sequential, team_query, tracker}
use contribution_tracker.Examples.Reports.{one_by_one-Interleaves}

-- Every URL that is no empty text has the path "/org/tracker/-/issues/7".
abbrev plain_formats : Formats
plain_formats = record {
  decimal = λ _. "7";
  encode = λ _. "q";
  path_escape = λ s. s;
  url_string = λ s. s;
  url_path = λ url. if url == "" then none else some "/org/tracker/-/issues/7";
  rfc3339 = λ _. "2026-01-01T00:00:00Z";
  date = λ _. "2026-01-01";
}

abbrev fix : GhCommit
fix = record {
  sha = "abc";
  commit = record { message = "fix"; author = record { name = "bob"; email = ""; date = 3 } };
  html_url = "https://h/c";
}

abbrev pull : GhIssue
pull = record {
  id = 1;
  number = 4;
  title = "pull";
  state = "open";
  html_url = "https://h/p";
  created_at = 2;
  labels = [];
  repository = none;
  pull_request = none;
}

abbrev review_by : String → ℕ → GhReview
review_by login time = record {
  id = 2;
  state = "APPROVED";
  html_url = "https://h/r";
  submitted_at = time;
  user = record { login = login };
}

abbrev plain_github : GitHubJson
plain_github = record {
  commits = λ _. ok (fix ∷ []);
  search = λ _. ok (pull ∷ []);
  reviews = λ _. ok (review_by "" 5 ∷ review_by "" 50 ∷ review_by "ann" 5 ∷ []);
  repositories = λ _. ok [];
}

abbrev bug : String → GlIssue
bug url = record {
  id = 1;
  iid = 7;
  title = "bug";
  state = "opened";
  web_url = url;
  created_at = 2;
  labels = [];
}

abbrev plain_gitlab : GitLabJson
plain_gitlab = record {
  commits = λ _. ok [];
  issues = λ _. ok (bug "https://g/org/tracker/-/issues/7" ∷ bug "" ∷ []);
  merge_requests = λ _. ok [];
  notes = λ _. ok [];
  projects = λ _. ok [];
}

-- One page, without a next one.
abbrev last_page : HttpReply
last_page = record { status = 200; body = "last"; header = λ _. "" }

abbrev plain_net : Network
plain_net _ = replied last_page

abbrev client : ApiClient
client = record { base_url = "https://h"; api_key = "key" }

abbrev outside : Outside
outside = record {
  lib = plain_formats;
  github_json = plain_github;
  gitlab_json = plain_gitlab;
  net = plain_net;
  visit = λ set. set;
  rounds = 1;
}

abbrev review_query : ReportQuery
review_query = record team_query {
  types = activity_type_commit ∷ activity_type_pull_request_review ∷ [];
}

abbrev no_variables : String → String
no_variables _ = ""

generate_report-IsAsked_example :
    All
      (Contains (IsAsked (activity_type_commit ∷ activity_type_pull_request_review ∷ [])))
      (generate_report sequential (registry_of outside no_variables) review_query small_world).0
generate_report-IsAsked_example =
    generate_report-IsAsked outside no_variables sequential one_by_one-Interleaves review_query
      small_world

generate_report-IsReviewOf_example :
    All
      (Contains (IsReviewOf 0 10))
      (generate_report sequential (registry_of outside no_variables) review_query small_world).0
generate_report-IsReviewOf_example =
    generate_report-IsReviewOf outside no_variables sequential one_by_one-Interleaves review_query
      small_world

get_pages_iff_example :
    (get_pages plain_formats plain_net (GitHub.headers client) GitHub.next_url 1 "https://h/c"
      ≡ value ("last" ∷ []))
    ↔ (Chain plain_formats plain_net
          (GitHub.headers client)
          GitHub.next_url
          "https://h/c"
          ("last" ∷ [])
        × (1 ≤ 1))
get_pages_iff_example =
    get_pages_iff plain_formats plain_net (GitHub.headers client) GitHub.next_url 1 "https://h/c"
      ("last" ∷ [])

-- A page whose next page is the page itself.
abbrev circle : HttpReply
circle = record { status = 200; body = "circle"; header = λ _. "<https://h/a>; rel=\"next\"" }

circle_closed :
    (url : String)
    → url ≡ "https://h/a"
    → ((url == "") ≡ false)
      × ((r : HttpReply) × (requested plain_formats
              (λ _. replied circle)
              (GitHub.headers client)
              url
            ≡ value r)
          × (GitHub.next_url url r ≡ "https://h/a"))
unfolding parse_next_link
circle_closed url e = rw e (refl, (circle, refl, refl))

get_pages_endless_example :
    get_pages plain_formats
      (λ _. replied circle)
      (GitHub.headers client)
      GitHub.next_url
      9
      "https://h/a"
    ≡ unfinished
get_pages_endless_example =
    get_pages_endless plain_formats (λ _. replied circle) (GitHub.headers client) GitHub.next_url
      (λ url. url ≡ "https://h/a") circle_closed 9 "https://h/a" refl

fetch_commits-all_example :
    GitHub.fetch_commits plain_formats plain_github plain_net
      (λ set. set)
      1
      client
      "bob"
      tracker
      0
      9
    ≡ value (GitHub.commit_activity fix ∷ [])
unfolding flatten parse_next_link
fetch_commits-all_example =
    fetch_commits-all plain_formats plain_github plain_net (λ set. set) 1 client "bob" tracker 0 9
      ("last" ∷ []) ((fix ∷ []) ∷ []) (page _ last_page [] refl refl ended) (omega arith) refl

search_issues-all_example :
    GitLab.search_issues plain_formats plain_gitlab plain_net 1 client "bob" 0 9
      (make_repo_set (tracker ∷ []))
    ≡ value (GitLab.issue_activity (bug "https://g/org/tracker/-/issues/7") ∷ [])
unfolding flatten next_page_url GitLab.extract_project_path
search_issues-all_example =
    search_issues-all plain_formats plain_gitlab plain_net 1 client (tracker ∷ []) "bob" 0 9
      ("last" ∷ []) ((bug "https://g/org/tracker/-/issues/7" ∷ bug "" ∷ []) ∷ [])
      (page _ last_page [] refl refl ended) (omega arith) refl ((λ e. cc, (λ e. cc, tt)), tt)

extract_project_path_iff_example :
    (GitLab.extract_project_path plain_formats "https://g/x" ≡ value "org/tracker") ↔ (
      ((rest : String) × ("org/tracker/-/issues/7"
          ≡ String.◌++◌ "org/tracker" (String.◌++◌ "/-/" rest)))
      × (GitLab.before_marker "org/tracker/-" ≡ none))
extract_project_path_iff_example =
    extract_project_path_iff plain_formats "https://g/x" "/" "org/tracker/-/issues/7" "org/tracker"
      refl (λ e. cc)

next_page_url-params_example :
    (query' : String) × (next_page_url "https://g/api?a=1&page=2&b=3" "4"
      ≡ String.◌++◌ "https://g/api" (String.◌++◌ "?" query'))
    × (split_params query' ≡ "a=1" ∷ "page=4" ∷ "b=3" ∷ [])
next_page_url-params_example =
    next_page_url-params "https://g/api" "a=1&page=2&b=3" "4" refl refl refl

parse_next_link-Links_example : Links "<https://h/a?page=2>;  rel=\"next\"" "https://h/a?page=2"
unfolding parse_next_link
parse_next_link-Links_example =
    parse_next_link-Links "<https://h/a?page=2>;  rel=\"next\"" "https://h/a?page=2" refl (λ e. cc)
