-- ===== src/Platforms/Complete.antt =====
-- The activities that the fetchers give against the items on the pages that the links lead to.
use contribution_tracker.Prelude.{
  ℕ, String, ◌≡◌, ◌≢◌, refl, sym, ap, ◌∙◌, ◌≤◌, ◌||◌, Bool, true, false, Option, some, none, List,
  [], ◌∷◌, ◌==◌, map, keep, length, All, contains, flag, insert, lookup, lookup-insert,
  if◌then◌else◌, arith,
}
use mathlib.Core.List.{flatten}
use Prim.Native.String
use contribution_tracker.Domain.{Activity, Repository}
use contribution_tracker.Database.Session.{Result, ok}
use contribution_tracker.Report.Outcomes.{Outcome, value, ◌>>=◌, text_of}
use contribution_tracker.Platforms.Http.{Network, Formats}
use contribution_tracker.Platforms.Client.{ApiClient, absolute}
use contribution_tracker.Platforms.Client.Paging.{Chain, Chain-get_pages}
use contribution_tracker.Platforms.Sets.{
  NameSet, gathered, parsed, then_also, make_repo_set, add_repos,
}
use contribution_tracker.Platforms.GitHub
use contribution_tracker.Platforms.GitHub.Models.{GitHubJson, GhCommit}
use contribution_tracker.Platforms.GitLab
use contribution_tracker.Platforms.GitLab.Models.{GitLabJson, GlIssue}

uncons : {A : Type 0} {a b : A} {xs ys : List A} → (a ∷ xs) ≡ (b ∷ ys) → (a ≡ b) × (xs ≡ ys)
uncons e = (cc, cc)

-- A loop over pages, of which each parses and gives what `h` makes of its items.
gathered_pages :
    {X : Type 0} (text : String) (read : String → Result (List X))
    (g : List X → Outcome (List Activity)) (h : List X → List Activity) (pages : List String)
    (xss : List (List X))
    → map read pages ≡ map ok xss
    → All (λ xs. g xs ≡ value (h xs)) xss
    → gathered (λ page. parsed text (read page) >>= g) pages ≡ value (flatten (map h xss))
unfolding flatten
gathered_pages text read g h [] [] e made = refl
gathered_pages text read g h [] (xs ∷ xss) e made = cc
gathered_pages text read g h (p ∷ ps) [] e made = cc
gathered_pages text read g h (p ∷ ps) (xs ∷ xss) e made =
    let (first, rest) = uncons e in
    rw (first, made.0, gathered_pages text read g h ps xss rest made.1)

All-any : {X : Type 0} (P : X → Type 0) (xs : List X) → ((x : X) → P x) → All P xs
All-any P [] h = tt
All-any P (x ∷ xs) h = (h x, All-any P xs h)

module _ (lib : Formats) (json : GitHubJson) (net : Network) (visit : NameSet → NameSet)
    (rounds : ℕ) (c : ApiClient) where
  -- Where the links lead from the first page to a last one, there are as many rounds as pages, and each
  -- page parses as a list of commits: `fetchCommits` gives an activity for each commit of each page, in
  -- their order.
  pub fetch_commits-all :
      (username : String) (repo : Repository) (since until : ℕ) (pages : List String)
      (commits : List (List GhCommit))
      → Chain lib net
          (GitHub.headers c)
          GitHub.next_url
          (absolute c (
            text_of (
              "/repos/"
              ∷ repo.full_name
              ∷ "/commits?"
              ∷ lib.encode (
                  ("author", username)
                  ∷ ("since", lib.rfc3339 since)
                  ∷ ("until", lib.rfc3339 until)
                  ∷ [])
              ∷ [])))
          pages
      → length pages ≤ rounds
      → map json.commits pages ≡ map ok commits
      → GitHub.fetch_commits lib json net visit rounds c username repo since until
        ≡ value (flatten (map (map GitHub.commit_activity) commits))
  unfolding GitHub.fetch_commits GitHub.get_all
  fetch_commits-all username repo since until pages commits chain short reads = rw (
    Chain-get_pages lib net (GitHub.headers c) GitHub.next_url rounds _ pages chain short,
    gathered_pages "parsing commits response: " json.commits
        (λ cs. value (map GitHub.commit_activity cs)) (map GitHub.commit_activity) pages commits
        reads (All-any _ commits (λ cs. refl)),
  )

flag-insert : (n k : String) (set : NameSet) → flag n (insert k true set) ≡ (k == n || flag n set)
flag-insert n k set = by_key (k == n) (lookup-insert k n true set)
  where
    by_key :
        (b : Bool)
        → lookup n (insert k true set) ≡ (if b then some true else lookup n set)
        → flag n (insert k true set) ≡ (b || flag n set)
    by_key true e = ap (λ o. elim o [ none ↦ false | some b ↦ b ]) e
    by_key false e = ap (λ o. elim o [ none ↦ false | some b ↦ b ]) e

add_repos-flag :
    (n : String) (set : NameSet) (repos : List Repository)
    → flag n (add_repos set repos) ≡ (contains n (map (λ r. r.full_name) repos) || flag n set)
add_repos-flag n set [] = refl
add_repos-flag n set (r ∷ rs) =
    add_repos-flag n (insert r.full_name true set) rs
    ∙ ap (λ b. contains n (map (λ r. r.full_name) rs) || b) (flag-insert n r.full_name set)
    ∙ shuffled (contains n (map (λ r. r.full_name) rs)) (r.full_name == n) (flag n set)
  where
    shuffled : (a b c : Bool) → (a || (b || c)) ≡ ((b || a) || c)
    shuffled a b c = ground arith

-- The set that `makeRepoSet` makes has the repositories' full names.
make_repo_set-flag :
    (n : String) (repos : List Repository)
    → flag n (make_repo_set repos) ≡ contains n (map (λ r. r.full_name) repos)
unfolding make_repo_set
make_repo_set-flag n repos =
    add_repos-flag n [] repos ∙ or_false (contains n (map (λ r. r.full_name) repos))
  where
    or_false : (b : Bool) → (b || false) ≡ b
    or_false b = ground arith

-- An issue whose URL's path has the full name of one of the repositories.
abbrev pub is_issue_of : Formats → List Repository → GlIssue → Bool
is_issue_of lib repos i = elim (GitLab.extract_project_path lib i.web_url) [
  | value name ↦ contains name (map (λ r. r.full_name) repos)
  | _ ↦ false
]

-- Only an empty path makes `extractProjectPath` crash.
project-value :
    (lib : Formats) (url : String)
    → lib.url_path url ≢ some ""
    → (name : String) × (GitLab.extract_project_path lib url ≡ value name)
unfolding GitLab.extract_project_path
project-value lib url h = by_path (lib.url_path url) h
  where
    by_path :
        (p : Option String) → p ≢ some "" → (name : String) × (GitLab.project_of p ≡ value name)
    by_path none h = ("", refl)
    by_path (some String.[]) h = absurd (h refl)
    by_path (some (String.◌∷◌ c path)) h = (_, refl)

module _ (lib : Formats) (json : GitLabJson) (net : Network) (rounds : ℕ) (c : ApiClient)
    (repos : List Repository) where
  issues_kept :
      (is : List GlIssue)
      → All (λ i. lib.url_path i.web_url ≢ some "") is
      → gathered
          (λ (i : GlIssue).
            GitLab.if_among lib json net rounds c
              (make_repo_set repos)
              i.web_url
              (GitLab.issue_activity i))
          is
        ≡ value (map GitLab.issue_activity (keep (is_issue_of lib repos) is))
  issues_kept [] h = refl
  issues_kept (i ∷ is) (h, hs) =
      let (name, named) = project-value lib i.web_url h in
      rw (issues_kept is hs, named, make_repo_set-flag name repos, sym (is_issue name named))
        (one_more (is_issue_of lib repos i))
    where
      is_issue :
          (name : String)
          → GitLab.extract_project_path lib i.web_url ≡ value name
          → is_issue_of lib repos i ≡ contains name (map (λ r. r.full_name) repos)
      is_issue name named = rw (named, is_issue_of)

      one_more :
          (b : Bool)
          → then_also
              (value (if b then GitLab.issue_activity i ∷ [] else []))
              (value (map GitLab.issue_activity (keep (is_issue_of lib repos) is)))
            ≡ value (
                map GitLab.issue_activity (
                  if b
                  then i ∷ keep (is_issue_of lib repos) is
                  else keep (is_issue_of lib repos) is))
      one_more true = refl
      one_more false = refl

  -- Where the pages' headers lead from the first page to a last one, there are as many rounds as pages,
  -- each page parses as a list of issues, and none of these has a URL with an empty path:
  -- `searchIssues` gives an activity for each issue whose URL has the full name of one of the
  -- repositories, in their order, and nothing else.
  pub search_issues-all :
      (username : String) (since until : ℕ) (pages : List String) (issues : List (List GlIssue))
      → Chain lib net
          (GitLab.headers c)
          (GitLab.next_url lib)
          (absolute c (
            String.◌++◌ "/api/v4/issues?" (
              lib.encode (
                ("author_username", username)
                ∷ GitLab.created_between lib json net rounds c since until))))
          pages
      → length pages ≤ rounds
      → map json.issues pages ≡ map ok issues
      → All (All (λ i. lib.url_path i.web_url ≢ some "")) issues
      → GitLab.search_issues lib json net rounds c username since until (make_repo_set repos)
        ≡ value (
            flatten
              (map (λ is. map GitLab.issue_activity (keep (is_issue_of lib repos) is)) issues))
  unfolding GitLab.search_issues GitLab.get_all
  search_issues-all username since until pages issues chain short reads paths = rw (
    Chain-get_pages lib net (GitLab.headers c) (GitLab.next_url lib) rounds _ pages chain short,
    gathered_pages "parsing issues response: " json.issues
        (λ is.
          gathered
            (λ (i : GlIssue).
              GitLab.if_among lib json net rounds c (make_repo_set repos) i.web_url
                (GitLab.issue_activity i))
            is)
        (λ is. map GitLab.issue_activity (keep (is_issue_of lib repos) is)) pages issues reads
        (each issues paths),
  )
    where
      each :
          (iss : List (List GlIssue))
          → All (All (λ i. lib.url_path i.web_url ≢ some "")) iss
          → All
              (λ is.
                gathered
                  (λ (i : GlIssue).
                    GitLab.if_among lib json net rounds c
                      (make_repo_set repos)
                      i.web_url
                      (GitLab.issue_activity i))
                  is
                ≡ value (map GitLab.issue_activity (keep (is_issue_of lib repos) is)))
              iss
      each [] h = tt
      each (is ∷ iss) (h, hs) = (issues_kept is h, each iss hs)
