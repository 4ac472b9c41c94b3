-- ===== src/Report/Unended.antt =====
-- Calls of a fetcher that do not end: a panic, which ends the program, or an endless loop.
use contribution_tracker.Prelude.{
  String, ◌≡◌, refl, Bool, false, ◌⊎◌, inl, inr, ◌&&◌, Option, none, some, List, [], ◌∷◌, ◌++◌, map,
  all, arith,
}
use contribution_tracker.Domain.{GitPlatform, Repository, User, get_platform_username}
use contribution_tracker.Report.{ReportQuery, calls, discovery, group_ends, wait_returns}
use contribution_tracker.Report.Outcomes.{ends}
use contribution_tracker.Report.Fetching.{ActivityFetcher, Registry, build}
use contribution_tracker.Report.Groups.{FetcherGroup}

-- One of the calls that a report for the query makes of a fetcher does not end.
abbrev pub Hangs : ReportQuery → ActivityFetcher → Type 0
Hangs q f =
    ((username : String) × (r : Repository) × (ends
          (f.fetch_for_user username r q.since q.until q.types)
        ≡ false))
    ⊎ (((username : String) × (repos : List Repository) × (ends
              (f.search_activities username repos q.since q.until q.types)
            ≡ false))
        ⊎ ((username : String) × (ends (discovery f username) ≡ false)))

-- The registry builds such a fetcher.
abbrev pub Unended : Registry → ReportQuery → Type 0
Unended registry q =
    (p : GitPlatform) × (token : String) × (f : ActivityFetcher) × (build registry p token ≡ some f)
    × Hangs q f

both_false : (a b : Bool) → (a && b) ≡ false → (a ≡ false) ⊎ (b ≡ false)
both_false a b e = ground arith

calls-Hangs :
    (q : ReportQuery) (f : ActivityFetcher) (username : String) (some_repos repos : List Repository)
    → all ends (
        map (λ r. f.fetch_for_user username r q.since q.until q.types) some_repos
        ++ f.search_activities username repos q.since q.until q.types ∷ [])
      ≡ false
    → Hangs q f
calls-Hangs q f username [] repos e = inr (inl (username, repos, ground arith))
calls-Hangs q f username (r ∷ rs) repos e =
    elim (both_false (ends (f.fetch_for_user username r q.since q.until q.types)) _ e) [
      | inl here ↦ inl (username, r, here)
      | inr later ↦ calls-Hangs q f username rs repos later
    ]

group-Unended :
    (registry : Registry) (q : ReportQuery) (u : User) (g : FetcherGroup)
    (o : Option ActivityFetcher)
    → build registry g.platform g.token ≡ o
    → group_ends o u q g ≡ false
    → Unended registry q
unfolding calls
group-Unended registry q u g none built e = cc
group-Unended registry q u g (some f) built e =
    let username : String = get_platform_username u g.platform in
    (
      g.platform,
      g.token,
      f,
      built,
      elim (both_false (ends (discovery f username)) _ e) [
        | inl found ↦ inr (inr (username, found))
        | inr called ↦ calls-Hangs q f username g.repos g.repos called
      ],
    )

-- Where the wait for a member does not return, one of the calls does not end.
pub wait-Unended :
    (registry : Registry) (u : User) (q : ReportQuery) (gs : List FetcherGroup)
    → wait_returns registry u q gs ≡ false
    → Unended registry q
unfolding wait_returns
wait-Unended registry u q [] e = cc
wait-Unended registry u q (g ∷ gs) e =
    elim (both_false (group_ends (build registry g.platform g.token) u q g)
      (wait_returns registry u q gs) e) [
        | inl here ↦ group-Unended registry q u g (build registry g.platform g.token) refl here
        | inr later ↦ wait-Unended registry u q gs later
      ]
