-- ===== src/Examples/Reports.antt =====
-- The properties of reports at the small database.
use contribution_tracker.Prelude.{
  String, ◌≡◌, refl, sym, Bool, true, false, some, none, inl, inr, ◌==◌, if◌then◌else◌, eq_of_some,
  ◌⊎◌, ◌≤◌, List, [], ◌∷◌, ◌++◌, All, All-append, keep, append_assoc,
}
use mathlib.Core.Path.{subst}
use mathlib.Core.List.Permᴰ
use contribution_tracker.Domain.{activity_type_commit, GitPlatform, Repository, User}
use contribution_tracker.Report.{
  Thread, failed, generate_report, fetch_member_report, start_groups, member_ids_for,
}
use contribution_tracker.Report.Unended.{Hangs, Unended}
use contribution_tracker.Report.Fetching.{ActivityFetcher, build, built}
use contribution_tracker.Report.Groups.{FetcherGroup, group_map}
use contribution_tracker.Report.Visibility.{MaySee, Reports, generate_report-MaySee}
use contribution_tracker.Report.Delivery.{
  Delivers, Stops, generate_report-Delivers, generate_report-IsStream,
}
use contribution_tracker.Database.Calm.{loaded_user}
use contribution_tracker.Report.Totals.{
  Interleaves, finished, append_next, entries, tally, is_of, count_threads,
  fetch_member_report-counts,
}
use contribution_tracker.Report.Partition.{is_group, is_for, groups, one_group, group_map-one_group}
use contribution_tracker.Examples.Data.{
  small_db, small_world, small_registry, commit_fetcher, sequential, team_query, tracker, mirror,
  core_team, flat, one_by_one, bob,
}

generate_report-MaySee_example :
    All
      (Reports (MaySee team_query small_db))
      (generate_report sequential small_registry team_query small_world).0
generate_report-MaySee_example =
    generate_report-MaySee sequential small_registry team_query small_world

-- The fetcher of the small registry answers every call.
small_fetcher :
    (p : GitPlatform) (token : String) (f : ActivityFetcher)
    → build small_registry p token ≡ some f
    → f ≡ commit_fetcher
unfolding build
small_fetcher p token f e = named ("GITHUB" == p.name) e
  where
    named :
        (b : Bool)
        → built (if b then some (λ _. commit_fetcher) else none) token ≡ some f
        → f ≡ commit_fetcher
    named true e = sym (eq_of_some e)
    named false e = cc

small_registry-ends : ¬ (Unended small_registry team_query)
small_registry-ends (p, token, f, e, hangs) =
    answered (subst (Hangs team_query) (small_fetcher p token f e) hangs)
  where
    answered : Hangs team_query commit_fetcher → ⊥
    answered (inl (username, r, e)) = cc
    answered (inr (inl (username, repos, e))) = cc
    answered (inr (inr (username, e))) = cc

generate_report-Delivers_example :
    Delivers
      ("u-ann" ∷ "u-bob" ∷ [])
      (generate_report sequential small_registry team_query small_world).0
unfolding member_ids_for
generate_report-Delivers_example =
    generate_report-Delivers sequential small_registry team_query small_db "refused"
      "no rows in result set" core_team refl small_registry-ends

generate_report-IsStream_example :
    ((text : String) × ((generate_report sequential small_registry team_query small_world).0
        ≡ failed text ∷ []))
    ⊎ (((ids : List String) × Delivers ids
            (generate_report sequential small_registry team_query small_world).0)
        ⊎ (Unended small_registry team_query
            × (ids : List String) × Stops ids
                (generate_report sequential small_registry team_query small_world).0))
generate_report-IsStream_example =
    generate_report-IsStream sequential small_registry team_query small_world

abbrev grouped_repositories : List Repository
grouped_repositories = tracker ∷ mirror ∷ record tracker { id = "r-9"; api_token = "other" } ∷ []

group_map-one_group_example :
    keep (is_group tracker.platform tracker.api_token) (groups (group_map [] grouped_repositories))
    ≡ one_group tracker.platform tracker.api_token
        (keep (is_for tracker.platform tracker.api_token) grouped_repositories)
group_map-one_group_example =
    group_map-one_group tracker.platform tracker.api_token grouped_repositories
      (refl, (refl, (refl, tt)))

-- Goroutines that run one after the other interleave.
one_by_one-from :
    (before : List Thread)
    → All (λ t. t ≡ []) before
    → (t : Thread) (ts : List Thread) → Interleaves (before ++ t ∷ ts) (flat t ++ one_by_one ts)
one_by_one-from before h (found ∷ rest) ts =
    subst (Interleaves (before ++ (found ∷ rest) ∷ ts))
      (sym (append_assoc found (flat rest) (one_by_one ts)))
      (append_next before ts found rest (flat rest ++ one_by_one ts)
        (one_by_one-from before h rest ts))
one_by_one-from before h [] [] =
    finished (before ++ [] ∷ []) (All-append (λ t. t ≡ []) before ([] ∷ []) h (refl, tt))
one_by_one-from before h [] (t ∷ ts) =
    subst (λ l. Interleaves l (flat t ++ one_by_one ts)) (append_assoc before ([] ∷ []) (t ∷ ts))
      (one_by_one-from (before ++ [] ∷ []) (All-append (λ t. t ≡ []) before ([] ∷ []) h (refl, tt))
        t ts)

pub one_by_one-Interleaves : (ts : List Thread) → Interleaves ts (one_by_one ts)
one_by_one-Interleaves [] = finished [] tt
one_by_one-Interleaves (t ∷ ts) = one_by_one-from [] tt t ts

abbrev tracker_group : FetcherGroup
tracker_group = record {
  platform = tracker.platform;
  token = "key";
  repos = tracker ∷ tracker ∷ [];
}

abbrev bob_user : User
bob_user = loaded_user small_db bob

fetch_member_report-counts_example :
    (entries activity_type_commit
        (fetch_member_report sequential small_registry bob_user
          (tracker_group ∷ [])
          team_query
          small_world).0.counts
      ≤ 1)
    × (tally activity_type_commit
          (fetch_member_report sequential small_registry bob_user
            (tracker_group ∷ [])
            team_query
            small_world).0.counts
        ≡ count_threads
            (is_of activity_type_commit)
            (start_groups small_registry bob_user team_query (tracker_group ∷ []) small_world).0)
fetch_member_report-counts_example =
    fetch_member_report-counts sequential small_registry bob_user (tracker_group ∷ []) team_query
      small_world activity_type_commit (λ cs. Permᴰ.refl cs) one_by_one-Interleaves
