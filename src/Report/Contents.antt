-- ===== src/Report/Contents.antt =====
-- Which activities the reports of `GenerateReport` have: those that the registry's fetchers give.
use contribution_tracker.Prelude.{
  String, ◌≡◌, refl, Bool, true, false, Option, some, none, List, [], ◌∷◌, ◌++◌, All, All-append,
  map, if◌then◌else◌,
}
use contribution_tracker.Domain.{
  Activity, Repository, GitPlatform, Team, User, get_platform_username,
}
use contribution_tracker.Database.Session.{Result, ok, err, World}
use contribution_tracker.Report.{
  Order, ReportQuery, ReportEvent, Thread, user_report, complete, failed, appended, calls, thread,
  discovery, reaches_next, wait_returns, started, start_groups, fetch_member_report, report_members,
  with_repos, with_members, with_team, generate_report,
}
use contribution_tracker.Report.Outcomes.{Outcome, value, error, crashed, unfinished, ends}
use contribution_tracker.Report.Fetching.{ActivityFetcher, Registry, build}
use contribution_tracker.Report.Groups.{FetcherGroup}
use contribution_tracker.Report.Totals.{Interleaves, finished, append_next}

-- `P` holds of what a fetcher gives for a query.
pub record Gives (P : Activity → Type 0) (q : ReportQuery) (f : ActivityFetcher) : Type 0 where
  pub fetched :
      (username : String) (r : Repository) (found : List Activity)
      → f.fetch_for_user username r q.since q.until q.types ≡ value found
      → All P found
  pub searched :
      (username : String) (repos : List Repository) (found : List Activity)
      → f.search_activities username repos q.since q.until q.types ≡ value found
      → All P found

-- `P` holds of a report's activities.
abbrev pub Contains : (Activity → Type 0) → ReportEvent → Type 0
Contains P (user_report r) = All P r.activities
Contains P complete = Unit
Contains P (failed _) = Unit

-- What holds of the events holds where they are sent or not.
pub All-sent :
    (Q : ReportEvent → Type 0) (r : List ReportEvent × World) (w : World) (b : Bool)
    → All Q r.0
    → All Q (if b then r else ([], w)).0
All-sent Q r w true h = h
All-sent Q r w false h = tt

module _ (P : Activity → Type 0) where
  Interleaves-All :
      (ts : List Thread) (found : List Activity)
      → Interleaves ts found
      → All (All (All P)) ts
      → All P found
  Interleaves-All _ _ (finished ts e) h = tt
  Interleaves-All _ _ (append_next before after next rest later i) h =
      let (first, hs) = All-split before ((next ∷ rest) ∷ after) h in
      All-append P next later hs.0.0 (
        Interleaves-All (before ++ rest ∷ after) later i
          (All-append (All (All P)) before (rest ∷ after) first (hs.0.1, hs.1)))
    where
      All-split :
          (xs ys : List Thread)
          → All (All (All P)) (xs ++ ys)
          → All (All (All P)) xs × All (All (All P)) ys
      All-split [] ys h = (tt, h)
      All-split (x ∷ xs) ys (h, hs) = let (a, b) = All-split xs ys hs in ((h, a), b)

  module _ (q : ReportQuery) where
    abbrev Found : Outcome (List Activity) → Type 0
    Found o = (found : List Activity) → o ≡ value found → All P found

    appended-All : (os : List (Outcome (List Activity))) → All Found os → All (All P) (appended os)
    unfolding appended
    appended-All [] h = tt
    appended-All (value found ∷ os) (h, hs) = (h found refl, appended-All os hs)
    appended-All (error _ ∷ os) (h, hs) = appended-All os hs
    appended-All (crashed ∷ os) h = tt
    appended-All (unfinished ∷ os) h = tt

    fetches-All :
        (f : ActivityFetcher) (username : String) (repos : List Repository)
        → Gives P q f
        → All Found (map (λ r. f.fetch_for_user username r q.since q.until q.types) repos)
    fetches-All f username [] g = tt
    fetches-All f username (r ∷ rs) g = (g.fetched username r, fetches-All f username rs g)

    thread-All :
        (f : ActivityFetcher) (username : String) (repos : List Repository)
        → Gives P q f
        → All (All P) (thread f username q repos)
    unfolding thread calls
    thread-All f username repos g = appended-All _ (
        All-append Found (map (λ r. f.fetch_for_user username r q.since q.until q.types) repos)
          (f.search_activities username repos q.since q.until q.types ∷ [])
          (fetches-All f username repos g) (g.searched username repos, tt))

    module _ (registry : Registry)
        (gives : (p : GitPlatform) (token : String) (f : ActivityFetcher)
          → build registry p token ≡ some f
          → Gives P q f) where
      started-All :
          (o : Option ActivityFetcher) (member : User) (g : FetcherGroup) (w : World)
          → ((f : ActivityFetcher) → o ≡ some f → Gives P q f)
          → All (All (All P)) (started o member g q w).0
      started-All none member g w h = tt
      started-All (some f) member g w h =
          let username : String = get_platform_username member g.platform in
          begun _ (ends (discovery f username)) (thread-All f username g.repos (h f refl))
        where
          begun :
              (t : Thread) (b : Bool) → All (All P) t → All (All (All P)) (if b then t ∷ [] else [])
          begun t true k = (k, tt)
          begun t false k = tt

      start_groups-All :
          (member : User) (gs : List FetcherGroup) (w : World)
          → All (All (All P)) (start_groups registry member q gs w).0
      unfolding start_groups
      start_groups-All member [] w = tt
      start_groups-All member (g ∷ gs) w =
          let fetcher : Option ActivityFetcher = build registry g.platform g.token in
          let first = started-All fetcher member g w (gives g.platform g.token) in
          reached _ _ (reaches_next fetcher member g) first (
            All-append (All (All P)) (started fetcher member g q w).0
              (start_groups registry member q gs (started fetcher member g q w).1).0 first
              (start_groups-All member gs _))
        where
          reached :
              (r s : List Thread × World) (b : Bool)
              → All (All (All P)) s.0
              → All (All (All P)) r.0
              → All (All (All P)) (if b then r else s).0
          reached r s true k h = h
          reached r s false k h = k

      module _ (order : Order)
          (interleaved : (ts : List Thread) → Interleaves ts (order.run ts)) where
        report_members-Contains :
            (gs : List FetcherGroup) (us : List User) (w : World)
            → All (Contains P) (report_members order registry gs q us w).0
        unfolding report_members fetch_member_report
        report_members-Contains gs [] w = (tt, tt)
        report_members-Contains gs (u ∷ us) w =
            All-sent (Contains P) _ _ (wait_returns registry u q gs) (
              Interleaves-All (start_groups registry u q gs w).0 _ (interleaved _)
                  (start_groups-All u gs w),
              report_members-Contains gs us _,
            )

        with_repos-Contains :
            (us : List User) (r : Result (List Repository)) (w : World)
            → All (Contains P) (with_repos order registry q us r w).0
        with_repos-Contains us (err e) w = (tt, tt)
        with_repos-Contains us (ok rs) w = report_members-Contains _ us w

        with_members-Contains :
            (t : Team) (r : Result (List User)) (w : World)
            → All (Contains P) (with_members order registry q t r w).0
        with_members-Contains t (err e) w = (tt, tt)
        with_members-Contains t (ok us) w = with_repos-Contains us _ _

        with_team-Contains :
            (r : Result Team) (w : World) → All (Contains P) (with_team order registry q r w).0
        with_team-Contains (err e) w = (tt, tt)
        with_team-Contains (ok t) w = with_members-Contains t _ _

        pub generate_report-Contains :
            (w : World) → All (Contains P) (generate_report order registry q w).0
        unfolding generate_report
        generate_report-Contains w = with_team-Contains _ _
