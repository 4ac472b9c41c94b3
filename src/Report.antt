-- ===== src/Report.antt =====
-- src/internal/application/report_service.go: `ReportService`, dto.go and events.go.
-- Go fixes neither the order in which a map is visited nor the order in which goroutines run: both
-- come in as functions, `Order`, of which the theorems assume what Go promises.
pub mod Outcomes
pub mod Fetching
pub mod Groups
pub mod Keys
pub mod Counts
pub mod Visibility
pub mod Totals
pub mod Unended
pub mod Delivery
pub mod Contents
pub mod Partition
use contribution_tracker.Prelude.{
  ℕ, String, Bool, true, false, Option, none, some, List, [], ◌∷◌, ◌++◌, ◌==◌, ◌&&◌, not,
  if◌then◌else◌, map, all, contains, flag,
}
use Prim.Native.String
use contribution_tracker.Domain.{
  Activity, ActivityType, Repository, Role, RoleSet, Team, User, role_admin, get_platform_username,
}
use contribution_tracker.Database.Session.{Result, ok, err, World}
use contribution_tracker.Database.Repositories
use contribution_tracker.Database.Teams
use contribution_tracker.Database.Users
use Outcomes.{Outcome, value, error, crashed, unfinished, ends}
use Fetching.{ActivityFetcher, Registry, build}
use Groups.{FetcherGroup, group_map}
use Counts.{ActivityCount, build_activity_counts}

pub record ReportQuery : Type 0 where
  pub team_id : String
  pub member_id : String
  pub caller_id : String
  pub caller_roles : RoleSet
  pub since : ℕ
  pub until : ℕ
  pub types : List ActivityType
  pub report_type : String

pub record UserReport : Type 0 where
  pub user : User
  pub counts : List ActivityCount
  pub activities : List Activity

-- The interface `ReportEvent`: a constructor for each type that implements it.
pub data ReportEvent : Type 0 where
  user_report : UserReport → ReportEvent
  complete : ReportEvent
  failed : String → ReportEvent

-- What a goroutine appends to `allActivities`, one list at a time, in its order.
abbrev pub Thread : Type 0
Thread = List (List Activity)

-- `groups_of` lists the map's groups, `counts_of` the entries of the counts, and `run` gives what
-- `allActivities` holds when every goroutine is done.
pub record Order : Type 0 where
  pub groups_of : List (String × FetcherGroup) → List (String × FetcherGroup)
  pub counts_of : List ActivityCount → List ActivityCount
  pub run : List Thread → List Activity

-- What a goroutine's calls append, one by one: errors are logged and passed over, and after a call that
-- does not end there is no other.
unfoldable pub appended : List (Outcome (List Activity)) → Thread
appended [] = []
appended (value found ∷ calls) = found ∷ appended calls
appended (error _ ∷ calls) = appended calls
appended (crashed ∷ calls) = []
appended (unfinished ∷ calls) = []

-- The calls in the body of a goroutine: the fetches one by one, then the search.
unfoldable pub calls :
    ActivityFetcher → String → ReportQuery → List Repository → List (Outcome (List Activity))
calls f username q repos =
    map (λ r. f.fetch_for_user username r q.since q.until q.types) repos
    ++ f.search_activities username repos q.since q.until q.types ∷ []

unfoldable pub thread : ActivityFetcher → String → ReportQuery → List Repository → Thread
thread f username q repos = appended (calls f username q repos)

-- `s.repos.Upsert` for each repository that was discovered; its result is dropped.
unfoldable pub upsert_all : List Repository → World → World
upsert_all [] w = w
upsert_all (r ∷ rs) w = upsert_all rs (Repositories.upsert r w).1

abbrev pub upsert_found : Outcome (List Repository) → World → World
upsert_found (value found) w = upsert_all found w
upsert_found (error _) w = w
upsert_found crashed w = w
upsert_found unfinished w = w

-- The call of `DiscoverUserRepos`, where the fetcher has it.
abbrev pub discovery : ActivityFetcher → String → Outcome (List Repository)
discovery f username = elim f.discover_user_repos [ none ↦ value [] | some d ↦ d username ]

-- One round of the loop over the groups, for a fetcher or the lack of one: the goroutine is started
-- where the discovery ends.
abbrev pub started :
    Option ActivityFetcher → User → FetcherGroup → ReportQuery → World → List Thread × World
started none member g q w = ([], w)
started (some f) member g q w =
    let username : String = get_platform_username member g.platform in
    (
      if ends (discovery f username) then thread f username q g.repos ∷ [] else [],
      upsert_found (discovery f username) w,
    )

-- Whether the round reaches the next one.
abbrev pub reaches_next : Option ActivityFetcher → User → FetcherGroup → Bool
reaches_next none member g = true
reaches_next (some f) member g = ends (discovery f (get_platform_username member g.platform))

unfoldable pub start_groups :
    Registry → User → ReportQuery → List FetcherGroup → World → List Thread × World
start_groups registry member q [] w = ([], w)
start_groups registry member q (g ∷ gs) w =
    let fetcher : Option ActivityFetcher = build registry g.platform g.token in
    let (first, w2) = started fetcher member g q w in
    let (rest, w3) = start_groups registry member q gs w2 in
    if reaches_next fetcher member g then (first ++ rest, w3) else (first, w2)

-- Whether every call for a group ends: the discovery and those of the goroutine.
abbrev pub group_ends : Option ActivityFetcher → User → ReportQuery → FetcherGroup → Bool
group_ends none member q g = true
group_ends (some f) member q g =
    let username : String = get_platform_username member g.platform in
    ends (discovery f username) && all ends (calls f username q g.repos)

-- Whether `wg.Wait()` returns for a member.
unfoldable pub wait_returns : Registry → User → ReportQuery → List FetcherGroup → Bool
wait_returns registry member q groups =
    all (λ g. group_ends (build registry g.platform g.token) member q g) groups

-- The report that is made once `wg.Wait()` returns.
unfoldable pub fetch_member_report :
    Order → Registry → User → List FetcherGroup → ReportQuery → World → UserReport × World
fetch_member_report order registry member groups q w =
    let (threads, w') = start_groups registry member q groups w in
    let activities = order.run threads in
    (
      record {
        user = member;
        counts = build_activity_counts order.counts_of activities;
        activities = activities;
      },
      w',
    )

-- Who is neither an administrator nor a leader of the team.
unfoldable pub is_only_member : ReportQuery → Team → Bool
is_only_member q team =
    not (flag role_admin q.caller_roles) && not (contains q.caller_id team.leader_ids)

unfoldable pub member_ids_for : ReportQuery → Team → List String
unfolding is_only_member
member_ids_for q team =
    if is_only_member q team
    then q.caller_id ∷ []
    else if not (q.member_id == "")
    then q.member_id ∷ []
    else team.member_ids

-- Where the wait for a member's goroutines does not return, no other event is sent: a panic in a
-- goroutine is not recovered and ends the program, and a call that goes on for ever keeps the loop.
-- After a panic the database is that of a schedule in which the loop had started every group.
unfoldable pub report_members :
    Order
    → Registry
    → List FetcherGroup
    → ReportQuery
    → List User
    → World
    → List ReportEvent × World
report_members order registry groups q [] w = (complete ∷ [], w)
report_members order registry groups q (u ∷ us) w =
    let (report, w2) = fetch_member_report order registry u groups q w in
    let (events, w3) = report_members order registry groups q us w2 in
    if wait_returns registry u q groups then (user_report report ∷ events, w3) else ([], w2)

abbrev pub groups_for : Order → List Repository → List FetcherGroup
groups_for order repos = map (λ e. e.1) (order.groups_of (group_map [] repos))

-- `out <- &ReportErrorEvent{…}; return`
abbrev pub report_error : String → String → World → List ReportEvent × World
report_error text e w = (failed (String.◌++◌ text e) ∷ [], w)

abbrev pub with_repos :
    Order
    → Registry
    → ReportQuery
    → List User
    → Result (List Repository)
    → World
    → List ReportEvent × World
with_repos order registry q us (err e) w = report_error "failed to load repos: " e w
with_repos order registry q us (ok rs) w =
    report_members order registry (groups_for order rs) q us w

abbrev pub with_members :
    Order → Registry → ReportQuery → Team → Result (List User) → World → List ReportEvent × World
with_members order registry q t (err e) w = report_error "failed to load members: " e w
with_members order registry q t (ok us) w =
    let (repos, w') = Repositories.find_by_ids t.repository_ids w in
    with_repos order registry q us repos w'

abbrev pub with_team :
    Order → Registry → ReportQuery → Result Team → World → List ReportEvent × World
with_team order registry q (err e) w = report_error "team not found: " e w
with_team order registry q (ok t) w =
    let (members, w') = Users.find_by_ids (member_ids_for q t) w in
    with_members order registry q t members w'

-- The events sent to `out`, in order.
unfoldable pub generate_report : Order → Registry → ReportQuery → World → List ReportEvent × World
generate_report order registry q w =
    let (team, w') = Teams.find_by_id q.team_id w in with_team order registry q team w'
