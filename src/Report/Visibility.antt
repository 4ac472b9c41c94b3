-- ===== src/Report/Visibility.antt =====
-- Whose report a caller gets: `GenerateReport` of report_service.go.
use contribution_tracker.Prelude.{
  String, ◌≡◌, refl, ap, ◌∙◌, true, List, [], ◌∷◌, ◌⊎◌, eq_iff, arith, contains, flag, All,
  All-keep,
}
use mathlib.Core.Path.{subst}
use contribution_tracker.Domain.{Team, User, Repository, role_admin}
use contribution_tracker.Database.Schema.{Db, UserRow, Link, has_link, linked}
use contribution_tracker.Database.Session.{Result, ok, err, World}
use contribution_tracker.Database.Success.{bind-ok, wrap-ok, query-ok, pure-ok}
use contribution_tracker.Database.Found.{IsLoaded, find_by_id-ok}
use contribution_tracker.Database.Links.{contains-linked}
use contribution_tracker.Database.Teams
use contribution_tracker.Database.Users
use contribution_tracker.Report.{
  Order, ReportQuery, ReportEvent, user_report, complete, failed, is_only_member, member_ids_for,
  report_members, with_repos, with_members, with_team, generate_report, fetch_member_report,
  wait_returns,
}
use contribution_tracker.Report.Contents.{All-sent}
use contribution_tracker.Report.Fetching.{Registry}
use contribution_tracker.Report.Groups.{FetcherGroup}

-- The caller's own report; for an administrator and for a leader of the team also that of the member
-- asked for and of the team's members.
abbrev pub MaySee : ReportQuery → Db → String → Type 0
MaySee q d user =
    (user ≡ q.caller_id)
    ⊎ (((flag role_admin q.caller_roles ≡ true)
          ⊎ (has_link q.team_id q.caller_id d.team_leaders ≡ true))
        × ((user ≡ q.member_id) ⊎ (has_link q.team_id user d.team_members ≡ true)))

abbrev pub Reports : (String → Type 0) → ReportEvent → Type 0
Reports P (user_report r) = P r.user.id
Reports P complete = Unit
Reports P (failed _) = Unit

load_users-All :
    (P : String → Type 0) (rows : List UserRow) (w w' : World) (us : List User)
    → All (λ r. P r.id) rows
    → Users.load_users rows w ≡ (ok us, w')
    → All (λ u. P u.id) us
unfolding Users.load_users Users.load_user
load_users-All P [] w w' us h e = subst (All (λ u. P u.id)) (pure-ok [] us w w' e).0 tt
load_users-All P (r ∷ rs) w w' us (h, hs) e =
    let (u, w1, e1, k1) = bind-ok _ _ w w' e in
    let (vs, w2, e2, k2) = bind-ok _ _ w1 w' k1 in
    let (_, w3, _, k3) = bind-ok _ _ w w1 e1 in
    let (same, _) = pure-ok _ u w3 w1 k3 in
    let (all, _) = pure-ok (u ∷ vs) us w2 w' k2 in
    subst (All (λ u. P u.id)) all
      (subst P (ap (λ u. u.id) same) h, load_users-All P rs w1 w2 vs hs e2)

find_by_ids-All :
    (P : String → Type 0) (ids : List String) (w w' : World) (us : List User)
    → ((id : String) → contains id ids ≡ true → P id)
    → Users.find_by_ids ids w ≡ (ok us, w')
    → All (λ u. P u.id) us
unfolding Users.find_by_ids
find_by_ids-All P ids w w' us h e =
    let (rows, w1, e1, k1) = bind-ok _ _ w w' e in
    let (same, _) = query-ok _ w w1 (wrap-ok _ _ w w1 e1) in
    load_users-All P rows w1 w' us
      (subst (All (λ r. P r.id)) same
        (All-keep (λ r. P r.id) (λ r. contains r.id ids) w.db.users (λ r. h r.id)))
      k1

report_members-Reports :
    (P : String → Type 0) (order : Order) (registry : Registry) (gs : List FetcherGroup)
    (q : ReportQuery) (us : List User) (w : World)
    → All (λ u. P u.id) us
    → All (Reports P) (report_members order registry gs q us w).0
unfolding report_members fetch_member_report
report_members-Reports P order registry gs q [] w h = (tt, tt)
report_members-Reports P order registry gs q (u ∷ us) w (h, hs) =
    All-sent (Reports P) _ _ (wait_returns registry u q gs)
      (h, report_members-Reports P order registry gs q us _ hs)

with_repos-Reports :
    (P : String → Type 0) (order : Order) (registry : Registry) (q : ReportQuery) (us : List User)
    (r : Result (List Repository)) (w : World)
    → All (λ u. P u.id) us
    → All (Reports P) (with_repos order registry q us r w).0
with_repos-Reports P order registry q us (err e) w h = (tt, tt)
with_repos-Reports P order registry q us (ok rs) w h =
    report_members-Reports P order registry _ q us w h

with_members-Reports :
    (P : String → Type 0) (order : Order) (registry : Registry) (q : ReportQuery) (t : Team)
    (r : Result (List User)) (w : World)
    → ((us : List User) → r ≡ ok us → All (λ u. P u.id) us)
    → All (Reports P) (with_members order registry q t r w).0
with_members-Reports P order registry q t (err e) w h = (tt, tt)
with_members-Reports P order registry q t (ok us) w h =
    with_repos-Reports P order registry q us _ _ (h us refl)

contains-links :
    (u : String) (ids : List String) (t : String) (ls : List Link)
    → ids ≡ linked t ls
    → contains u ids ≡ has_link t u ls
contains-links u ids t ls e = ap (contains u) e ∙ contains-linked t u ls

member_ids-MaySee :
    (q : ReportQuery) (t : Team) (d : Db) (user : String)
    → IsLoaded t q.team_id d
    → contains user (member_ids_for q t) ≡ true
    → MaySee q d user
unfolding member_ids_for is_only_member
member_ids-MaySee q t d user loaded e = ground (
  arith,
  contains-links user t.member_ids q.team_id d.team_members loaded.members,
  contains-links q.caller_id t.leader_ids q.team_id d.team_leaders loaded.leaders,
  eq_iff q.caller_id user,
  eq_iff q.member_id user,
)

with_team-Reports :
    (order : Order) (registry : Registry) (q : ReportQuery) (d : Db) (r : Result Team) (w : World)
    → ((t : Team) → r ≡ ok t → IsLoaded t q.team_id d)
    → All (Reports (MaySee q d)) (with_team order registry q r w).0
with_team-Reports order registry q d (err e) w h = (tt, tt)
with_team-Reports order registry q d (ok t) w h =
    let ids : List String = member_ids_for q t in
    with_members-Reports (MaySee q d) order registry q t (Users.find_by_ids ids w).0
      (Users.find_by_ids ids w).1
      λ us e.
        find_by_ids-All (MaySee q d) ids w (Users.find_by_ids ids w).1 us
          (λ user. λ listed. member_ids-MaySee q t d user (h t refl) listed)
          (ap (λ r. (r, (Users.find_by_ids ids w).1)) e)

-- Every report in the stream is the caller's own, or the caller is an administrator or has a row as
-- leader of the team, and the report is that of the member asked for or of a member of the team.
pub generate_report-MaySee :
    (order : Order) (registry : Registry) (q : ReportQuery) (w : World)
    → All (Reports (MaySee q w.db)) (generate_report order registry q w).0
unfolding generate_report
generate_report-MaySee order registry q w =
    with_team-Reports order registry q w.db (Teams.find_by_id q.team_id w).0
      (Teams.find_by_id q.team_id w).1
      λ t e.
        (find_by_id-ok q.team_id w (Teams.find_by_id q.team_id w).1 t
          (ap (λ r. (r, (Teams.find_by_id q.team_id w).1)) e)).0
