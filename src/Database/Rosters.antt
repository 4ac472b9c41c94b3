-- ===== src/Database/Rosters.antt =====
-- The leaders and members of pgx_team_repo.go as two relations between teams and users, and what
-- `AddMember`, `RemoveMember`, `AddLeader` and `RemoveLeader` are to do to these.
use contribution_tracker.Prelude.{
  String, ◌≡◌, refl, ◌||◌, ◌&&◌, not, ◌==◌, Bool, true, false, Option, some, none,
}
use contribution_tracker.Database.Schema.{Db, has_link}
use contribution_tracker.Database.Session.{
  Result, ok, err, World, Sql, wrap, exec, query, answered, changed, first_outage, next_statement,
  ◌>>=◌, wrap_result, continue,
}
use contribution_tracker.Database.Teams

-- Who leads and who belongs to a team.
pub record Roster : Type 0 where
  pub leads : String → String → Bool
  pub belongs : String → String → Bool

abbrev pub roster_of : Db → Roster
roster_of d = record {
  leads = λ team user. has_link team user d.team_leaders;
  belongs = λ team user. has_link team user d.team_members;
}

pub data RosterChange : Type 0 where
  add_member : String → String → RosterChange
  remove_member : String → String → RosterChange
  add_leader : String → String → RosterChange
  remove_leader : String → String → RosterChange

-- The repository's method for a change.
abbrev pub method : RosterChange → Sql (Unit {0})
method (add_member team user) = Teams.add_member team user
method (remove_member team user) = Teams.remove_member team user
method (add_leader team user) = Teams.add_leader team user
method (remove_leader team user) = Teams.remove_leader team user

-- A relation with a pair more or less.
abbrev pub with_pair : String → String → (String → String → Bool) → String → String → Bool
with_pair team user r a b = r a b || ((team == a) && (user == b))

abbrev pub without_pair : String → String → (String → String → Bool) → String → String → Bool
without_pair team user r a b = r a b && not ((team == a) && (user == b))

-- What a change is to do.
abbrev pub changed_roster : RosterChange → Roster → Roster
changed_roster (add_member team user) r = record r { belongs = with_pair team user r.belongs }
changed_roster (remove_member team user) r = record r { belongs = without_pair team user r.belongs }
changed_roster (add_leader team user) r = record r { leads = with_pair team user r.leads }
changed_roster (remove_leader team user) r = record r { leads = without_pair team user r.leads }

-- What a change is refused without: a member to be removed is no leader, and a team that loses a leader
-- has one.
abbrev pub IsPermitted : RosterChange → Roster → Type 0
IsPermitted (add_member team user) r = Unit
IsPermitted (remove_member team user) r = r.leads team user ≡ false
IsPermitted (add_leader team user) r = Unit
IsPermitted (remove_leader team user) r = (other : String) × (r.leads team other ≡ true)

-- The same relations.
abbrev pub Agrees : Roster → Roster → Type 0
Agrees r s =
    ((a b : String) → r.leads a b ≡ s.leads a b) × ((a b : String) → r.belongs a b ≡ s.belongs a b)

-- The change is refused and nothing has changed, or it has been done.
abbrev pub IsDone : RosterChange → Db → Result (Unit {0}) × World → Type 0
IsDone c d (err _, w') = w'.db ≡ d
IsDone c d (ok _, w') =
    IsPermitted c (roster_of d) × Agrees (roster_of w'.db) (changed_roster c (roster_of d))

pub exec-IsDone :
    (c : RosterChange) (text : String) (g : Db → Option Db) (w : World)
    → ((d' : Db)
        → g w.db ≡ some d'
        → IsPermitted c (roster_of w.db)
          × Agrees (roster_of d') (changed_roster c (roster_of w.db)))
    → IsDone c w.db (wrap text (exec g) w)
unfolding wrap exec
exec-IsDone c text g w h = by_outage (first_outage w.outages)
  where
    by_result :
        (o : Option Db)
        → g w.db ≡ o
        → IsDone c w.db
            (wrap_result text (changed o (next_statement w)).0, (changed o (next_statement w)).1)
    by_result none e = refl
    by_result (some d') e = h d' e

    by_outage :
        (o : Option String)
        → IsDone c w.db (
          wrap_result text (answered o (changed (g w.db) (next_statement w)) (next_statement w)).0,
          (answered o (changed (g w.db) (next_statement w)) (next_statement w)).1,
        )
    by_outage none = by_result (g w.db) refl
    by_outage (some e) = refl

-- A query before the change.
pub query-IsDone :
    {A : Type 0} (c : RosterChange) (text : String) (f : Db → A) (k : A → Sql (Unit {0}))
    (w : World)
    → ((w1 : World) → w1.db ≡ w.db → IsDone c w.db (k (f w.db) w1))
    → IsDone c w.db ((wrap text (query f) >>= k) w)
unfolding wrap query ◌>>=◌
query-IsDone c text f k w h = by_outage (first_outage w.outages)
  where
    by_outage :
        (o : Option String)
        → IsDone c w.db (
            continue
              (wrap_result text (answered o (ok (f w.db), next_statement w) (next_statement w)).0)
              k
              (answered o (ok (f w.db), next_statement w) (next_statement w)).1)
    by_outage none = h (next_statement w) refl
    by_outage (some e) = refl
