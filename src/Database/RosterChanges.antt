-- ===== src/Database/RosterChanges.antt =====
-- `AddMember`, `RemoveMember`, `AddLeader` and `RemoveLeader` of pgx_team_repo.go against the relations
-- of Database/Rosters.
use contribution_tracker.Prelude.{
  String, ◌≡◌, refl, sym, ap, ◌∙◌, ◌||◌, not, Bool, true, false, Option, List, [], ◌∷◌, leb, length,
  contains, arith, eq_iff, if◌then◌else◌,
}
use mathlib.Core.Path.{subst}
use contribution_tracker.Database.Schema.{Db, Link, has_link, is_link, linked}
use contribution_tracker.Database.Links.{has_link-append, has_link-keep, contains-linked}
use contribution_tracker.Database.Session.{World, Sql, wrap, exec, fail}
use contribution_tracker.Database.Teams
use contribution_tracker.Database.Rosters.{
  RosterChange, add_member, remove_member, add_leader, remove_leader, method, IsDone, exec-IsDone,
  query-IsDone,
}

add_member-IsDone :
    (team user : String) (w : World)
    → IsDone (add_member team user) w.db (Teams.add_member team user w)
unfolding Teams.add_member
add_member-IsDone team user w =
    exec-IsDone (add_member team user) "add member to team: "
      (λ d. Teams.unless (has_link team user d.team_members) (Teams.insert_member team user) d) w
      λ d' e. (
        tt,
        (
          λ a b. ground arith,
          λ a b. ground (
            arith,
            has_link-append a b team user w.db.team_members,
            eq_iff team a,
            eq_iff user b,
          ),
        ),
      )

add_leader-IsDone :
    (team user : String) (w : World)
    → IsDone (add_leader team user) w.db (Teams.add_leader team user w)
unfolding Teams.add_leader
add_leader-IsDone team user w =
    exec-IsDone (add_leader team user) "add leader to team: "
      (λ d. Teams.unless (has_link team user d.team_leaders) (Teams.insert_leader team user) d) w
      λ d' e. (
        tt,
        (
          λ a b. ground (
            arith,
            has_link-append a b team user w.db.team_leaders,
            eq_iff team a,
            eq_iff user b,
          ),
          λ a b. ground arith,
        ),
      )

abbrev delete_unless : Bool → String → (Db → Option Db) → String → Sql (Unit {0})
delete_unless refused why change text = if refused then fail why else wrap text (exec change)

deleted_member :
    (team user : String) (w : World) (is_leader : Bool)
    → has_link team user w.db.team_leaders ≡ is_leader
    → IsDone (remove_member team user) w.db (
        delete_unless is_leader Teams.leader_stays
          (Teams.delete_member team user)
          "remove member from team: "
          w)
unfolding fail
deleted_member team user w true e = refl
deleted_member team user w false e =
    exec-IsDone (remove_member team user) "remove member from team: "
      (Teams.delete_member team user) w
      λ d' gone. (
        e,
        (
          λ a b. ground arith,
          λ a b. ground (
            arith,
            has_link-keep a b (λ l. not (is_link team user l)) w.db.team_members,
            eq_iff a team,
            eq_iff b user,
            eq_iff team a,
            eq_iff user b,
          ),
        ),
      )

remove_member-IsDone :
    (team user : String) (w : World)
    → IsDone (remove_member team user) w.db (Teams.remove_member team user w)
unfolding Teams.remove_member
remove_member-IsDone team user w =
    query-IsDone (remove_member team user) "check leader status: "
      (λ d. has_link team user d.team_leaders)
      (λ is_leader.
        delete_unless is_leader Teams.leader_stays (Teams.delete_member team user)
          "remove member from team: ")
      w
      λ w1 e.
        subst
          (λ d. IsDone (remove_member team user) d (
            delete_unless (has_link team user w.db.team_leaders) Teams.leader_stays
              (Teams.delete_member team user) "remove member from team: " w1))
          e
          (deleted_member team user w1 (has_link team user w.db.team_leaders)
            (ap (λ d. has_link team user d.team_leaders) e))

-- A list of more than one leader has a first.
some_leader :
    (team : String) (ls : List Link)
    → leb (length (linked team ls)) 1 ≡ false
    → (other : String) × (has_link team other ls ≡ true)
some_leader team ls e = first (linked team ls) refl e
  where
    first :
        (ids : List String)
        → linked team ls ≡ ids
        → leb (length ids) 1 ≡ false
        → (other : String) × (has_link team other ls ≡ true)
    first [] same e = cc
    first (id ∷ ids) same e = (
      id,
      sym (contains-linked team id ls)
          ∙ ap (contains id) same
          ∙ ap (λ b. b || contains id ids) ((eq_iff id id).1 refl),
    )

deleted_leader :
    (team user : String) (w : World) (last : Bool)
    → leb (length (linked team w.db.team_leaders)) 1 ≡ last
    → IsDone (remove_leader team user) w.db (
        delete_unless last Teams.last_leader_stays
          (Teams.delete_leader team user)
          "remove leader from team: "
          w)
unfolding fail
deleted_leader team user w true e = refl
deleted_leader team user w false e =
    exec-IsDone (remove_leader team user) "remove leader from team: "
      (Teams.delete_leader team user) w
      λ d' gone. (
        some_leader team w.db.team_leaders e,
        (
          λ a b. ground (
            arith,
            has_link-keep a b (λ l. not (is_link team user l)) w.db.team_leaders,
            eq_iff a team,
            eq_iff b user,
            eq_iff team a,
            eq_iff user b,
          ),
          λ a b. ground arith,
        ),
      )

remove_leader-IsDone :
    (team user : String) (w : World)
    → IsDone (remove_leader team user) w.db (Teams.remove_leader team user w)
unfolding Teams.remove_leader
remove_leader-IsDone team user w =
    query-IsDone (remove_leader team user) "count leaders: "
      (λ d. length (linked team d.team_leaders))
      (λ count.
        delete_unless (leb count 1) Teams.last_leader_stays (Teams.delete_leader team user)
          "remove leader from team: ")
      w
      λ w1 e.
        subst
          (λ d. IsDone (remove_leader team user) d (
            delete_unless (leb (length (linked team w.db.team_leaders)) 1) Teams.last_leader_stays
              (Teams.delete_leader team user) "remove leader from team: " w1))
          e
          (deleted_leader team user w1 (leb (length (linked team w.db.team_leaders)) 1)
            (ap (λ d. leb (length (linked team d.team_leaders)) 1) e))

-- Each of the four methods either fails and leaves the database as it is, or succeeds, and then the
-- change was permitted, a member that was removed being no leader and a team that loses a leader having
-- one, and it has added or removed the pair in its relation and nothing else in either.
pub method-IsDone : (c : RosterChange) (w : World) → IsDone c w.db (method c w)
method-IsDone (add_member team user) w = add_member-IsDone team user w
method-IsDone (remove_member team user) w = remove_member-IsDone team user w
method-IsDone (add_leader team user) w = add_leader-IsDone team user w
method-IsDone (remove_leader team user) w = remove_leader-IsDone team user w
