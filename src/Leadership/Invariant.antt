-- ===== src/Leadership/Invariant.antt =====
-- Every leader of a team is a member of it; each change of the repositories keeps that.
use contribution_tracker.Prelude.{String, ◌≡◌, true, false, not, some, arith, eq_iff, ◌==◌}
use contribution_tracker.Database.Schema.{Db, has_link, is_link, delete_team, delete_user}
use contribution_tracker.Database.Links.{has_link-append, has_link-keep}
use contribution_tracker.Database.Keeps.{Preserves}
use contribution_tracker.Database.Teams.{
  insert_leader, insert_member, unless, delete_member, delete_leader,
}

abbrev pub LeadersAreMembers : Db → Type 0
LeadersAreMembers d =
    (t u : String) → has_link t u d.team_leaders ≡ true → has_link t u d.team_members ≡ true

pub insert_member-Preserves :
    (team user : String) → Preserves LeadersAreMembers (insert_member team user)
insert_member-Preserves team user d d' h e t u lead =
    ground (arith, h t u, has_link-append t u team user d.team_members)

pub add_member-Preserves :
    (team user : String)
    → Preserves LeadersAreMembers
        (λ d. unless (has_link team user d.team_members) (insert_member team user) d)
add_member-Preserves team user d d' h e t u lead =
    ground (arith, h t u, has_link-append t u team user d.team_members)

-- A member becomes a leader.
pub add_leader-keeps :
    (team user : String) (d d' : Db)
    → LeadersAreMembers d
    → has_link team user d.team_members ≡ true
    → unless (has_link team user d.team_leaders) (insert_leader team user) d ≡ some d'
    → LeadersAreMembers d'
add_leader-keeps team user d d' h member e t u lead =
    ground
      (arith, h t u, has_link-append t u team user d.team_leaders, eq_iff team t, eq_iff user u)

pub delete_leader-Preserves :
    (team user : String) → Preserves LeadersAreMembers (delete_leader team user)
delete_leader-Preserves team user d d' h e t u lead =
    ground (arith, h t u, has_link-keep t u (λ l. not (is_link team user l)) d.team_leaders)

-- A member that is no leader leaves.
pub delete_member-keeps :
    (team user : String) (d d' : Db)
    → LeadersAreMembers d
    → has_link team user d.team_leaders ≡ false
    → delete_member team user d ≡ some d'
    → LeadersAreMembers d'
delete_member-keeps team user d d' h free e t u lead = ground (
  arith,
  h t u,
  has_link-keep t u (λ l. not (is_link team user l)) d.team_members,
  eq_iff team t,
  eq_iff user u,
  eq_iff t team,
  eq_iff u user,
)

pub delete_team-Preserves :
    (team : String) → Preserves LeadersAreMembers (λ d. some (delete_team team d))
unfolding delete_team
delete_team-Preserves team d d' h e t u lead = ground (
  arith,
  h t u,
  has_link-keep t u (λ l. not (l.0 == team)) d.team_leaders,
  has_link-keep t u (λ l. not (l.0 == team)) d.team_members,
)

pub delete_user-Preserves :
    (user : String) → Preserves LeadersAreMembers (λ d. some (delete_user user d))
unfolding delete_user
delete_user-Preserves user d d' h e t u lead = ground (
  arith,
  h t u,
  has_link-keep t u (λ l. not (l.1 == user)) d.team_leaders,
  has_link-keep t u (λ l. not (l.1 == user)) d.team_members,
)
