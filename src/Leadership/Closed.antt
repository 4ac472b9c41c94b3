-- ===== src/Leadership/Closed.antt =====
-- The invariant of Leadership/Invariant under every statement that the handlers run.
use contribution_tracker.Prelude.{
  String, ◌≡◌, some, List, [], ◌∷◌, not, arith, keep, ◌==◌, ◌++◌, insert,
}
use mathlib.Core.Path.{subst}
use Prim.Native.String
use contribution_tracker.Domain.{Repository}
use contribution_tracker.Database.Schema.{
  Db, AccountRow, UserRow, PlatformRow, has_link, is_link, Link, TeamRow,
}
use contribution_tracker.Database.Session.{ok, World}
use contribution_tracker.Database.Links.{has_link-append, has_link-keep}
use contribution_tracker.Database.Keeps.{Keeps, Keeps-transaction, Preserves}
use contribution_tracker.Database.Success.{bind-ok, wrap-ok, exec-ok, pure-ok}
use contribution_tracker.Database.Teams
use contribution_tracker.Database.Users
use contribution_tracker.Database.Accounts
use contribution_tracker.Database.Repositories
use contribution_tracker.Web.Closed.{IsClosed}
use contribution_tracker.Web.Admin.{new_team}
use contribution_tracker.Web.Responses.{CreateTeamRequest}
use contribution_tracker.Leadership.Invariant.{
  LeadersAreMembers, add_member-Preserves, add_leader-keeps, delete_leader-Preserves,
  delete_member-keeps, delete_team-Preserves,
}

-- A change of other tables.
SameLinks : Db → Db → Type 0
SameLinks d d' = (d'.team_leaders ≡ d.team_leaders) × (d'.team_members ≡ d.team_members)

SameLinks-keeps : (d d' : Db) → LeadersAreMembers d → SameLinks d d' → LeadersAreMembers d'
unfolding SameLinks
SameLinks-keeps d d' h s t u lead = ground (arith, h t u)

upsert_account-SameLinks :
    (a : AccountRow) (d d' : Db) → Accounts.upsert_account a d ≡ some d' → SameLinks d d'
unfolding SameLinks
upsert_account-SameLinks a d d' e = ground arith

upsert_user-SameLinks : (u : UserRow) (d d' : Db) → Users.upsert_user u d ≡ some d' → SameLinks d d'
unfolding SameLinks
upsert_user-SameLinks u d d' e = ground arith

upsert_platform-SameLinks :
    (p : PlatformRow) (d d' : Db) → Users.upsert_platform p d ≡ some d' → SameLinks d d'
unfolding SameLinks
upsert_platform-SameLinks p d d' e = ground arith

upsert_row-SameLinks :
    (r s : Repository) (d d' : Db) → Repositories.upsert_row r d ≡ some (s, d') → SameLinks d d'
unfolding SameLinks
upsert_row-SameLinks r s d d' e = ground arith

add_repository-SameLinks :
    (team repo : String) (d d' : Db)
    → Teams.unless (has_link team repo d.team_repositories) (Teams.insert_repository team repo) d
      ≡ some d'
    → SameLinks d d'
unfolding SameLinks
add_repository-SameLinks team repo d d' e = ground arith

remove_repository-SameLinks :
    (team repo : String) (d d' : Db)
    → some
        (record d { team_repositories = keep (λ l. not (is_link team repo l)) d.team_repositories })
      ≡ some d'
    → SameLinks d d'
unfolding SameLinks
remove_repository-SameLinks team repo d d' e = ground arith

set_config-SameLinks :
    (key value : String) (d d' : Db)
    → some (record d { app_config = insert key value d.app_config }) ≡ some d'
    → SameLinks d d'
unfolding SameLinks
set_config-SameLinks key value d d' e = ground arith

abbrev others : String → List Link → List Link
others team ls = keep (λ l. not (l.0 == team)) ls

-- What the statements of `Save` leave in the link tables, for a team with one leader.
Saved : String → String → Db → Db → Type 0
Saved team user d d' =
    (d'.team_leaders ≡ others team d.team_leaders ++ (team, user) ∷ [])
    × (d'.team_members ≡ others team d.team_members ++ (team, user) ∷ [])

insert_leader-links :
    (team user : String) (d d' : Db)
    → Teams.insert_leader team user d ≡ some d'
    → (d'.team_leaders ≡ d.team_leaders ++ (team, user) ∷ []) × (d'.team_members ≡ d.team_members)
insert_leader-links team user d d' e = ground arith

insert_member-links :
    (team user : String) (d d' : Db)
    → Teams.insert_member team user d ≡ some d'
    → (d'.team_members ≡ d.team_members ++ (team, user) ∷ []) × (d'.team_leaders ≡ d.team_leaders)
insert_member-links team user d d' e = ground arith

clear_leaders-links :
    (team : String) (d d' : Db)
    → Teams.clear_leaders team d ≡ some d'
    → (d'.team_leaders ≡ others team d.team_leaders) × (d'.team_members ≡ d.team_members)
clear_leaders-links team d d' e = ground arith

clear_members-links :
    (team : String) (d d' : Db)
    → Teams.clear_members team d ≡ some d'
    → (d'.team_members ≡ others team d.team_members) × (d'.team_leaders ≡ d.team_leaders)
clear_members-links team d d' e = ground arith

upsert_team-links :
    (row : TeamRow) (d d' : Db)
    → Teams.upsert_team row d ≡ some d'
    → (d'.team_members ≡ d.team_members) × (d'.team_leaders ≡ d.team_leaders)
upsert_team-links row d d' e = ground arith

Saved-links :
    (team user : String) (d d1 d2 d3 d4 d5 : Db) (row : TeamRow)
    → Teams.upsert_team row d ≡ some d1
    → Teams.clear_leaders team d1 ≡ some d2
    → Teams.insert_leader team user d2 ≡ some d3
    → Teams.clear_members team d3 ≡ some d4
    → Teams.insert_member team user d4 ≡ some d5
    → Saved team user d d5
unfolding Saved
Saved-links team user d d1 d2 d3 d4 d5 row e1 e2 e3 e4 e5 =
    let (m1, l1) = upsert_team-links row d d1 e1 in
    let (l2, m2) = clear_leaders-links team d1 d2 e2 in
    let (l3, m3) = insert_leader-links team user d2 d3 e3 in
    let (m4, l4) = clear_members-links team d3 d4 e4 in
    let (m5, l5) = insert_member-links team user d4 d5 e5 in
    (rw (l5, l4, l3, l2, l1), rw (m5, m4, m3, m2, m1))

-- The leader of a team that was saved is its member, and other teams are as before.
Saved-keeps :
    (team user : String) (d d' : Db)
    → LeadersAreMembers d
    → Saved team user d d'
    → LeadersAreMembers d'
unfolding Saved
Saved-keeps team user d d' h s t u lead = ground (
  arith,
  h t u,
  has_link-append t u team user (others team d.team_leaders),
  has_link-append t u team user (others team d.team_members),
  has_link-keep t u (λ l. not (l.0 == team)) d.team_leaders,
  has_link-keep t u (λ l. not (l.0 == team)) d.team_members,
)

insert_leaders_one-ok :
    (team user : String) (w w' : World)
    → Teams.insert_leaders team (user ∷ []) w ≡ (ok tt, w')
    → Teams.insert_leader team user w.db ≡ some w'.db
unfolding Teams.insert_leaders
insert_leaders_one-ok team user w w' e =
    let (_, w1, e1, k1) = bind-ok _ _ w w' e in
    let (_, same) = pure-ok tt tt w1 w' k1 in
    subst (λ (v : World). Teams.insert_leader team user w.db ≡ some v.db) same
      (exec-ok _ w w1 (wrap-ok _ _ w w1 e1))

insert_members_one-ok :
    (team user : String) (w w' : World)
    → Teams.insert_members team (user ∷ []) w ≡ (ok tt, w')
    → Teams.insert_member team user w.db ≡ some w'.db
unfolding Teams.insert_members
insert_members_one-ok team user w w' e =
    let (_, w1, e1, k1) = bind-ok _ _ w w' e in
    let (_, same) = pure-ok tt tt w1 w' k1 in
    subst (λ (v : World). Teams.insert_member team user w.db ≡ some v.db) same
      (exec-ok _ w w1 (wrap-ok _ _ w w1 e1))

abbrev new_id : String → String
new_id uuid = String.◌++◌ "t-" uuid

Saved-ok :
    (uuid : String) (req : CreateTeamRequest) (w w' : World)
    → Teams.save_statements (new_team uuid req) w ≡ (ok tt, w')
    → Saved (new_id uuid) req.leader_id w.db w'.db
unfolding Teams.save_statements
Saved-ok uuid req w w' e =
    let (_, w1, e1, k1) = bind-ok _ _ w w' e in
    let (_, w2, e2, k2) = bind-ok _ _ w1 w' k1 in
    let (_, w3, e3, k3) = bind-ok _ _ w2 w' k2 in
    let (_, w4, e4, e5) = bind-ok _ _ w3 w' k3 in
    Saved-links (new_id uuid) req.leader_id w.db w1.db w2.db w3.db w4.db w'.db _
      (exec-ok _ w w1 (wrap-ok _ _ w w1 e1)) (exec-ok _ w1 w2 (wrap-ok _ _ w1 w2 e2))
      (insert_leaders_one-ok (new_id uuid) req.leader_id w2 w3 e3)
      (exec-ok _ w3 w4 (wrap-ok _ _ w3 w4 e4))
      (insert_members_one-ok (new_id uuid) req.leader_id w4 w' e5)

save_new-Keeps :
    (uuid : String) (req : CreateTeamRequest)
    → Keeps LeadersAreMembers (Teams.save (new_team uuid req))
unfolding Teams.save
save_new-Keeps uuid req =
    Keeps-transaction LeadersAreMembers _ _
      (λ w w' h e. Saved-keeps (new_id uuid) req.leader_id w.db w'.db h (Saved-ok uuid req w w' e))

pub leadership_closed : IsClosed LeadersAreMembers
leadership_closed = record {
  add_member = add_member-Preserves;
  delete_member = delete_member-keeps;
  add_leader = add_leader-keeps;
  delete_leader = λ team user d d' h _ e. delete_leader-Preserves team user d d' h e;
  delete_team = delete_team-Preserves;
  save_team = save_new-Keeps;
  add_repository =
      λ team repo d d' h e. SameLinks-keeps d d' h (add_repository-SameLinks team repo d d' e);
  remove_repository =
      λ team repo d d' h e. SameLinks-keeps d d' h (remove_repository-SameLinks team repo d d' e);
  upsert_repository = λ r s d d' h e. SameLinks-keeps d d' h (upsert_row-SameLinks r s d d' e);
  save_account = λ a d d' h e. SameLinks-keeps d d' h (upsert_account-SameLinks a d d' e);
  save_user = λ u d d' h e. SameLinks-keeps d d' h (upsert_user-SameLinks u d d' e);
  set_platform = λ p d d' h e. SameLinks-keeps d d' h (upsert_platform-SameLinks p d d' e);
  set_config = λ key value d d' h e. SameLinks-keeps d d' h (set_config-SameLinks key value d d' e);
}

delete_accounts-SameLinks :
    (user : String) (d d' : Db) → Accounts.delete_accounts user d ≡ some d' → SameLinks d d'
unfolding SameLinks
delete_accounts-SameLinks user d d' e = ground arith

pub delete_accounts-Preserves :
    (user : String) → Preserves LeadersAreMembers (Accounts.delete_accounts user)
delete_accounts-Preserves user d d' h e =
    SameLinks-keeps d d' h (delete_accounts-SameLinks user d d' e)
