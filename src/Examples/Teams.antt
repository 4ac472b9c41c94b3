-- ===== src/Examples/Teams.antt =====
-- The properties of the repositories at the small database.
use contribution_tracker.Prelude.{
  String, ◌≡◌, refl, ◌⊎◌, ◌≤◌, true, false, some, [], ◌∷◌, arith, eq_iff, contains, find, length,
}
use contribution_tracker.Domain.{
  Repository, Team, UserAccount, has_role, role_list, role_team_leader, role_admin,
}
use contribution_tracker.Database.Schema.{linked}
use contribution_tracker.Database.Session
use contribution_tracker.Database.Session.{ok, err}
use contribution_tracker.Database.Calm.{calm}
use contribution_tracker.Database.Teams
use contribution_tracker.Database.Accounts.{account_row, scan_account}
use contribution_tracker.Database.Repositories.{same_project, upsert}
use contribution_tracker.Database.Saving.{save-cases}
use contribution_tracker.Database.Rosters.{RosterChange, IsDone}
use contribution_tracker.Database.RosterChanges.{method-IsDone}
use contribution_tracker.Database.RoleTexts.{has_role-stored}
use contribution_tracker.Database.Upserting.{kept_id, upsert-stored}
use contribution_tracker.Web.Admin
use contribution_tracker.Leadership.Invariant.{LeadersAreMembers}
use contribution_tracker.Leadership.Guards.{IsLed, remove_leader-IsLed}
use contribution_tracker.Leadership.Deletion.{delete_user-led}
use contribution_tracker.Examples.Data.{small_db, small_world, tracker}

abbrev web_team : Team
web_team = record {
  id = "t-web";
  name = "Web";
  leader_ids = "u-bob" ∷ [];
  member_ids = "u-bob" ∷ "u-ann" ∷ [];
  repository_ids = [];
}

save-cases_example :
    ((e : String) × ((Teams.save web_team small_world).0 ≡ err e)
      × ((Teams.save web_team small_world).1.db ≡ small_db))
    ⊎ (((Teams.save web_team small_world).0 ≡ ok tt)
        × (linked "t-web" (Teams.save web_team small_world).1.db.team_leaders ≡ "u-bob" ∷ [])
        × (linked "t-web" (Teams.save web_team small_world).1.db.team_members
            ≡ "u-bob" ∷ "u-ann" ∷ []))
save-cases_example = save-cases web_team "t-web" small_world

small_db-IsLed : IsLed "t-core" small_db
small_db-IsLed = (λ t u. ground arith, ground arith)

remove_leader-IsLed_example : IsLed "t-core" (Teams.remove_leader "t-core" "u-ann" small_world).1.db
remove_leader-IsLed_example =
    remove_leader-IsLed "t-core" "t-core" "u-ann" small_world small_db-IsLed

abbrev revoked_account : UserAccount
revoked_account = record {
  id = "a-bob";
  username = "bob";
  password_hash = "h";
  roles = (role_admin, false) ∷ (role_team_leader, true) ∷ [];
  user_id = "u-bob";
}

has_role-stored_example :
    has_role (scan_account (account_row revoked_account)) role_admin
    ≡ contains role_admin (role_list revoked_account)
has_role-stored_example = has_role-stored revoked_account role_admin

abbrev discovered : Repository
discovered = record tracker { id = "r-9"; api_token = "" }

abbrev wiped : Repository
wiped = record tracker { api_token = "" }

upserted : upsert discovered small_world ≡ (ok wiped, (upsert discovered small_world).1)
unfolding upsert Session.wrap Session.exec_returning
upserted = refl

upsert-stored_example :
    (find (same_project discovered) (upsert discovered small_world).1.db.repositories ≡ some wiped)
    × (wiped.api_token ≡ "")
    × (wiped.id ≡ kept_id discovered (find (same_project discovered) small_db.repositories))
    × ((p : Repository)
        → same_project discovered p ≡ false
        → find (same_project p) (upsert discovered small_world).1.db.repositories
          ≡ find (same_project p) small_db.repositories)
upsert-stored_example =
    upsert-stored discovered wiped small_world (upsert discovered small_world).1 upserted

small_db-LeadersAreMembers : LeadersAreMembers small_db
small_db-LeadersAreMembers t u lead = ground (arith, eq_iff "t-core" t, eq_iff "u-ann" u)

delete_user-led_example :
    1
    ≤ length (
        linked "t-core"
          (Admin.delete_user "u-ann" (calm small_db "refused" "no rows")).1.db.team_leaders)
delete_user-led_example =
    delete_user-led "t-core" "u-ann" "refused" "no rows" small_db small_db-LeadersAreMembers
      small_db-IsLed.0 refl (omega arith)

method-IsDone_example :
    IsDone
      (RosterChange.remove_member "t-core" "u-bob")
      small_db
      (Teams.remove_member "t-core" "u-bob" small_world)
method-IsDone_example = method-IsDone (RosterChange.remove_member "t-core" "u-bob") small_world
