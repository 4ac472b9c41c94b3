-- ===== src/Web/Roles.antt =====
-- `ensureLeaderRole` and `removeLeaderRoleIfOrphaned` of admin_handler.go: the role TEAM_LEADER is
-- derived from the teams. What fails is passed over, as in the source.
use contribution_tracker.Prelude.{
  String, Bool, true, Option, none, some, List, [], ◌∷◌, ◌==◌, ◌&&◌, if◌then◌else◌, any, find,
  contains, flag, insert, delete,
}
use contribution_tracker.Domain.{UserAccount, Team, role_team_leader}
use contribution_tracker.Database.Session.{Result, ok, err, World}
use contribution_tracker.Database.Accounts
use contribution_tracker.Database.Teams

abbrev pub with_leader_role : UserAccount → UserAccount
with_leader_role a = record a { roles = insert role_team_leader true a.roles }

abbrev pub without_leader_role : UserAccount → UserAccount
without_leader_role a = record a { roles = delete role_team_leader a.roles }

abbrev pub is_leader_account : UserAccount → Bool
is_leader_account a = flag role_team_leader a.roles

abbrev pub grant : Option UserAccount → World → World
grant none w = w
grant (some a) w = if is_leader_account a then w else (Accounts.save (with_leader_role a) w).1

abbrev pub granted : String → Result (List UserAccount) → World → World
granted user (ok found) w = grant (find (λ a. a.user_id == user) found) w
granted user (err _) w = w

unfoldable pub ensure_leader_role : String → World → World
ensure_leader_role user w = let (accounts, w') = Accounts.find_all w in granted user accounts w'

abbrev pub leads_any : String → List Team → Bool
leads_any user teams = any (λ t. contains user t.leader_ids) teams

abbrev pub revoke : Option UserAccount → World → World
revoke none w = w
revoke (some a) w = (Accounts.save (without_leader_role a) w).1

abbrev pub is_leader_of : String → UserAccount → Bool
is_leader_of user a = (a.user_id == user) && is_leader_account a

abbrev pub revoked : String → Result (List UserAccount) → World → World
revoked user (ok found) w = revoke (find (is_leader_of user) found) w
revoked user (err _) w = w

abbrev pub revoke_found : String → World → World
revoke_found user w = let (accounts, w') = Accounts.find_all w in revoked user accounts w'

abbrev pub if_orphaned : String → Result (List Team) → World → World
if_orphaned user (ok teams) w = if leads_any user teams then w else revoke_found user w
if_orphaned user (err _) w = w

unfoldable pub remove_leader_role_if_orphaned : String → World → World
remove_leader_role_if_orphaned user w =
    let (teams, w') = Teams.find_all w in if_orphaned user teams w'

-- The loop of `DeleteTeam` over the former leaders.
unfoldable pub remove_leader_roles : List String → World → World
remove_leader_roles [] w = w
remove_leader_roles (user ∷ users) w =
    remove_leader_roles users (remove_leader_role_if_orphaned user w)
