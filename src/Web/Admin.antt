-- ===== src/Web/Admin.antt =====
-- src/internal/presentation/admin_handler.go: `AdminHandler`, without the two role helpers.
use contribution_tracker.Prelude.{
  String, Bool, true, false, Option, none, some, List, [], ◌∷◌, ◌==◌, ◌&&◌, ◌||◌, if◌then◌else◌,
  keep, find, contains, insert, map, length, eqb, contains_text, lookup,
}
use Prim.Native.String
use contribution_tracker.Domain.{User, UserAccount, Team, keys, role_team_member}
use contribution_tracker.Database.Session.{Result, ok, err}
use contribution_tracker.Database.Accounts
use contribution_tracker.Database.Accounts.{strings_to_roles}
use contribution_tracker.Database.Teams
use contribution_tracker.Database.Users
use contribution_tracker.Web.Responses.{
  Handler, write_json, write_error, or_error, decoded, status_text, team_summary, admin_user,
  admin_users, AdminUserDto, TeamSummaryDto, CreateUserRequest, CreateTeamRequest, AddMemberRequest,
}
use contribution_tracker.Web.Roles.{
  ensure_leader_role, remove_leader_role_if_orphaned, remove_leader_roles,
}

abbrev pub summary : Team → TeamSummaryDto
summary t = record { id = t.id; name = t.name; leader_ids = t.leader_ids }

-- `accountByUserID[accounts[i].UserID] = &accounts[i]`
abbrev pub by_user_id : List (String × UserAccount) → List UserAccount → List (String × UserAccount)
by_user_id m [] = m
by_user_id m (a ∷ rest) = by_user_id (insert a.user_id a m) rest

abbrev pub roles_of : Option UserAccount → List String
roles_of none = []
roles_of (some a) = keys a.roles

abbrev pub list_user : List (String × UserAccount) → List Team → User → AdminUserDto
list_user accounts teams u = record {
  id = u.id;
  username = u.username;
  display_name = u.display_name;
  email = u.email;
  roles = roles_of (lookup u.id accounts);
  teams = map summary (keep (λ t. contains u.id t.member_ids) teams);
}

unfoldable pub list_users : Handler
list_users = or_error Users.find_all 500 "failed to load users" λ users.
    or_error Accounts.find_all 500 "failed to load accounts" λ accounts.
      or_error Teams.find_all 500 "failed to load teams"
        λ teams. write_json 200 (admin_users (map (list_user (by_user_id [] accounts) teams) users))

-- What the handler takes from outside the program: bcrypt's hash of a password, or an error, and
-- the first eight characters of the identifiers that it draws.
pub record Fresh : Type 0 where
  pub hash : String → Option String
  pub user_uuid : String
  pub account_uuid : String

abbrev pub is_empty : List String → Bool
is_empty [] = true
is_empty (_ ∷ _) = false

abbrev pub default_roles : List String → List String
default_roles roles = if is_empty roles then role_team_member ∷ [] else roles

abbrev pub new_user : Fresh → CreateUserRequest → User
new_user f req = record {
  id = String.◌++◌ "u-" f.user_uuid;
  username = req.username;
  display_name = req.display_name;
  email = req.email;
  avatar_url = "";
  platform_usernames = [];
}

abbrev pub new_account : Fresh → CreateUserRequest → String → UserAccount
new_account f req hash = record {
  id = String.◌++◌ "a-" f.account_uuid;
  username = req.username;
  password_hash = hash;
  roles = strings_to_roles (default_roles req.roles);
  user_id = String.◌++◌ "u-" f.user_uuid;
}

abbrev pub created : Fresh → CreateUserRequest → AdminUserDto
created f req = record {
  id = String.◌++◌ "u-" f.user_uuid;
  username = req.username;
  display_name = req.display_name;
  email = req.email;
  roles = default_roles req.roles;
  teams = [];
}

-- Where the account cannot be saved the new user is deleted again, whatever comes of that.
abbrev pub account_saved : Fresh → CreateUserRequest → Result (Unit {0}) → Handler
account_saved f req (ok _) w = write_json 201 (admin_user (created f req)) w
account_saved f req (err _) w =
    write_error 500 "failed to create account" (Users.delete (String.◌++◌ "u-" f.user_uuid) w).1

unfoldable pub save_account : Fresh → CreateUserRequest → String → Handler
save_account f req hash w =
    let (saved, w') = Accounts.save (new_account f req hash) w in account_saved f req saved w'

unfoldable pub save_user : Fresh → CreateUserRequest → Option String → Handler
save_user f req none = write_error 500 "failed to hash password"
save_user f req (some hash) =
    or_error (Users.save (new_user f req)) 500 "failed to create user" λ _. save_account f req hash

unfoldable pub create_user : Fresh → Option CreateUserRequest → Handler
create_user f body = decoded body λ req.
    if req.username == "" || req.password == "" || req.display_name == ""
    then write_error 400 "username, displayName, and password are required"
    else save_user f req (f.hash req.password)

-- The two loops of `DeleteUser`: a team that the user alone leads.
abbrev pub only_leader : String → Team → Bool
only_leader user t = contains user t.leader_ids && eqb (length t.leader_ids) 1

abbrev pub blocking : String → Result (List Team) → Option Team
blocking user (ok teams) = find (only_leader user) teams
blocking user (err _) = none

unfoldable pub delete_account_and_user : String → Handler
delete_account_and_user user = or_error (Accounts.delete user) 500 "failed to delete account" λ _.
    or_error (Users.delete user) 500 "failed to delete user"
      λ _. write_json 200 (status_text "deleted")

abbrev pub reassign_first : Team → String
reassign_first t =
    String.◌++◌ "user is the only leader of team "
      (String.◌++◌ t.name "; reassign leadership first")

abbrev pub unless_blocked : String → Option Team → Handler
unless_blocked user (some t) = write_error 400 (reassign_first t)
unless_blocked user none = delete_account_and_user user

unfoldable pub delete_user : String → Handler
delete_user user w =
    let (teams, w') = Teams.find_by_member_id user w in unless_blocked user (blocking user teams) w'

abbrev pub new_team : String → CreateTeamRequest → Team
new_team uuid req = record {
  id = String.◌++◌ "t-" uuid;
  name = req.name;
  leader_ids = req.leader_id ∷ [];
  member_ids = req.leader_id ∷ [];
  repository_ids = [];
}

unfoldable pub save_team : String → CreateTeamRequest → Handler
save_team uuid req = or_error (Teams.save (new_team uuid req)) 500 "failed to create team" λ _ w.
    write_json 201 (team_summary (summary (new_team uuid req))) (ensure_leader_role req.leader_id w)

unfoldable pub create_team : String → Option CreateTeamRequest → Handler
create_team uuid body = decoded body λ req.
    if req.name == "" || req.leader_id == ""
    then write_error 400 "name and leaderId are required"
    else or_error (Users.find_by_id req.leader_id) 400 "leader user not found"
        λ _. save_team uuid req

unfoldable pub delete_team : String → Handler
delete_team team = or_error (Teams.find_by_id team) 404 "team not found" λ t.
    or_error (Teams.delete team) 500 "failed to delete team"
      λ _ w. write_json 200 (status_text "deleted") (remove_leader_roles t.leader_ids w)

unfoldable pub add_member : String → Option AddMemberRequest → Handler
add_member team body = decoded body λ req.
    if req.user_id == ""
    then write_error 400 "userId is required"
    else or_error (Teams.add_member team req.user_id) 500 "failed to add member"
        λ _. write_json 200 (status_text "added")

-- `strings.Contains(err.Error(), …)` decides between 400, with the error's text, and 500.
abbrev pub refused : String → String → String → Handler
refused word text e = if contains_text word e then write_error 400 e else write_error 500 text

abbrev pub member_removed : Result (Unit {0}) → Handler
member_removed (ok _) = write_json 200 (status_text "removed")
member_removed (err e) = refused "leader" "failed to remove member" e

unfoldable pub remove_member : String → String → Handler
remove_member team user w =
    let (removed, w') = Teams.remove_member team user w in member_removed removed w'

unfoldable pub save_leader : String → String → Handler
save_leader team user =
    or_error (Teams.add_leader team user) 500 "failed to add leader"
      λ _ w. write_json 200 (status_text "added") (ensure_leader_role user w)

unfoldable pub add_leader : String → Option AddMemberRequest → Handler
add_leader team body = decoded body λ req.
    if req.user_id == ""
    then write_error 400 "userId is required"
    else or_error (Teams.find_by_id team) 404 "team not found" λ t.
      if contains req.user_id t.member_ids
      then save_leader team req.user_id
      else write_error 400 "user must be a member of the team first"

abbrev pub leader_removed : String → Result (Unit {0}) → Handler
leader_removed user (ok _) w =
    write_json 200 (status_text "removed") (remove_leader_role_if_orphaned user w)
leader_removed user (err e) w = refused "last leader" "failed to remove leader" e w

unfoldable pub remove_leader : String → String → Handler
remove_leader team user w =
    let (removed, w') = Teams.remove_leader team user w in leader_removed user removed w'
