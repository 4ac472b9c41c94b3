-- ===== src/Domain/Roles.antt =====
-- role.go and user_account.go: accounts and their roles. A `map[Role]bool` may hold a key whose
-- value is false; the source looks at the value in some places and only at the keys in others.
use contribution_tracker.Prelude.{String, Bool, List, map, any, flag}

abbrev pub Role : Type 0
Role = String

abbrev pub role_admin : Role
role_admin = "ADMIN"

abbrev pub role_team_leader : Role
role_team_leader = "TEAM_LEADER"

abbrev pub role_team_member : Role
role_team_member = "TEAM_MEMBER"

abbrev pub RoleSet : Type 0
RoleSet = List (Role × Bool)

pub record UserAccount : Type 0 where
  pub id : String
  pub username : String
  pub password_hash : String
  pub roles : RoleSet
  pub user_id : String

unfoldable pub has_role : UserAccount → Role → Bool
has_role a r = flag r a.roles

-- The loop with an early return is a search for a role that the map holds as true.
unfoldable pub has_any_role : UserAccount → List Role → Bool
has_any_role a roles = any (λ r. flag r a.roles) roles

-- `for r := range a.Roles`: the keys, in the order of the map's list.
abbrev pub keys : RoleSet → List Role
keys m = map (λ e. e.0) m

unfoldable pub role_list : UserAccount → List Role
role_list a = keys a.roles
