-- ===== src/Web/Middleware.antt =====
-- src/internal/presentation/middleware.go: `AuthMiddleware` and `RequireTeamLeaderOrAdmin`.
-- The context that `RequireAuth` stores is handed to the next handler as an argument.
use contribution_tracker.Prelude.{
  String, Bool, Option, none, some, List, ◌==◌, if◌then◌else◌, any, contains, flag, trim_prefix,
}
use contribution_tracker.Domain.{Role, RoleSet, role_admin}
use contribution_tracker.Database.Session.{Sql}
use contribution_tracker.Database.Teams
use contribution_tracker.Auth.{AuthContext}
use contribution_tracker.Web.Responses.{Handler, write_error, or_error}

-- `validate` is `authService.Validate`, and `header` the header "Authorization".
unfoldable pub require_auth :
    (String → Sql AuthContext) → String → (Option AuthContext → Handler) → Handler
require_auth validate header next =
    if header == ""
    then write_error 401 "missing authorization header"
    else if trim_prefix "Bearer " header == header
    then write_error 401 "invalid authorization format"
    else or_error (validate (trim_prefix "Bearer " header)) 401 "invalid token" (λ c. next (some c))

abbrev pub has_any : List Role → RoleSet → Bool
has_any roles held = any (λ r. flag r held) roles

unfoldable pub require_role : List Role → Option AuthContext → Handler → Handler
require_role roles none next = write_error 401 "not authenticated"
require_role roles (some c) next =
    if has_any roles c.roles then next else write_error 403 "insufficient permissions"

unfoldable pub require_team_leader_or_admin : String → Option AuthContext → Handler → Handler
require_team_leader_or_admin team none next = write_error 401 "not authenticated"
require_team_leader_or_admin team (some c) next =
    if flag role_admin c.roles
    then next
    else if team == ""
    then write_error 400 "team ID required"
    else or_error (Teams.find_by_id team) 404 "team not found" (λ t.
      if contains c.user_id t.leader_ids
      then next
      else write_error 403 "you are not a leader of this team")
