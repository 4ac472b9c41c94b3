-- ===== src/Web/Router.antt =====
-- router.go: the API's routes and the middleware in front of each group. Requests that match no route,
-- the static files and the panic and address middleware of chi are not modelled.
use contribution_tracker.Prelude.{ℕ, String, Bool, Option, List, [], ◌∷◌}
use contribution_tracker.Domain.{BackupFile, role_admin}
use contribution_tracker.Database.Backups.{Base64}
use contribution_tracker.Auth.{AuthContext, validate}
use contribution_tracker.Auth as Service
use contribution_tracker.Auth.Library.{Jwt, Secret}
use contribution_tracker.Report.{Order}
use contribution_tracker.Report.Fetching.{Registry}
use contribution_tracker.Web.Admin
use contribution_tracker.Web.Backups
use contribution_tracker.Web.Admin.{Fresh}
use contribution_tracker.Web.Profile
use contribution_tracker.Web.Repositories
use contribution_tracker.Web.Stream
use contribution_tracker.Web.Stream.{Wire}
use contribution_tracker.Web.Middleware.{require_auth, require_role, require_team_leader_or_admin}
use contribution_tracker.Web.Responses.{
  Handler, AddMemberRequest, AddRepoRequest, ConfigSetRequest, CreateTeamRequest, CreateUserRequest,
  LoginRequest, PlatformUsernameRequest, ReportRequestDto,
}

-- A route of the group behind `RequireTeamLeaderOrAdmin`, with the path's parameters after the team's.
pub data TeamCall : Type 0 where
  add_repository : Option AddRepoRequest → TeamCall
  remove_repository : String → TeamCall
  add_member : Option AddMemberRequest → TeamCall
  remove_member : String → TeamCall

-- A route of the group behind `RequireRole(ADMIN)`.
pub data AdminCall : Type 0 where
  get_config : AdminCall
  set_config : Option ConfigSetRequest → AdminCall
  list_users : AdminCall
  create_user : Option CreateUserRequest → AdminCall
  delete_user : String → AdminCall
  create_team : Option CreateTeamRequest → AdminCall
  delete_team : String → AdminCall
  add_leader : String → Option AddMemberRequest → AdminCall
  remove_leader : String → String → AdminCall
  export_backup : AdminCall
  restore_backup : Option BackupFile → AdminCall

-- A route of the group behind `RequireAuth`.
pub data SessionCall : Type 0 where
  stream_report : Option ReportRequestDto → SessionCall
  get_profile : SessionCall
  set_platform_username : Option PlatformUsernameRequest → SessionCall
  list_teams : SessionCall
  on_team : String → TeamCall → SessionCall
  as_admin : AdminCall → SessionCall

pub data Call : Type 0 where
  login : Option LoginRequest → Call
  in_session : SessionCall → Call

-- A request: the header "Authorization" and the route with its parameters and body.
pub record Request : Type 0 where
  pub header : String
  pub call : Call

-- What the program takes from its libraries and from outside, for one request.
pub record Env : Type 0 where
  pub jwt : Jwt
  pub secret : Secret
  pub compare_hash : String → String → Bool
  pub now : ℕ
  pub fresh : Fresh
  pub uuid : String
  pub to_upper : String → String
  pub wire : Wire
  pub order : Order
  pub registry : Registry
  pub base64 : Base64
  pub visit : List (String × String) → List (String × String)

abbrev pub serve_team : Env → String → TeamCall → Handler
serve_team env team (add_repository body) =
    Repositories.add_repository env.to_upper env.uuid team body
serve_team env team (remove_repository repo) = Repositories.remove_repository team repo
serve_team env team (add_member body) = Admin.add_member team body
serve_team env team (remove_member user) = Admin.remove_member team user

abbrev pub serve_admin : Env → AdminCall → Handler
serve_admin env get_config = Profile.get_all
serve_admin env (set_config body) = Profile.set_config body
serve_admin env list_users = Admin.list_users
serve_admin env (create_user body) = Admin.create_user env.fresh body
serve_admin env (delete_user user) = Admin.delete_user user
serve_admin env (create_team body) = Admin.create_team env.uuid body
serve_admin env (delete_team team) = Admin.delete_team team
serve_admin env (add_leader team body) = Admin.add_leader team body
serve_admin env (remove_leader team user) = Admin.remove_leader team user
serve_admin env export_backup = Backups.export env.base64 env.now
serve_admin env (restore_backup body) = Backups.restore env.base64 env.visit body

abbrev pub serve_session : Env → SessionCall → Option AuthContext → Handler
serve_session env (stream_report body) c =
    Stream.stream_report env.wire env.order env.registry c body
serve_session env get_profile c = Profile.get_profile c
serve_session env (set_platform_username body) c = Profile.set_platform_username c body
serve_session env list_teams c = Repositories.list_teams c
serve_session env (on_team team call) c =
    require_team_leader_or_admin team c (serve_team env team call)
serve_session env (as_admin call) c = require_role (role_admin ∷ []) c (serve_admin env call)

abbrev pub routed : Env → String → Call → Handler
routed env header (login body) =
    Profile.login (Service.login env.jwt env.secret env.compare_hash env.now) body
routed env header (in_session call) =
    require_auth (validate env.jwt env.secret env.now) header (serve_session env call)

unfoldable pub serve : Env → Request → Handler
serve env r = routed env r.header r.call
