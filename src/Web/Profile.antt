-- ===== src/Web/Profile.antt =====
-- profile_handler.go, config_handler.go and auth_handler.go of src/internal/presentation.
use contribution_tracker.Prelude.{String, Option, none, some, ◌==◌, ◌||◌, if◌then◌else◌}
use contribution_tracker.Domain.{keys}
use contribution_tracker.Database.Session.{Sql}
use contribution_tracker.Database.Users
use contribution_tracker.Database.Config
use contribution_tracker.Auth.{AuthContext, AuthToken}
use contribution_tracker.Web.Responses.{
  Handler, write_json, write_error, or_error, decoded, status_text, profile, settings, logged_in,
  user_to_dto, PlatformUsernameRequest, ConfigSetRequest, LoginRequest,
}

unfoldable pub get_profile : Option AuthContext → Handler
get_profile none = write_error 401 "not authenticated"
get_profile (some c) =
    or_error (Users.find_by_id c.user_id) 404 "user not found"
      λ u. write_json 200 (profile (user_to_dto u))

unfoldable pub set_platform_username : Option AuthContext → Option PlatformUsernameRequest → Handler
set_platform_username none body = write_error 401 "not authenticated"
set_platform_username (some c) body = decoded body λ req.
    if req.platform == "" || req.username == ""
    then write_error 400 "platform and username required"
    else or_error
        (Users.update_platform_username c.user_id (record { name = req.platform }) req.username) 500
        "failed to update platform username" λ _. write_json 200 (status_text "updated")

-- `ConfigHandler.GetAll` and `Set`
unfoldable pub get_all : Handler
get_all =
    or_error Config.find_all 500 "failed to load config" λ config. write_json 200 (settings config)

unfoldable pub set_config : Option ConfigSetRequest → Handler
set_config body = decoded body λ req.
    if req.key == ""
    then write_error 400 "key is required"
    else or_error (Config.set req.key req.value) 500 "failed to update config"
        λ _. write_json 200 (status_text "updated")

-- `AuthHandler.Login`; `service` is `authService.Login`.
unfoldable pub login : (String → String → Sql AuthToken) → Option LoginRequest → Handler
login service body = decoded body λ req.
    if req.username == "" || req.password == ""
    then write_error 400 "username and password required"
    else or_error (service req.username req.password) 401 "invalid credentials" λ token.
      or_error (Users.find_by_account_id token.account_id) 500 "failed to load user" λ u.
        write_json 200 (
          logged_in
            (record { token = token.value; roles = keys token.roles; user = user_to_dto u }))
