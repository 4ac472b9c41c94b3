-- ===== src/Web/Closed/Accounts.antt =====
-- The handlers of users, profiles, the configuration and the export.
use contribution_tracker.Prelude.{ℕ, String, Option, some, none}
use contribution_tracker.Domain.{User, GitPlatform}
use contribution_tracker.Database.Schema.{Db}
use contribution_tracker.Database.Session.{Result, ok, err, Sql}
use contribution_tracker.Database.Keeps.{Keeps, Keeps-wrap, Keeps-exec, keeps_rules}
use contribution_tracker.Database.Reads.{
  user-Keeps, users-Keeps, accounts-Keeps, teams-Keeps, user_of_account-Keeps, config-Keeps,
  repositories-Keeps,
}
use contribution_tracker.Database.Users
use contribution_tracker.Database.Config
use contribution_tracker.Database.Backups as Stored
use contribution_tracker.Database.Backups.{Base64}
use contribution_tracker.Auth.{AuthContext, AuthToken}
use contribution_tracker.Web.Admin
use contribution_tracker.Web.Admin.{Fresh}
use contribution_tracker.Web.Profile
use contribution_tracker.Web.Backups
use contribution_tracker.Web.Closed.{IsClosed}
use contribution_tracker.Web.Closed.Roles.{save_account-Keeps}
use contribution_tracker.Web.Keeps.{Keeps-write_json, Keeps-or_error, handler_rules}
use contribution_tracker.Web.Responses.{
  write_json, backup, CreateUserRequest, PlatformUsernameRequest, ConfigSetRequest, LoginRequest,
}

-- What only reads keeps every property.
module _ {κ} (P : Db → Type κ) where
  exported-Keeps : (b : Base64) (now : ℕ) → Keeps P (Stored.export b now)
  unfolding Stored.export
  exported-Keeps b now =
      search
        (keeps_rules, users-Keeps, accounts-Keeps, teams-Keeps, repositories-Keeps, config-Keeps)
        depth 14

  pub list_users-Keeps : Keeps P Admin.list_users
  unfolding Admin.list_users
  list_users-Keeps = search (handler_rules, users-Keeps, accounts-Keeps, teams-Keeps) depth 9

  pub get_profile-Keeps : (c : Option AuthContext) → Keeps P (Profile.get_profile c)
  unfolding Profile.get_profile
  get_profile-Keeps none = search handler_rules
  get_profile-Keeps (some c) = search (handler_rules, user-Keeps) depth 9

  pub get_all-Keeps : Keeps P Profile.get_all
  unfolding Profile.get_all
  get_all-Keeps = search (handler_rules, config-Keeps) depth 9

  pub export-Keeps : (b : Base64) (now : ℕ) → Keeps P (Backups.export b now)
  unfolding Backups.export
  export-Keeps b now =
      Keeps-or_error P (Backups.export_service b now) 500 "failed to export backup" _
        (exported-Keeps b now) (λ f. Keeps-write_json P 200 (backup f))

  pub login-Keeps :
      (service : String → String → Sql AuthToken) (body : Option LoginRequest)
      → ((username password : String) → Keeps P (service username password))
      → Keeps P (Profile.login service body)
  unfolding Profile.login
  login-Keeps service body k = search (handler_rules, user_of_account-Keeps, k) depth 9

module _ {κ} (P : Db → Type κ) (closed : IsClosed P) where
  set_platform_statement-Keeps :
      (user : String) (platform : GitPlatform) (name : String)
      → Keeps P (Users.update_platform_username user platform name)
  unfolding Users.update_platform_username
  set_platform_statement-Keeps user platform name =
      Keeps-wrap P _ _ (Keeps-exec P _ (closed.set_platform _))

  pub set_platform-Keeps :
      (c : Option AuthContext) (body : Option PlatformUsernameRequest)
      → Keeps P (Profile.set_platform_username c body)
  unfolding Profile.set_platform_username
  set_platform-Keeps none body = search handler_rules
  set_platform-Keeps (some c) body = search (handler_rules, set_platform_statement-Keeps) depth 9

  set_statement-Keeps : (key value : String) → Keeps P (Config.set key value)
  unfolding Config.set
  set_statement-Keeps key value = Keeps-wrap P _ _ (Keeps-exec P _ (closed.set_config key value))

  pub set_config-Keeps : (body : Option ConfigSetRequest) → Keeps P (Profile.set_config body)
  unfolding Profile.set_config
  set_config-Keeps body = search (handler_rules, set_statement-Keeps) depth 9

  save_user_statement-Keeps : (u : User) → Keeps P (Users.save u)
  unfolding Users.save
  save_user_statement-Keeps u = Keeps-wrap P _ _ (Keeps-exec P _ (closed.save_user _))

  -- Here `delete` stands for taking back the user that was just saved.
  module _ (delete : (user : String) → Keeps P (Users.delete user)) where
    account_saved-Keeps :
        (f : Fresh) (req : CreateUserRequest) (r : Result (Unit {0}))
        → Keeps P (Admin.account_saved f req r)
    unfolding write_json
    account_saved-Keeps f req (ok _) = record { at = λ w h. h }
    account_saved-Keeps f req (err e) = record { at = λ w h. (delete _).at w h }

    save_account_call-Keeps :
        (f : Fresh) (req : CreateUserRequest) (hash : String)
        → Keeps P (Admin.save_account f req hash)
    unfolding Admin.save_account
    save_account_call-Keeps f req hash = record {
      at = λ w h.
          (account_saved-Keeps f req _).at _
            ((save_account-Keeps P closed.save_account (Admin.new_account f req hash)).at w h);
    }

    save_user-Keeps :
        (f : Fresh) (req : CreateUserRequest) (hash : Option String)
        → Keeps P (Admin.save_user f req hash)
    unfolding Admin.save_user
    save_user-Keeps f req none = Keeps-write_json P _ _
    save_user-Keeps f req (some hash) =
        search (handler_rules, save_user_statement-Keeps, save_account_call-Keeps) depth 9

    pub create_user-Keeps :
        (f : Fresh) (body : Option CreateUserRequest) → Keeps P (Admin.create_user f body)
    unfolding Admin.create_user
    create_user-Keeps f body = search (handler_rules, save_user-Keeps) depth 9
