-- ===== src/Web/Closed/Removal.antt =====
-- `DeleteUser` of admin_handler.go keeps what its two statements keep.
use contribution_tracker.Prelude.{String, Option, some, none}
use contribution_tracker.Domain.{Team}
use contribution_tracker.Database.Schema.{Db, delete_user}
use contribution_tracker.Database.Keeps.{Keeps, Keeps-wrap, Keeps-exec, Preserves}
use contribution_tracker.Database.Reads.{teams_of_member-Keeps}
use contribution_tracker.Database.Accounts
use contribution_tracker.Database.Users
use contribution_tracker.Web.Admin
use contribution_tracker.Web.Keeps.{Keeps-write_json, handler_rules}

module _ {κ} (P : Db → Type κ)
    (accounts : (user : String) → Preserves P (Accounts.delete_accounts user))
    (users : (user : String) → Preserves P (λ d. some (delete_user user d))) where
  delete_account-Keeps : (user : String) → Keeps P (Accounts.delete user)
  unfolding Accounts.delete
  delete_account-Keeps user = Keeps-wrap P _ _ (Keeps-exec P _ (accounts user))

  pub delete_statement-Keeps : (user : String) → Keeps P (Users.delete user)
  unfolding Users.delete
  delete_statement-Keeps user = Keeps-wrap P _ _ (Keeps-exec P _ (users user))

  unless_blocked-Keeps : (user : String) (o : Option Team) → Keeps P (Admin.unless_blocked user o)
  unfolding Admin.delete_account_and_user
  unless_blocked-Keeps user (some t) = Keeps-write_json P _ _
  unless_blocked-Keeps user none =
      search (handler_rules, delete_account-Keeps, delete_statement-Keeps) depth 9

  pub delete_user-Keeps : (user : String) → Keeps P (Admin.delete_user user)
  unfolding Admin.delete_user
  delete_user-Keeps user = record {
    at = λ w h. (unless_blocked-Keeps user _).at _ ((teams_of_member-Keeps P user).at w h);
  }
