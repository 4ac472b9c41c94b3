-- ===== src/Web/Closed.antt =====
-- The statements that the handlers run, as an interface: a property of the database that each of them
-- keeps, under what the handler has tested before it, is kept by every request.
pub mod Roles
pub mod Handlers
pub mod Leaders
pub mod Accounts
pub mod Projects
pub mod Reports
pub mod Serve
pub mod Removal
use contribution_tracker.Prelude.{
  String, ◌≡◌, Bool, true, false, not, Option, some, leb, length, keep, insert,
}
use contribution_tracker.Domain.{Repository}
use contribution_tracker.Database.Schema.{
  Db, AccountRow, UserRow, PlatformRow, has_link, is_link, linked, delete_team,
}
use contribution_tracker.Database.Session.{Result, ok, World}
use contribution_tracker.Database.Keeps.{Preserves, Keeps}
use contribution_tracker.Database.Teams as Teams
use contribution_tracker.Database.Accounts.{upsert_account}
use contribution_tracker.Database.Users.{upsert_user, upsert_platform}
use contribution_tracker.Database.Repositories.{upsert_row}
use contribution_tracker.Web.Admin.{new_team}
use contribution_tracker.Web.Responses.{CreateTeamRequest}

pub record IsClosed {κ} (P : Db → Type κ) : Type κ where
  pub add_member :
      (team user : String)
      → Preserves P
          (λ d. Teams.unless (has_link team user d.team_members) (Teams.insert_member team user) d)
  pub delete_member :
      (team user : String) (d d' : Db)
      → P d
      → has_link team user d.team_leaders ≡ false
      → Teams.delete_member team user d ≡ some d'
      → P d'
  pub add_leader :
      (team user : String) (d d' : Db)
      → P d
      → has_link team user d.team_members ≡ true
      → Teams.unless (has_link team user d.team_leaders) (Teams.insert_leader team user) d ≡ some d'
      → P d'
  pub delete_leader :
      (team user : String) (d d' : Db)
      → P d
      → leb (length (linked team d.team_leaders)) 1 ≡ false
      → Teams.delete_leader team user d ≡ some d'
      → P d'
  pub delete_team : (team : String) → Preserves P (λ d. some (delete_team team d))
  pub save_team :
      (uuid : String) (req : CreateTeamRequest) → Keeps P (Teams.save (new_team uuid req))
  pub add_repository :
      (team repo : String)
      → Preserves P (λ d.
        Teams.unless (has_link team repo d.team_repositories) (Teams.insert_repository team repo) d)
  pub remove_repository :
      (team repo : String)
      → Preserves P (λ d. some (record d {
        team_repositories = keep (λ l. not (is_link team repo l)) d.team_repositories;
      }))
  pub upsert_repository :
      (r s : Repository) (d d' : Db) → P d → upsert_row r d ≡ some (s, d') → P d'
  pub save_account : (a : AccountRow) → Preserves P (upsert_account a)
  pub save_user : (u : UserRow) → Preserves P (upsert_user u)
  pub set_platform : (p : PlatformRow) → Preserves P (upsert_platform p)
  pub set_config :
      (key value : String)
      → Preserves P (λ d. some (record d { app_config = insert key value d.app_config }))
