-- ===== src/Database/Reads.antt =====
-- The repositories' queries change nothing: they keep every property of the database.
use contribution_tracker.Prelude.{String, List, [], ◌∷◌}
use contribution_tracker.Database.Schema.{Db, TeamRow, UserRow}
use contribution_tracker.Database.Keeps.{Keeps, Keeps-bind, Keeps-pure, keeps_rules}
use contribution_tracker.Database.Teams
use contribution_tracker.Database.Users
use contribution_tracker.Database.Accounts
use contribution_tracker.Database.Repositories
use contribution_tracker.Database.Config

module _ {κ} (P : Db → Type κ) where
  load_relations-Keeps : (t : TeamRow) → Keeps P (Teams.load_relations t)
  unfolding Teams.load_relations
  load_relations-Keeps t = search keeps_rules

  load_all-Keeps : (ts : List TeamRow) → Keeps P (Teams.load_all ts)
  unfolding Teams.load_all
  load_all-Keeps [] = search keeps_rules
  load_all-Keeps (t ∷ ts) =
      Keeps-bind P _ _ (load_relations-Keeps t)
        (λ team. Keeps-bind P _ _ (load_all-Keeps ts) (λ teams. Keeps-pure P _))

  pub team-Keeps : (id : String) → Keeps P (Teams.find_by_id id)
  unfolding Teams.find_by_id
  team-Keeps id = search (keeps_rules, load_relations-Keeps)

  pub teams_of_member-Keeps : (id : String) → Keeps P (Teams.find_by_member_id id)
  unfolding Teams.find_by_member_id
  teams_of_member-Keeps id = search (keeps_rules, load_all-Keeps)

  pub teams-Keeps : Keeps P Teams.find_all
  unfolding Teams.find_all
  teams-Keeps = search (keeps_rules, load_all-Keeps)

  load_user-Keeps : (u : UserRow) → Keeps P (Users.load_user u)
  unfolding Users.load_user
  load_user-Keeps u = search keeps_rules

  load_users-Keeps : (us : List UserRow) → Keeps P (Users.load_users us)
  unfolding Users.load_users
  load_users-Keeps [] = search keeps_rules
  load_users-Keeps (u ∷ us) =
      Keeps-bind P _ _ (load_user-Keeps u)
        (λ user. Keeps-bind P _ _ (load_users-Keeps us) (λ users. Keeps-pure P _))

  pub user-Keeps : (id : String) → Keeps P (Users.find_by_id id)
  unfolding Users.find_by_id
  user-Keeps id = search (keeps_rules, load_user-Keeps)

  pub users_by_ids-Keeps : (ids : List String) → Keeps P (Users.find_by_ids ids)
  unfolding Users.find_by_ids
  users_by_ids-Keeps ids = search (keeps_rules, load_users-Keeps)

  pub user_of_account-Keeps : (id : String) → Keeps P (Users.find_by_account_id id)
  unfolding Users.find_by_account_id
  user_of_account-Keeps id = search (keeps_rules, load_user-Keeps)

  pub users-Keeps : Keeps P Users.find_all
  unfolding Users.find_all
  users-Keeps = search (keeps_rules, load_users-Keeps)

  pub account_by_username-Keeps : (name : String) → Keeps P (Accounts.find_by_username name)
  unfolding Accounts.find_by_username
  account_by_username-Keeps name = search keeps_rules

  pub account-Keeps : (id : String) → Keeps P (Accounts.find_by_id id)
  unfolding Accounts.find_by_id
  account-Keeps id = search keeps_rules

  pub accounts-Keeps : Keeps P Accounts.find_all
  unfolding Accounts.find_all
  accounts-Keeps = search keeps_rules

  pub repositories_by_ids-Keeps : (ids : List String) → Keeps P (Repositories.find_by_ids ids)
  unfolding Repositories.find_by_ids
  repositories_by_ids-Keeps ids = search keeps_rules

  pub repositories-Keeps : Keeps P Repositories.find_all
  unfolding Repositories.find_all
  repositories-Keeps = search keeps_rules

  pub config-Keeps : Keeps P Config.find_all
  unfolding Config.find_all
  config-Keeps = search keeps_rules
