-- ===== src/Web/Closed/Roles.antt =====
-- The role helpers keep what saving an account keeps.
use contribution_tracker.Prelude.{
  String, Bool, true, false, Option, some, none, List, [], ◌∷◌, find, ◌==◌, if◌then◌else◌,
}
use contribution_tracker.Domain.{UserAccount, Team}
use contribution_tracker.Database.Schema.{Db, AccountRow}
use contribution_tracker.Database.Session.{Result, ok, err, World}
use contribution_tracker.Database.Keeps.{Keeps, Keeps-wrap, Keeps-exec, Preserves}
use contribution_tracker.Database.Reads.{accounts-Keeps, teams-Keeps}
use contribution_tracker.Database.Accounts
use contribution_tracker.Database.Teams
use contribution_tracker.Web.Roles.{
  is_leader_account, grant, granted, revoked, if_orphaned, is_leader_of, ensure_leader_role,
  leads_any, revoke, revoke_found, remove_leader_role_if_orphaned, remove_leader_roles,
  with_leader_role, without_leader_role,
}

module _ {κ} (P : Db → Type κ)
    (saves : (a : AccountRow) → Preserves P (Accounts.upsert_account a)) where
  pub save_account-Keeps : (a : UserAccount) → Keeps P (Accounts.save a)
  unfolding Accounts.save
  save_account-Keeps a = Keeps-wrap P _ _ (Keeps-exec P _ (saves _))

  grant_if-keeps :
      (b : Bool) (a : UserAccount) (w : World)
      → P w.db
      → P (if b then w else (Accounts.save a w).1).db
  grant_if-keeps true a w h = h
  grant_if-keeps false a w h = (save_account-Keeps a).at w h

  grant-keeps : (o : Option UserAccount) (w : World) → P w.db → P (grant o w).db
  grant-keeps none w h = h
  grant-keeps (some a) w h = grant_if-keeps (is_leader_account a) (with_leader_role a) w h

  granted-keeps :
      (user : String) (r : Result (List UserAccount)) (w : World) → P w.db → P (granted user r w).db
  granted-keeps user (ok found) w h = grant-keeps (find (λ a. a.user_id == user) found) w h
  granted-keeps user (err e) w h = h

  pub ensure_leader_role-keeps :
      (user : String) (w : World) → P w.db → P (ensure_leader_role user w).db
  unfolding ensure_leader_role
  ensure_leader_role-keeps user w h =
      granted-keeps user (Accounts.find_all w).0 (Accounts.find_all w).1 ((accounts-Keeps P).at w h)

  revoke-keeps : (o : Option UserAccount) (w : World) → P w.db → P (revoke o w).db
  revoke-keeps none w h = h
  revoke-keeps (some a) w h = (save_account-Keeps (without_leader_role a)).at w h

  revoked-keeps :
      (user : String) (r : Result (List UserAccount)) (w : World) → P w.db → P (revoked user r w).db
  revoked-keeps user (ok found) w h = revoke-keeps (find (is_leader_of user) found) w h
  revoked-keeps user (err e) w h = h

  revoke_found-keeps : (user : String) (w : World) → P w.db → P (revoke_found user w).db
  revoke_found-keeps user w h =
      revoked-keeps user (Accounts.find_all w).0 (Accounts.find_all w).1 ((accounts-Keeps P).at w h)

  unless_leading-keeps :
      (b : Bool) (user : String) (w : World) → P w.db → P (if b then w else revoke_found user w).db
  unless_leading-keeps true user w h = h
  unless_leading-keeps false user w h = revoke_found-keeps user w h

  if_orphaned-keeps :
      (user : String) (r : Result (List Team)) (w : World) → P w.db → P (if_orphaned user r w).db
  if_orphaned-keeps user (ok ts) w h = unless_leading-keeps (leads_any user ts) user w h
  if_orphaned-keeps user (err e) w h = h

  pub remove_leader_role-keeps :
      (user : String) (w : World) → P w.db → P (remove_leader_role_if_orphaned user w).db
  unfolding remove_leader_role_if_orphaned
  remove_leader_role-keeps user w h =
      if_orphaned-keeps user (Teams.find_all w).0 (Teams.find_all w).1 ((teams-Keeps P).at w h)

  pub remove_leader_roles-keeps :
      (users : List String) (w : World) → P w.db → P (remove_leader_roles users w).db
  unfolding remove_leader_roles
  remove_leader_roles-keeps [] w h = h
  remove_leader_roles-keeps (user ∷ users) w h =
      remove_leader_roles-keeps users _ (remove_leader_role-keeps user w h)
