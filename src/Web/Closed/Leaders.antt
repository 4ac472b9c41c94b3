-- ===== src/Web/Closed/Leaders.antt =====
-- `AddLeader` keeps what its statement keeps for a member of the team.
use contribution_tracker.Prelude.{
  String, ◌≡◌, ◌∙◌, sym, ap, Bool, true, false, Option, if◌then◌else◌, contains, ◌==◌,
}
use contribution_tracker.Domain.{Team}
use contribution_tracker.Database.Schema.{Db, has_link}
use contribution_tracker.Database.Session.{World, exec}
use contribution_tracker.Database.Found.{IsLoaded, find_by_id-ok}
use contribution_tracker.Database.Links.{contains-linked}
use contribution_tracker.Database.Keeps.{Keeps, Keeps-if, exec_at}
use contribution_tracker.Database.Reads.{team-Keeps}
use contribution_tracker.Database.Teams
use contribution_tracker.Web.Admin
use contribution_tracker.Web.Closed.{IsClosed}
use contribution_tracker.Web.Closed.Roles.{ensure_leader_role-keeps}
use contribution_tracker.Web.Keeps.{Keeps-write_json, Keeps-decoded, or_error_at}
use contribution_tracker.Web.Responses.{write_json, write_error, or_error, AddMemberRequest}

module _ {κ} (P : Db → Type κ) (closed : IsClosed P) where
  add_leader_statement-keeps :
      (team user : String) (w : World)
      → P w.db
      → has_link team user w.db.team_members ≡ true
      → P (Teams.add_leader team user w).1.db
  unfolding Teams.add_leader contribution_tracker.Database.Session.wrap
  add_leader_statement-keeps team user w h member =
      exec_at P _ w h (λ d change. closed.add_leader team user w.db d h member change)

  save_leader-keeps :
      (team user : String) (w : World)
      → P w.db
      → has_link team user w.db.team_members ≡ true
      → P (Admin.save_leader team user w).1.db
  unfolding Admin.save_leader write_json
  save_leader-keeps team user w h member =
      or_error_at P _ _ _ _ w (add_leader_statement-keeps team user w h member)
        (λ _ w' _ h'. ensure_leader_role-keeps P closed.save_account user w' h')

  save_if_member-keeps :
      (b : Bool) (team user : String) (text : String) (w : World)
      → has_link team user w.db.team_members ≡ b
      → P w.db
      → P ((if b then Admin.save_leader team user else write_error 400 text) w).1.db
  save_if_member-keeps true team user text w e h = save_leader-keeps team user w h e
  save_if_member-keeps false team user text w e h = (Keeps-write_json P _ _).at w h

  -- What was loaded is still so in the database, which a query leaves alone.
  loaded-member :
      (team user : String) (w w' : World) (t : Team)
      → IsLoaded t team w.db × (w'.db ≡ w.db)
      → has_link team user w'.db.team_members ≡ contains user t.member_ids
  loaded-member team user w w' t (loaded, same) =
      ap (λ d. has_link team user d.team_members) same
      ∙ sym (contains-linked team user w.db.team_members)
      ∙ sym (ap (contains user) loaded.members)

  found-keeps :
      (team user : String) (w : World)
      → P w.db
      → P
          (or_error
            (Teams.find_by_id team)
            404
            "team not found"
            (λ t.
              if contains user t.member_ids
              then Admin.save_leader team user
              else write_error 400 "user must be a member of the team first")
            w).1.db
  found-keeps team user w h = or_error_at P _ _ _ _ w ((team-Keeps P team).at w h) (λ t w' found h'.
      save_if_member-keeps (contains user t.member_ids) team user _ w'
        (loaded-member team user w w' t (find_by_id-ok team w w' t found)) h')

  pub add_leader-Keeps :
      (team : String) (body : Option AddMemberRequest) → Keeps P (Admin.add_leader team body)
  unfolding Admin.add_leader
  add_leader-Keeps team body = Keeps-decoded P body _ λ req.
      Keeps-if P (req.user_id == "") _ _ (Keeps-write_json P _ _)
        (record { at = λ w h. found-keeps team req.user_id w h })
