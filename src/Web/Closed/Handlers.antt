-- ===== src/Web/Closed/Handlers.antt =====
-- Each handler keeps what its statements keep.
use contribution_tracker.Prelude.{
  String, ◌≡◌, refl, Bool, true, false, Option, if◌then◌else◌, leb, length,
}
use mathlib.Core.Path.{subst}
use contribution_tracker.Database.Schema.{Db, has_link, linked}
use contribution_tracker.Database.Session.{Result, ok, err, World, wrap, exec, fail}
use contribution_tracker.Database.Keeps.{
  Keeps, Keeps-wrap, Keeps-exec, Keeps-bind_query, Keeps-fail, exec_at,
}
use contribution_tracker.Database.Reads.{team-Keeps, user-Keeps}
use contribution_tracker.Database.Teams
use contribution_tracker.Web.Admin
use contribution_tracker.Web.Admin.{Fresh}
use contribution_tracker.Web.Closed.{IsClosed}
use contribution_tracker.Web.Closed.Roles.{
  ensure_leader_role-keeps, remove_leader_role-keeps, remove_leader_roles-keeps,
}
use contribution_tracker.Web.Keeps.{Keeps-write_json, Keeps-or_error, handler_rules}
use contribution_tracker.Web.Responses.{write_json, AddMemberRequest, CreateTeamRequest}

module _ {κ} (P : Db → Type κ) (closed : IsClosed P) where
  -- a database that was only read
  abbrev back : {d d' : Db} → d' ≡ d → P d' → P d
  back e h = subst P e h

  remove_member_if-keeps :
      (b : Bool) (team user : String) (w : World)
      → has_link team user w.db.team_leaders ≡ b
      → P w.db
      → P
          ((if b
              then fail Teams.leader_stays
              else wrap "remove member from team: " (exec (Teams.delete_member team user)))
            w).1.db
  unfolding wrap
  remove_member_if-keeps true team user w e h = (Keeps-fail P _).at w h
  remove_member_if-keeps false team user w e h =
      exec_at P _ w h (λ d change. closed.delete_member team user w.db d h e change)

  remove_member_statement-Keeps : (team user : String) → Keeps P (Teams.remove_member team user)
  unfolding Teams.remove_member
  remove_member_statement-Keeps team user =
      Keeps-bind_query P _ _ _ (λ w h. remove_member_if-keeps _ team user w refl h)

  remove_leader_if-keeps :
      (b : Bool) (team user : String) (w : World)
      → leb (length (linked team w.db.team_leaders)) 1 ≡ b
      → P w.db
      → P
          ((if b
              then fail Teams.last_leader_stays
              else wrap "remove leader from team: " (exec (Teams.delete_leader team user)))
            w).1.db
  unfolding wrap
  remove_leader_if-keeps true team user w e h = (Keeps-fail P _).at w h
  remove_leader_if-keeps false team user w e h =
      exec_at P _ w h (λ d change. closed.delete_leader team user w.db d h e change)

  remove_leader_statement-Keeps : (team user : String) → Keeps P (Teams.remove_leader team user)
  unfolding Teams.remove_leader
  remove_leader_statement-Keeps team user =
      Keeps-bind_query P _ _ _ (λ w h. remove_leader_if-keeps _ team user w refl h)

  add_member_statement-Keeps : (team user : String) → Keeps P (Teams.add_member team user)
  unfolding Teams.add_member
  add_member_statement-Keeps team user =
      Keeps-wrap P _ _ (Keeps-exec P _ (closed.add_member team user))

  -- The answers that a failed statement gets change nothing.
  refused-Keeps : (word text e : String) → Keeps P (Admin.refused word text e)
  refused-Keeps word text e = search (handler_rules)

  member_removed-Keeps : (r : Result (Unit {0})) → Keeps P (Admin.member_removed r)
  member_removed-Keeps (ok _) = Keeps-write_json P _ _
  member_removed-Keeps (err e) = refused-Keeps "leader" "failed to remove member" e

  leader_removed-Keeps :
      (user : String) (r : Result (Unit {0})) → Keeps P (Admin.leader_removed user r)
  unfolding write_json
  leader_removed-Keeps user (ok _) = record {
    at = λ w h. remove_leader_role-keeps P closed.save_account user w h;
  }
  leader_removed-Keeps user (err e) = record {
    at = λ w h. (refused-Keeps "last leader" "failed to remove leader" e).at w h;
  }

  pub add_member-Keeps :
      (team : String) (body : Option AddMemberRequest) → Keeps P (Admin.add_member team body)
  unfolding Admin.add_member
  add_member-Keeps team body = search (handler_rules, add_member_statement-Keeps) depth 9

  pub remove_member-Keeps : (team user : String) → Keeps P (Admin.remove_member team user)
  unfolding Admin.remove_member
  remove_member-Keeps team user = record {
    at = λ w h.
        (member_removed-Keeps (Teams.remove_member team user w).0).at _
          ((remove_member_statement-Keeps team user).at w h);
  }

  pub remove_leader-Keeps : (team user : String) → Keeps P (Admin.remove_leader team user)
  unfolding Admin.remove_leader
  remove_leader-Keeps team user = record {
    at = λ w h.
        (leader_removed-Keeps user (Teams.remove_leader team user w).0).at _
          ((remove_leader_statement-Keeps team user).at w h);
  }

  pub delete_team-Keeps : (team : String) → Keeps P (Admin.delete_team team)
  unfolding Admin.delete_team Teams.delete write_json
  delete_team-Keeps team = Keeps-or_error P _ _ _ _ (team-Keeps P team) λ t.
      Keeps-or_error P _ _ _ _ (Keeps-wrap P _ _ (Keeps-exec P _ (closed.delete_team team)))
        λ _. record { at = λ w h. remove_leader_roles-keeps P closed.save_account t.leader_ids w h }

  save_team-Keeps : (uuid : String) (req : CreateTeamRequest) → Keeps P (Admin.save_team uuid req)
  unfolding Admin.save_team write_json
  save_team-Keeps uuid req =
      Keeps-or_error P _ _ _ _ (closed.save_team uuid req)
        λ _. record { at = λ w h. ensure_leader_role-keeps P closed.save_account req.leader_id w h }

  pub create_team-Keeps :
      (uuid : String) (body : Option CreateTeamRequest) → Keeps P (Admin.create_team uuid body)
  unfolding Admin.create_team
  create_team-Keeps uuid body = search (handler_rules, user-Keeps, save_team-Keeps) depth 9
