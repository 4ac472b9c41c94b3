-- ===== src/Web/Closed/Serve.antt =====
-- Every request keeps what the statements keep. The two calls that may delete a user are premises
-- of their own, as they depend on more than the statement.
use contribution_tracker.Prelude.{
  String, ℕ, Bool, true, false, Option, some, none, List, ◌==◌, if◌then◌else◌, contains, flag,
}
use contribution_tracker.Domain.{BackupFile, role_admin}
use contribution_tracker.Database.Schema.{Db}
use contribution_tracker.Database.Session.{World, Sql}
use contribution_tracker.Database.Keeps.{Keeps, Keeps-if}
use contribution_tracker.Database.Reads.{team-Keeps}
use contribution_tracker.Database.Users
use contribution_tracker.Database.Backups as Stored
use contribution_tracker.Auth.{AuthContext}
use contribution_tracker.Report.{Order, ReportQuery, generate_report}
use contribution_tracker.Report.Fetching.{Registry}
use contribution_tracker.Web.Admin
use contribution_tracker.Web.Backups
use contribution_tracker.Web.Stream
use contribution_tracker.Web.Stream.{Wire}
use contribution_tracker.Web.Middleware.{require_auth, require_role, require_team_leader_or_admin}
use contribution_tracker.Web.Router.{
  Env, TeamCall, AdminCall, SessionCall, Call, Request, serve_team, serve_admin, serve_session,
  routed, serve,
}
use contribution_tracker.Web.Closed.{IsClosed}
use contribution_tracker.Web.Closed.Handlers.{
  add_member-Keeps, remove_member-Keeps, remove_leader-Keeps, delete_team-Keeps, create_team-Keeps,
}
use contribution_tracker.Web.Closed.Leaders.{add_leader-Keeps}
use contribution_tracker.Web.Closed.Accounts.{
  list_users-Keeps, get_profile-Keeps, get_all-Keeps, login-Keeps, set_platform-Keeps, export-Keeps,
  set_config-Keeps, create_user-Keeps,
}
use contribution_tracker.Web.Closed.Projects.{
  list_teams-Keeps, add_repository-Keeps, remove_repository-Keeps, upsert-Keeps,
}
use contribution_tracker.Web.Closed.Reports.{validate-Keeps, generate_report-Keeps}
use contribution_tracker.Web.Closed.Reports
use contribution_tracker.Web.Keeps.{Keeps-write_json, Keeps-or_error, Keeps-decoded, handler_rules}
use contribution_tracker.Web.Responses.{Handler, write_json, ReportRequestDto}

-- `Q` holds of the file that a request restores, if it restores one.
abbrev pub AdminBrings : (BackupFile → Type 0) → AdminCall → Type 0
AdminBrings Q AdminCall.get_config = Unit
AdminBrings Q (AdminCall.set_config _) = Unit
AdminBrings Q AdminCall.list_users = Unit
AdminBrings Q (AdminCall.create_user _) = Unit
AdminBrings Q (AdminCall.delete_user _) = Unit
AdminBrings Q (AdminCall.create_team _) = Unit
AdminBrings Q (AdminCall.delete_team _) = Unit
AdminBrings Q (AdminCall.add_leader _ _) = Unit
AdminBrings Q (AdminCall.remove_leader _ _) = Unit
AdminBrings Q AdminCall.export_backup = Unit
AdminBrings Q (AdminCall.restore_backup none) = Unit
AdminBrings Q (AdminCall.restore_backup (some f)) = Q f

abbrev pub SessionBrings : (BackupFile → Type 0) → SessionCall → Type 0
SessionBrings Q (SessionCall.stream_report _) = Unit
SessionBrings Q SessionCall.get_profile = Unit
SessionBrings Q (SessionCall.set_platform_username _) = Unit
SessionBrings Q SessionCall.list_teams = Unit
SessionBrings Q (SessionCall.on_team _ _) = Unit
SessionBrings Q (SessionCall.as_admin call) = AdminBrings Q call

abbrev pub Brings : (BackupFile → Type 0) → Call → Type 0
Brings Q (Call.login _) = Unit
Brings Q (Call.in_session call) = SessionBrings Q call

module _ {κ} (P : Db → Type κ) where
  -- The middleware only reads.
  pub require_auth-Keeps :
      (validate : String → Sql AuthContext) (header : String) (next : Option AuthContext → Handler)
      → ((text : String) → Keeps P (validate text))
      → ((c : Option AuthContext) → Keeps P (next c))
      → Keeps P (require_auth validate header next)
  unfolding require_auth
  require_auth-Keeps validate header next v k = search (handler_rules, v, k) depth 9

  pub require_role-Keeps :
      (roles : List String) (c : Option AuthContext) (next : Handler)
      → Keeps P next
      → Keeps P (require_role roles c next)
  unfolding require_role
  require_role-Keeps roles none next k = Keeps-write_json P _ _
  require_role-Keeps roles (some c) next k = Keeps-if P _ _ _ k (Keeps-write_json P _ _)

  pub require_team-Keeps :
      (team : String) (c : Option AuthContext) (next : Handler)
      → Keeps P next
      → Keeps P (require_team_leader_or_admin team c next)
  unfolding require_team_leader_or_admin
  require_team-Keeps team none next k = Keeps-write_json P _ _
  require_team-Keeps team (some c) next k = Keeps-if P (flag role_admin c.roles) _ _ k (
      Keeps-if P (team == "") _ _ (Keeps-write_json P _ _) (
        Keeps-or_error P _ _ _ _ (team-Keeps P team)
          λ t. Keeps-if P (contains c.user_id t.leader_ids) _ _ k (Keeps-write_json P _ _)))

module _ {κ} (P : Db → Type κ) (closed : IsClosed P)
    (delete_user : (user : String) → Keeps P (Admin.delete_user user))
    (take_back : (user : String) → Keeps P (Users.delete user)) (Q : BackupFile → Type 0)
    (restores : (env : Env) (f : BackupFile)
      → Q f
      → Keeps P (Stored.restore env.base64 env.visit f)) where
  restore-Keeps :
      (env : Env) (body : Option BackupFile)
      → AdminBrings Q (AdminCall.restore_backup body)
      → Keeps P (Backups.restore env.base64 env.visit body)
  unfolding Backups.restore
  restore-Keeps env none q = Keeps-write_json P _ _
  restore-Keeps env (some f) q =
      Keeps-or_error P (Stored.restore env.base64 env.visit f) _ _ _ (restores env f q)
        (λ _. Keeps-write_json P _ _)

  stream_events-Keeps :
      (wire : Wire) (order : Order) (registry : Registry) (q : ReportQuery)
      → Keeps P (Stream.stream_events wire order registry q)
  unfolding Stream.stream_events write_json
  stream_events-Keeps wire order registry q = record { at = λ w h. tested wire.can_flush w h }
    where
      tested :
          (b : Bool) (w : World)
          → P w.db
          → P
              (if b
                then Stream.streamed wire (generate_report order registry q w)
                else contribution_tracker.Web.Responses.write_error 500 "streaming not supported"
                    w).1.db
      tested true w h = (generate_report-Keeps P (upsert-Keeps P closed) order registry q).at w h
      tested false w h = h

  dated-Keeps :
      (o : Option ℕ) (text : String) (next : ℕ → Handler)
      → ((t : ℕ) → Keeps P (next t))
      → Keeps P (Stream.dated o text next)
  dated-Keeps none text next k = Keeps-write_json P _ _
  dated-Keeps (some t) text next k = k t

  stream_report-Keeps :
      (wire : Wire) (order : Order) (registry : Registry) (c : Option AuthContext)
      (body : Option ReportRequestDto)
      → Keeps P (Stream.stream_report wire order registry c body)
  unfolding Stream.stream_report
  stream_report-Keeps wire order registry none body = Keeps-write_json P _ _
  stream_report-Keeps wire order registry (some c) body = Keeps-decoded P body _ λ req.
      dated-Keeps (wire.parse_date req.since) _ _ λ since.
        dated-Keeps (wire.parse_date req.until) _ _
          λ until. stream_events-Keeps wire order registry _

  serve_team-Keeps :
      (env : Env) (team : String) (call : TeamCall) → Keeps P (serve_team env team call)
  serve_team-Keeps env team (TeamCall.add_repository body) =
      add_repository-Keeps P closed env.to_upper env.uuid team body
  serve_team-Keeps env team (TeamCall.remove_repository repo) =
      remove_repository-Keeps P closed team repo
  serve_team-Keeps env team (TeamCall.add_member body) = add_member-Keeps P closed team body
  serve_team-Keeps env team (TeamCall.remove_member user) = remove_member-Keeps P closed team user

  serve_admin-Keeps :
      (env : Env) (call : AdminCall) → AdminBrings Q call → Keeps P (serve_admin env call)
  serve_admin-Keeps env AdminCall.get_config q = get_all-Keeps P
  serve_admin-Keeps env (AdminCall.set_config body) q = set_config-Keeps P closed body
  serve_admin-Keeps env AdminCall.list_users q = list_users-Keeps P
  serve_admin-Keeps env (AdminCall.create_user body) q =
      create_user-Keeps P closed take_back env.fresh body
  serve_admin-Keeps env (AdminCall.delete_user user) q = delete_user user
  serve_admin-Keeps env (AdminCall.create_team body) q = create_team-Keeps P closed env.uuid body
  serve_admin-Keeps env (AdminCall.delete_team team) q = delete_team-Keeps P closed team
  serve_admin-Keeps env (AdminCall.add_leader team body) q = add_leader-Keeps P closed team body
  serve_admin-Keeps env (AdminCall.remove_leader team user) q =
      remove_leader-Keeps P closed team user
  serve_admin-Keeps env AdminCall.export_backup q = export-Keeps P env.base64 env.now
  serve_admin-Keeps env (AdminCall.restore_backup body) q = restore-Keeps env body q

  serve_session-Keeps :
      (env : Env) (call : SessionCall) (c : Option AuthContext)
      → SessionBrings Q call
      → Keeps P (serve_session env call c)
  serve_session-Keeps env (SessionCall.stream_report body) c q =
      stream_report-Keeps env.wire env.order env.registry c body
  serve_session-Keeps env SessionCall.get_profile c q = get_profile-Keeps P c
  serve_session-Keeps env (SessionCall.set_platform_username body) c q =
      set_platform-Keeps P closed c body
  serve_session-Keeps env SessionCall.list_teams c q = list_teams-Keeps P c
  serve_session-Keeps env (SessionCall.on_team team call) c q =
      require_team-Keeps P team c _ (serve_team-Keeps env team call)
  serve_session-Keeps env (SessionCall.as_admin call) c q =
      require_role-Keeps P _ c _ (serve_admin-Keeps env call q)

  -- One request, whoever makes it and whatever fails on the way.
  pub serve-Keeps : (env : Env) (r : Request) → Brings Q r.call → Keeps P (serve env r)
  unfolding serve
  serve-Keeps env r q = answered r.header r.call q
    where
      answered : (header : String) (call : Call) → Brings Q call → Keeps P (routed env header call)
      answered header (Call.login body) q =
          login-Keeps P _ body (Reports.login-Keeps P env.jwt env.secret env.compare_hash env.now)
      answered header (Call.in_session call) q =
          require_auth-Keeps P _ header _ (validate-Keeps P env.jwt env.secret env.now)
            (λ c. serve_session-Keeps env call c q)
