-- ===== src/Access/Changes.antt =====
-- Which requests may change the database, and for whom: router.go with middleware.go.
use contribution_tracker.Prelude.{
  trim_prefix-eq, String, ◌≡◌, refl, ap, ◌∙◌, Bool, true, false, some, ◌⊎◌, inl, inr, ◌==◌,
  if◌then◌else◌, eq_iff, arith, trim_prefix,
}
use mathlib.Core.Path.{subst}
use Prim.Native.String
use contribution_tracker.Database.Schema.{Db, has_link}
use contribution_tracker.Database.Session.{Result, ok, err, World}
use contribution_tracker.Auth.{AuthContext, is_admin, validate}
use contribution_tracker.Web.Middleware.{require_auth}
use contribution_tracker.Web.Responses.{Handler, write_json, write_error, or_error, proceed}
use contribution_tracker.Web.Router.{
  Env, AdminCall, SessionCall, Call, Request, serve_team, serve_admin, serve_session, routed, serve,
}
use contribution_tracker.Web.Closed.Accounts.{
  list_users-Keeps, get_profile-Keeps, get_all-Keeps, login-Keeps, export-Keeps,
}
use contribution_tracker.Web.Closed.Projects.{list_teams-Keeps}
use contribution_tracker.Web.Closed.Reports.{validate-Keeps}
use contribution_tracker.Web.Closed.Reports as Reports
use contribution_tracker.Access.Guards.{Either, reads, role-Either, team-Either}
use contribution_tracker.Access.Tokens.{IsVouched, validate-IsVouched}

-- The routes of an administrator that are no reads.
abbrev pub Alters : AdminCall → Type 0
Alters AdminCall.get_config = ⊥
Alters AdminCall.list_users = ⊥
Alters (AdminCall.set_config _) = Unit
Alters (AdminCall.create_user _) = Unit
Alters (AdminCall.delete_user _) = Unit
Alters (AdminCall.create_team _) = Unit
Alters (AdminCall.delete_team _) = Unit
Alters (AdminCall.add_leader _ _) = Unit
Alters (AdminCall.remove_leader _ _) = Unit
Alters AdminCall.export_backup = ⊥
Alters (AdminCall.restore_backup _) = Unit

-- Who may change the database by a route: a team's leaders and the administrators change the team,
-- administrators the rest; a report stores what its fetchers discover, a profile is the caller's own.
abbrev pub May : SessionCall → AuthContext → Db → Type 0
May (SessionCall.stream_report _) c d = Unit
May SessionCall.get_profile c d = ⊥
May (SessionCall.set_platform_username _) c d = Unit
May SessionCall.list_teams c d = ⊥
May (SessionCall.on_team team _) c d =
    (is_admin c ≡ true) ⊎ (has_link team c.user_id d.team_leaders ≡ true)
May (SessionCall.as_admin call) c d = (is_admin c ≡ true) × Alters call

-- The caller of a request is vouched for by its token, and may call the route.
pub record IsAllowed (env : Env) (header : String) (call : SessionCall) (d : Db) : Type 0 where
  pub text : String
  pub caller : AuthContext
  pub bearer : String.◌++◌ "Bearer " text ≡ header
  pub vouched : IsVouched env.jwt env.secret env.now text d caller
  pub may : May call caller d

abbrev pub Allowed : Env → String → Call → Db → Type 0
Allowed env header (Call.login _) d = ⊥
Allowed env header (Call.in_session call) d = IsAllowed env header call d

admin_call-Alters :
    (env : Env) (call : AdminCall) (w : World) → Either (serve_admin env call) w (Alters call)
admin_call-Alters env AdminCall.get_config w = reads _ w _ (get_all-Keeps _)
admin_call-Alters env AdminCall.list_users w = reads _ w _ (list_users-Keeps _)
admin_call-Alters env (AdminCall.set_config _) w = inr tt
admin_call-Alters env (AdminCall.create_user _) w = inr tt
admin_call-Alters env (AdminCall.delete_user _) w = inr tt
admin_call-Alters env (AdminCall.create_team _) w = inr tt
admin_call-Alters env (AdminCall.delete_team _) w = inr tt
admin_call-Alters env (AdminCall.add_leader _ _) w = inr tt
admin_call-Alters env (AdminCall.remove_leader _ _) w = inr tt
admin_call-Alters env AdminCall.export_backup w = reads _ w _ (export-Keeps _ env.base64 env.now)
admin_call-Alters env (AdminCall.restore_backup _) w = inr tt

session-May :
    (env : Env) (call : SessionCall) (c : AuthContext) (w : World)
    → Either (serve_session env call (some c)) w (May call c w.db)
session-May env (SessionCall.stream_report _) c w = inr tt
session-May env SessionCall.get_profile c w = reads _ w _ (get_profile-Keeps _ (some c))
session-May env (SessionCall.set_platform_username _) c w = inr tt
session-May env SessionCall.list_teams c w = reads _ w _ (list_teams-Keeps _ (some c))
session-May env (SessionCall.on_team team call) c w =
    team-Either team c (serve_team env team call) w
session-May env (SessionCall.as_admin call) c w =
    role-Either c (serve_admin env call) w (Alters call) (admin_call-Alters env call w)

-- After `Validate`, which only reads.
accepted-Either :
    (env : Env) (header text : String) (call : SessionCall) (w w' : World) (r : Result AuthContext)
    → String.◌++◌ "Bearer " text ≡ header
    → w'.db ≡ w.db
    → ((c : AuthContext) → r ≡ ok c → IsVouched env.jwt env.secret env.now text w.db c)
    → ((proceed r 401 "invalid token" (λ c. serve_session env call (some c)) w').1.db ≡ w.db)
      ⊎ IsAllowed env header call w.db
unfolding write_json
accepted-Either env header text call w w' (err _) bearer back vouched = inl back
accepted-Either env header text call w w' (ok c) bearer back vouched =
    elim (session-May env call c w') [
      | inl same ↦ inl (same ∙ back)
      | inr may ↦ inr (record {
        text = text;
        caller = c;
        bearer = bearer;
        vouched = vouched c refl;
        may = subst (λ d. May call c d) back may;
      })
    ]

auth-Either :
    (env : Env) (header : String) (call : SessionCall) (w : World)
    → Either
        (require_auth (validate env.jwt env.secret env.now) header (serve_session env call))
        w
        (IsAllowed env header call w.db)
unfolding require_auth or_error write_json
auth-Either env header call w = by_header (header == "")
  where
    text : String
    text = trim_prefix "Bearer " header

    checked : Handler
    checked =
        or_error (validate env.jwt env.secret env.now text) 401 "invalid token"
          (λ c. serve_session env call (some c))

    accepted :
        (String.◌++◌ "Bearer " text ≡ header) → Either checked w (IsAllowed env header call w.db)
    accepted bearer =
        accepted-Either env header text call w (validate env.jwt env.secret env.now text w).1
          (validate env.jwt env.secret env.now text w).0 bearer
          ((validate-Keeps (λ d. d ≡ w.db) env.jwt env.secret env.now text).at w refl)
          (λ c e.
            validate-IsVouched env.jwt env.secret env.now text w
              (validate env.jwt env.secret env.now text w).1 c
              (ap (λ r. (r, (validate env.jwt env.secret env.now text w).1)) e))

    by_format :
        (b : Bool)
        → (text == header) ≡ b
        → Either
            (if b then write_error 401 "invalid authorization format" else checked)
            w
            (IsAllowed env header call w.db)
    by_format true e = inl refl
    by_format false e = elim (trim_prefix-eq "Bearer " header) [
      | inl same ↦ ground (arith, same, e, eq_iff text header)
      | inr bearer ↦ accepted bearer
    ]

    by_header :
        (b : Bool)
        → Either
            (if b
              then write_error 401 "missing authorization header"
              else if text == header
              then write_error 401 "invalid authorization format"
              else checked)
            w
            (IsAllowed env header call w.db)
    by_header true = inl refl
    by_header false = by_format (text == header) refl

-- A request leaves the database as it is, or else it is no login, its header is "Bearer " and a token
-- that vouches for a caller, and the route is one that this caller may change the database by: for a
-- team's repositories and members an administrator or a user whom the database has as a leader of the
-- team, for the administration an administrator, and never by a route that only reads.
pub serve-Allowed :
    (env : Env) (r : Request) (w : World)
    → ((serve env r w).1.db ≡ w.db) ⊎ Allowed env r.header r.call w.db
unfolding serve
serve-Allowed env r w = by_call r.call
  where
    by_call : (call : Call) → Either (routed env r.header call) w (Allowed env r.header call w.db)
    by_call (Call.login body) =
        reads _ w _
          (login-Keeps _ _ body (Reports.login-Keeps _ env.jwt env.secret env.compare_hash env.now))
    by_call (Call.in_session call) = auth-Either env r.header call w
