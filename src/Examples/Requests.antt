-- ===== src/Examples/Requests.antt =====
-- The properties of requests at the small database.
use contribution_tracker.Prelude.{String, ◌≡◌, ◌⊎◌, refl, [], ◌∷◌, arith, some, true, eq_iff}
use contribution_tracker.Database.Session.{ok, World}
use contribution_tracker.Database.Session
use contribution_tracker.Database.Accounts
use contribution_tracker.Database.Users
use contribution_tracker.Web.Router.{Request, Call, SessionCall, TeamCall, AdminCall, serve}
use contribution_tracker.Domain.{BackupFile}
use contribution_tracker.Auth.{AuthContext, validate, context}
use contribution_tracker.Leadership.Invariant.{LeadersAreMembers}
use contribution_tracker.Leadership.Requests.{
  Served, none_served, one_more, Served-LeadersAreMembers,
}
use contribution_tracker.Access.Changes.{Allowed, serve-Allowed}
use contribution_tracker.Access.Tokens.{IsVouched, validate-IsVouched}
use contribution_tracker.Examples.Data.{small_db, small_world, small_env, small_file, plain_jwt}

-- Bob leaves the team, and then Ann tries to.
abbrev removal : String → Request
removal user = record {
  header = "Bearer a-ann";
  call = Call.in_session (SessionCall.on_team "t-core" (TeamCall.remove_member user));
}

abbrev after_one : World
after_one = (serve small_env (removal "u-bob") small_world).1

abbrev after_two : World
after_two = (serve small_env (removal "u-ann") after_one).1

-- An administrator restores a file with one team.
abbrev restoring : BackupFile → Request
restoring f = record {
  header = "Bearer a-ann";
  call = Call.in_session (SessionCall.as_admin (AdminCall.restore_backup (some f)));
}

three-Served : Served small_db (serve small_env (restoring small_file) after_two).1.db
three-Served =
    one_more small_env (restoring small_file) after_two small_db ((refl, tt), tt)
      (one_more small_env (removal "u-ann") after_one small_db tt
        (one_more small_env (removal "u-bob") small_world small_db tt (none_served small_db)))

small_db-LeadersAreMembers : LeadersAreMembers small_db
small_db-LeadersAreMembers t u lead = ground (arith, eq_iff "t-core" t, eq_iff "u-ann" u)

Served-LeadersAreMembers_example :
    LeadersAreMembers (serve small_env (restoring small_file) after_two).1.db
Served-LeadersAreMembers_example =
    Served-LeadersAreMembers small_db (serve small_env (restoring small_file) after_two).1.db
      three-Served small_db-LeadersAreMembers

serve-Allowed_example :
    ((serve small_env (removal "u-bob") small_world).1.db ≡ small_db)
    ⊎ Allowed small_env "Bearer a-ann" (removal "u-bob").call small_db
serve-Allowed_example = serve-Allowed small_env (removal "u-bob") small_world

abbrev vouched_caller : AuthContext
vouched_caller = record { account_id = "a-ann"; user_id = "u-ann"; roles = ("ADMIN", true) ∷ [] }

validated : validate plain_jwt "secret" 0 "a-ann" small_world ≡ (ok vouched_caller, small_world)
unfolding validate context Accounts.find_by_id Users.find_by_account_id Users.load_user
    Session.◌>>=◌ Session.pure Session.wrap Session.query Session.query_row
validated = refl

validate-IsVouched_example : IsVouched plain_jwt "secret" 0 "a-ann" small_db vouched_caller
validate-IsVouched_example =
    validate-IsVouched plain_jwt "secret" 0 "a-ann" small_world small_world vouched_caller validated
