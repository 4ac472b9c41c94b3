-- ===== src/Database/Backups.antt =====
-- src/internal/infrastructure/persistence/pgx_backup_repo.go: `PgxBackupRepo`.
use contribution_tracker.Prelude.{
  ℕ, String, Bool, not, ◌||◌, Option, none, some, List, [], ◌∷◌, ◌++◌, ◌==◌, if◌then◌else◌, any,
  map,
}
use Prim.Native.String
use contribution_tracker.Domain.{BackupFile, Repository, Team, User, UserAccount}
use contribution_tracker.Database.Schema.{
  Db, UserRow, AccountRow, PlatformRow, TeamRow, has_user, has_team,
}
use contribution_tracker.Database.Session.{Sql, pure, wrap, exec, ◌>>=◌, ◌>>◌, transaction}
use contribution_tracker.Database.Users
use contribution_tracker.Database.Accounts
use contribution_tracker.Database.Teams
use contribution_tracker.Database.Repositories
use contribution_tracker.Database.Config

-- encoding/base64: `StdEncoding`, whose decoding may fail. What it decodes may be any bytes: `is_text`
-- tells those that PostgreSQL stores as a `TEXT`, which are valid UTF-8 without a NUL.
pub record Base64 : Type 0 where
  pub encode : String → String
  pub decode : String → Option String
  pub is_text : String → Bool

abbrev pub encode_token : Base64 → Repository → Repository
encode_token b r = if r.api_token == "" then r else record r { api_token = b.encode r.api_token }

unfoldable pub export : Base64 → ℕ → Sql BackupFile
export b now = do
  users ← wrap "export users: " Users.find_all
  accounts ← wrap "export accounts: " Accounts.find_all
  teams ← wrap "export teams: " Teams.find_all
  repos ← wrap "export repos: " Repositories.find_all
  config ← wrap "export config: " Config.find_all
  pure (record {
    metadata = record { app_version = "1.0.0"; exported_at = now; exported_by = "" };
    users = users;
    accounts = accounts;
    teams = teams;
    repositories = map (encode_token b) repos;
    config = config;
  })

-- `DELETE FROM` a table, with `ON DELETE CASCADE` in the tables that refer to it.
abbrev pub tables : List (String × (Db → Db))
tables =
    ("team_repositories", λ d. record d { team_repositories = [] })
    ∷ ("team_leaders", λ d. record d { team_leaders = [] })
    ∷ ("team_members", λ d. record d { team_members = [] })
    ∷ ("user_platform_usernames", λ d. record d { platform_usernames = [] })
    ∷ ("user_accounts", λ d. record d { accounts = [] })
    ∷ (
      "teams",
      λ d. record d { teams = []; team_leaders = []; team_members = []; team_repositories = [] },
    )
    ∷ ("repositories", λ d. record d { repositories = []; team_repositories = [] })
    ∷ (
      "users",
      λ d. record d {
        users = [];
        platform_usernames = [];
        accounts = [];
        team_leaders = [];
        team_members = [];
      },
    )
    ∷ ("app_config", λ d. record d { app_config = [] })
    ∷ []

-- A loop of statements.
abbrev pub each : {A : Type 0} → (A → Sql (Unit {0})) → List A → Sql (Unit {0})
each f [] = pure tt
each f (x ∷ xs) = f x >> each f xs

-- `"<prefix> <name>: "`
abbrev pub about : String → String → String
about text name = String.◌++◌ text (String.◌++◌ name ": ")

abbrev pub clear_table : String × (Db → Db) → Sql (Unit {0})
clear_table (name, cleared) = wrap (about "clear " name) (exec (λ d. some (cleared d)))

-- The `INSERT`s: the primary keys, unique columns, foreign keys and `NOT NULL` hold, or they are
-- refused.
abbrev pub insert_user : UserRow → Db → Option Db
insert_user r d =
    if any (λ u. (u.id == r.id) || (u.username == r.username)) d.users
    then none
    else some (record d { users = d.users ++ r ∷ [] })

abbrev pub insert_platform : PlatformRow → Db → Option Db
insert_platform r d =
    if any (Users.is_platform r.user_id r.platform) d.platform_usernames
      || not (has_user r.user_id d)
    then none
    else some (record d { platform_usernames = d.platform_usernames ++ r ∷ [] })

abbrev pub insert_account : AccountRow → Db → Option Db
insert_account r d =
    if any (λ a. (a.id == r.id) || (a.username == r.username)) d.accounts
      || not (has_user r.user_id d)
      || Accounts.is_null r.roles
    then none
    else some (record d { accounts = d.accounts ++ r ∷ [] })

abbrev pub insert_repository : (String → Bool) → Repository → Db → Option Db
insert_repository is_text r d =
    if any (λ s. (s.id == r.id) || Repositories.same_project r s) d.repositories
      || not (is_text r.api_token)
    then none
    else some (record d { repositories = d.repositories ++ r ∷ [] })

abbrev pub insert_team : TeamRow → Db → Option Db
insert_team t d = if has_team t.id d then none else some (record d { teams = d.teams ++ t ∷ [] })

abbrev pub insert_config : String × String → Db → Option Db
insert_config e d =
    if any (λ f. f.0 == e.0) d.app_config
    then none
    else some (record d { app_config = d.app_config ++ e ∷ [] })

abbrev pub platform_row : String → String × String → PlatformRow
platform_row user e = record { user_id = user; platform = e.0; username = e.1 }

abbrev pub team_row : Team → TeamRow
team_row t = record { id = t.id; name = t.name }

-- The token decoded, or as it is where it does not decode.
abbrev pub decoded_token : Base64 → String → String
decoded_token b token =
    if token == "" then token else elim (b.decode token) [ some s ↦ s | none ↦ token ]

abbrev pub decode_token : Base64 → Repository → Repository
decode_token b r = record r { api_token = decoded_token b r.api_token }

abbrev pub restore_account : UserAccount → Sql (Unit {0})
restore_account a =
    wrap (about "restore account " a.id) (exec (insert_account (Accounts.account_row a)))

abbrev pub restore_repository : Base64 → Repository → Sql (Unit {0})
restore_repository b r =
    wrap (about "restore repo " r.id) (exec (insert_repository b.is_text (decode_token b r)))

abbrev pub restore_team : Team → Sql (Unit {0})
restore_team t =
    wrap (about "restore team " t.id) (exec (insert_team (team_row t)))
    >> each (λ id. wrap "restore team leader: " (exec (Teams.insert_leader t.id id))) t.leader_ids
    >> each (λ id. wrap "restore team member: " (exec (Teams.insert_member t.id id))) t.member_ids
    >> each (λ id. wrap "restore team repo: " (exec (Teams.insert_repository t.id id)))
        t.repository_ids

abbrev pub restore_config : String × String → Sql (Unit {0})
restore_config e = wrap (about "restore config " e.0) (exec (insert_config e))

-- `visit` is the order in which Go visits a map.
module _ (b : Base64) (visit : List (String × String) → List (String × String)) where
  abbrev pub restore_user : User → Sql (Unit {0})
  restore_user u =
      wrap (about "restore user " u.id) (exec (insert_user (Users.user_row u)))
      >> each
          (λ e. wrap "restore platform username: " (exec (insert_platform (platform_row u.id e))))
          (visit u.platform_usernames)

  unfoldable pub restore_statements : BackupFile → Sql (Unit {0})
  restore_statements f =
      each clear_table tables
      >> each restore_user f.users
      >> each restore_account f.accounts
      >> each (restore_repository b) f.repositories
      >> each restore_team f.teams
      >> each restore_config (visit f.config)

  unfoldable pub restore : BackupFile → Sql (Unit {0})
  restore f = transaction "begin restore tx: " (restore_statements f)
