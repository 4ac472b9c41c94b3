-- ===== src/Database/Users.antt =====
-- src/internal/infrastructure/persistence/pgx_user_repo.go: `PgxUserRepo`.
use contribution_tracker.Prelude.{
  String, Bool, not, Option, none, some, List, [], ◌∷◌, ◌++◌, ◌==◌, ◌&&◌, if◌then◌else◌, any, keep,
  find, contains, insert,
}
use contribution_tracker.Domain.{User, GitPlatform}
use contribution_tracker.Database.Schema.{
  Db, UserRow, PlatformRow, has_user, update_rows, order_by, delete_user,
}
use contribution_tracker.Database.Session.{Sql, pure, wrap, query, query_row, exec, ◌>>=◌}

-- `platforms[…] = username` for each row of the user, in the order of the rows.
abbrev pub add_platforms :
    String → List (String × String) → List PlatformRow → List (String × String)
add_platforms id m [] = m
add_platforms id m (p ∷ ps) =
    add_platforms id (if p.user_id == id then insert p.platform p.username m else m) ps

abbrev pub platform_map : String → List PlatformRow → List (String × String)
platform_map id rows = add_platforms id [] rows

abbrev pub load_platform_usernames : String → Sql (List (String × String))
load_platform_usernames id =
    wrap "load platform usernames: " (query (λ d. platform_map id d.platform_usernames))

unfoldable pub load_user : UserRow → Sql User
load_user u = do
  platforms ← load_platform_usernames u.id
  pure (record {
    id = u.id;
    username = u.username;
    display_name = u.display_name;
    email = u.email;
    avatar_url = u.avatar_url;
    platform_usernames = platforms;
  })

unfoldable pub load_users : List UserRow → Sql (List User)
load_users [] = pure []
load_users (u ∷ us) = do user ← load_user u; users ← load_users us; pure (user ∷ users)

unfoldable pub find_by_id : String → Sql User
find_by_id id = do
  u ← wrap "find user by id: " (query_row (λ d. find (λ u. u.id == id) d.users))
  load_user u

-- `WHERE id = ANY($1)`: each user once, whatever the order and the repetitions of the list.
unfoldable pub find_by_ids : List String → Sql (List User)
find_by_ids ids = do
  rows ← wrap "find users by ids: " (query (λ d. keep (λ u. contains u.id ids) d.users))
  load_users rows

abbrev pub user_of_account : String → Db → Option UserRow
user_of_account account d =
    find (λ u. any (λ a. (a.user_id == u.id) && (a.id == account)) d.accounts) d.users

unfoldable pub find_by_account_id : String → Sql User
find_by_account_id account = do
  u ← wrap "find user by account id: " (query_row (user_of_account account))
  load_user u

abbrev pub is_platform : String → String → PlatformRow → Bool
is_platform user platform p = (p.user_id == user) && (p.platform == platform)

abbrev pub upsert_platform : PlatformRow → Db → Option Db
upsert_platform r d =
    if any (is_platform r.user_id r.platform) d.platform_usernames
    then some (record d {
      platform_usernames =
          update_rows (is_platform r.user_id r.platform) (λ _. r) d.platform_usernames;
    })
    else if has_user r.user_id d
    then some (record d { platform_usernames = d.platform_usernames ++ r ∷ [] })
    else none

unfoldable pub update_platform_username : String → GitPlatform → String → Sql (Unit {0})
update_platform_username user platform name =
    wrap "update platform username: " (
      exec (upsert_platform (record { user_id = user; platform = platform.name; username = name })))

unfoldable pub find_all : Sql (List User)
find_all = do
  rows ← wrap "find all users: " (query (λ d. order_by d.collation (λ u. u.username) d.users))
  load_users rows

-- `ON CONFLICT (id) DO UPDATE`; `username` is unique.
abbrev pub upsert_user : UserRow → Db → Option Db
upsert_user r d =
    if any (λ u. not (u.id == r.id) && (u.username == r.username)) d.users
    then none
    else if has_user r.id d
    then some (record d { users = update_rows (λ u. u.id == r.id) (λ _. r) d.users })
    else some (record d { users = d.users ++ r ∷ [] })

abbrev pub user_row : User → UserRow
user_row u = record {
  id = u.id;
  username = u.username;
  display_name = u.display_name;
  email = u.email;
  avatar_url = u.avatar_url;
}

unfoldable pub save : User → Sql (Unit {0})
save u = wrap "save user: " (exec (upsert_user (user_row u)))

unfoldable pub delete : String → Sql (Unit {0})
delete id = wrap "delete user: " (exec (λ d. some (delete_user id d)))
