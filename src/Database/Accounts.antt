-- ===== src/Database/Accounts.antt =====
-- src/internal/infrastructure/persistence/pgx_user_account_repo.go: `PgxUserAccountRepo`.
use contribution_tracker.Prelude.{
  String, Bool, true, false, not, Option, none, some, List, [], ◌∷◌, ◌++◌, map, ◌==◌, ◌&&◌,
  if◌then◌else◌, any, keep, find, insert,
}
use contribution_tracker.Domain.{RoleSet, UserAccount, keys}
use contribution_tracker.Database.Schema.{Db, AccountRow, has_user, update_rows, order_by}
use contribution_tracker.Database.Session.{Sql, pure, wrap, query, query_row, exec, ◌>>=◌}

-- `for r := range roles`: every key, also one whose value is false.
abbrev pub roles_to_strings : RoleSet → List String
roles_to_strings roles = keys roles

abbrev pub add_roles : RoleSet → List String → RoleSet
add_roles roles [] = roles
add_roles roles (s ∷ ss) = add_roles (insert s true roles) ss

abbrev pub strings_to_roles : List String → RoleSet
strings_to_roles ss = add_roles [] ss

abbrev pub scan_account : AccountRow → UserAccount
scan_account r = record {
  id = r.id;
  username = r.username;
  password_hash = r.password_hash;
  roles = strings_to_roles r.roles;
  user_id = r.user_id;
}

unfoldable pub find_by_username : String → Sql UserAccount
find_by_username name = do
  r ← wrap "scan account: " (query_row (λ d. find (λ a. a.username == name) d.accounts))
  pure (scan_account r)

unfoldable pub find_by_id : String → Sql UserAccount
find_by_id id = do
  r ← wrap "scan account: " (query_row (λ d. find (λ a. a.id == id) d.accounts))
  pure (scan_account r)

abbrev pub has_account : String → Db → Bool
has_account id d = any (λ a. a.id == id) d.accounts

-- The slice that `rolesToStrings` makes of no keys is nil, which is sent as `NULL`.
abbrev pub is_null : List String → Bool
is_null [] = true
is_null (_ ∷ _) = false

-- `ON CONFLICT (id) DO UPDATE`; `roles` is `NOT NULL`, `username` is unique and `user_id` refers to a
-- user.
abbrev pub upsert_account : AccountRow → Db → Option Db
upsert_account r d =
    if is_null r.roles
    then none
    else if any (λ a. not (a.id == r.id) && (a.username == r.username)) d.accounts
    then none
    else if not (has_user r.user_id d)
    then none
    else if has_account r.id d
    then some (record d { accounts = update_rows (λ a. a.id == r.id) (λ _. r) d.accounts })
    else some (record d { accounts = d.accounts ++ r ∷ [] })

abbrev pub account_row : UserAccount → AccountRow
account_row a = record {
  id = a.id;
  username = a.username;
  password_hash = a.password_hash;
  roles = roles_to_strings a.roles;
  user_id = a.user_id;
}

unfoldable pub save : UserAccount → Sql (Unit {0})
save a = wrap "save account: " (exec (upsert_account (account_row a)))

abbrev pub delete_accounts : String → Db → Option Db
delete_accounts user d =
    some (record d { accounts = keep (λ a. not (a.user_id == user)) d.accounts })

unfoldable pub delete : String → Sql (Unit {0})
delete user = wrap "delete account: " (exec (delete_accounts user))

unfoldable pub find_all : Sql (List UserAccount)
find_all = do
  rows ← wrap "find all accounts: " (query (λ d. order_by d.collation (λ a. a.username) d.accounts))
  pure (map scan_account rows)
