-- ===== src/Database/Schema.antt =====
-- The tables of src/migrations/001_initial_schema.sql, 003 and 004, as lists of rows in the order in
-- which the database returns them. A change that a constraint forbids gives `none`.
use contribution_tracker.Prelude.{
  String, Bool, ◌&&◌, not, List, [], ◌∷◌, map, ◌==◌, if◌then◌else◌, any, keep,
}
use contribution_tracker.Domain.{Repository}

pub record UserRow : Type 0 where
  pub id : String
  pub username : String
  pub display_name : String
  pub email : String
  pub avatar_url : String

pub record AccountRow : Type 0 where
  pub id : String
  pub username : String
  pub password_hash : String
  pub roles : List String
  pub user_id : String

pub record TeamRow : Type 0 where
  pub id : String
  pub name : String

-- A row of a link table, `(team_id, user_id)` or `(team_id, repo_id)`.
abbrev pub Link : Type 0
Link = String × String

pub record PlatformRow : Type 0 where
  pub user_id : String
  pub platform : String
  pub username : String

-- `collation` is the order of texts that the database was created with.
pub record Db : Type 0 where
  pub users : List UserRow
  pub platform_usernames : List PlatformRow
  pub accounts : List AccountRow
  pub teams : List TeamRow
  pub team_leaders : List Link
  pub team_members : List Link
  pub repositories : List Repository
  pub team_repositories : List Link
  pub app_config : List (String × String)
  pub collation : String → String → Bool

abbrev pub is_link : String → String → Link → Bool
is_link a b l = (l.0 == a) && (l.1 == b)

abbrev pub has_link : String → String → List Link → Bool
has_link a b ls = any (is_link a b) ls

-- `SELECT <second column> … WHERE <first column> = a`
abbrev pub linked : String → List Link → List String
linked a [] = []
linked a (l ∷ ls) = let rest = linked a ls in if l.0 == a then l.1 ∷ rest else rest

abbrev pub has_user : String → Db → Bool
has_user id d = any (λ u. u.id == id) d.users

abbrev pub has_team : String → Db → Bool
has_team id d = any (λ t. t.id == id) d.teams

abbrev pub has_repository : String → Db → Bool
has_repository id d = any (λ r. r.id == id) d.repositories

-- `UPDATE` of the rows that pass the test.
abbrev pub update_rows {ℓ} : {A : Type ℓ} → (A → Bool) → (A → A) → List A → List A
update_rows p f xs = map (λ x. if p x then f x else x) xs

-- `ORDER BY` a column, under the database's collation.
abbrev pub put_in_order {ℓ} :
    {A : Type ℓ} → (String → String → Bool) → (A → String) → A → List A → List A
put_in_order le key x [] = x ∷ []
put_in_order le key x (y ∷ ys) =
    let later = put_in_order le key x ys in if le (key x) (key y) then x ∷ y ∷ ys else y ∷ later

unfoldable pub order_by {ℓ} :
    {A : Type ℓ} → (String → String → Bool) → (A → String) → List A → List A
order_by le key [] = []
order_by le key (x ∷ xs) = put_in_order le key x (order_by le key xs)

-- `DELETE FROM teams WHERE id = a`, with `ON DELETE CASCADE` in the three link tables.
unfoldable pub delete_team : String → Db → Db
delete_team a d = record d {
  teams = keep (λ t. not (t.id == a)) d.teams;
  team_leaders = keep (λ l. not (l.0 == a)) d.team_leaders;
  team_members = keep (λ l. not (l.0 == a)) d.team_members;
  team_repositories = keep (λ l. not (l.0 == a)) d.team_repositories;
}

-- `DELETE FROM users WHERE id = a`, with `ON DELETE CASCADE` in the tables that refer to users.
unfoldable pub delete_user : String → Db → Db
delete_user a d = record d {
  users = keep (λ u. not (u.id == a)) d.users;
  platform_usernames = keep (λ p. not (p.user_id == a)) d.platform_usernames;
  accounts = keep (λ c. not (c.user_id == a)) d.accounts;
  team_leaders = keep (λ l. not (l.1 == a)) d.team_leaders;
  team_members = keep (λ l. not (l.1 == a)) d.team_members;
}
