-- ===== src/Database/Copies.antt =====
-- What of a database `Export` and `Restore` of pgx_backup_repo.go keep.
use contribution_tracker.Prelude.{
  ℕ, String, ◌≡◌, refl, sym, ap, ◌∙◌, Bool, true, false, some, List, [], ◌∷◌, ◌==◌, ◌⊎◌, inl, inr,
  map, count, contains, insert, ◌||◌, lookup, Option, All, any, ◌++◌, ◌≤◌, arith, eq_iff,
  if◌then◌else◌,
}
use mathlib.Core.List.{flatten}
use mathlib.Core.List.Permᴰ
use mathlib.Core.List.{Permᴰ}
use contribution_tracker.Domain.{Repository, RoleSet, Team, keys}
use contribution_tracker.Database.Schema.{
  Db, Link, AccountRow, UserRow, TeamRow, linked, put_in_order, has_user, has_team, order_by,
}
use contribution_tracker.Database.Calm.{loaded_user, loaded_team}
use contribution_tracker.Database.Users
use contribution_tracker.Database.Accounts
use contribution_tracker.Database.Config
use contribution_tracker.Database.Entries.{
  entries, entries-perm, entries-assigned, assigned, lookup-assigned, lookup-perm, or_none,
}
use contribution_tracker.Database.Users.{platform_map}
use contribution_tracker.Database.Usernames.{
  entries-add_platforms, platform_map-unknown, written, written-none, written-one,
}
use contribution_tracker.Database.Backups.{
  Base64, encode_token, decode_token, platform_row, team_row,
}
use contribution_tracker.Database.Restoring.{links_of, platforms_of}
use contribution_tracker.Database.Exporting.{
  users_in_order, teams_in_order, linked-loaded, linked-none, order_by-count,
}

decoded-encoded :
    (b : Base64)
    → ((s : String) → b.decode (b.encode s) ≡ some s)
    → ((s : String) → (s == "") ≡ false → (b.encode s == "") ≡ false)
    → (r : Repository) → decode_token b (encode_token b r) ≡ r
decoded-encoded b back filled r = by_token (r.api_token == "") refl
  where
    by_token :
        (c : Bool)
        → (r.api_token == "") ≡ c
        → decode_token b (if c then r else record r { api_token = b.encode r.api_token }) ≡ r
    by_token true e = ap (λ s. record r { api_token = s }) (rw e refl)
    by_token false e =
        ap (λ s. record r { api_token = s }) (rw (filled r.api_token e, back r.api_token) refl)

-- A token comes back from its encoding.
pub decode-encode :
    (b : Base64)
    → ((s : String) → b.decode (b.encode s) ≡ some s)
    → ((s : String) → (s == "") ≡ false → (b.encode s == "") ≡ false)
    → (rs : List Repository) → map (decode_token b) (map (encode_token b) rs) ≡ rs
decode-encode b back filled [] = refl
decode-encode b back filled (r ∷ rs) =
    rw (decoded-encoded b back filled r, decode-encode b back filled rs) refl

pub rows_of_users : (d : Db) (rs : List UserRow) → map Users.user_row (map (loaded_user d) rs) ≡ rs
rows_of_users d [] = refl
rows_of_users d (r ∷ rs) = ap (λ l. r ∷ l) (rows_of_users d rs)

pub rows_of_teams : (d : Db) (rs : List TeamRow) → map team_row (map (loaded_team d) rs) ≡ rs
rows_of_teams d [] = refl
rows_of_teams d (r ∷ rs) = ap (λ l. r ∷ l) (rows_of_teams d rs)

links_of-loaded :
    (ids : Team → List String) (ls : List Link) (d : Db)
    → ((r : TeamRow) → ids (loaded_team d r) ≡ linked r.id ls)
    → (rs : List TeamRow)
    → links_of ids (map (loaded_team d) rs)
      ≡ flatten (map (λ r. map (λ id. (r.id, id)) (linked r.id ls)) rs)
unfolding flatten
links_of-loaded ids ls d h [] = refl
links_of-loaded ids ls d h (r ∷ rs) = rw (h r, links_of-loaded ids ls d h rs) refl

-- The primary keys of the users, the teams and the configuration hold, platform usernames refer to users, and links to teams.
pub record IsKeyed (d : Db) : Type 0 where
  pub users : (u : String) → count (λ r. r.id == u) d.users ≤ 1
  pub config : (k : String) → entries k d.app_config ≤ 1
  pub teams : (t : String) → count (λ r. r.id == t) d.teams ≤ 1
  pub platforms : All (λ p. has_user p.user_id d ≡ true) d.platform_usernames
  pub leaders : All (λ l. has_team l.0 d ≡ true) d.team_leaders
  pub members : All (λ l. has_team l.0 d ≡ true) d.team_members
  pub repositories : All (λ l. has_team l.0 d ≡ true) d.team_repositories

-- What is read of a user's name on a platform.
abbrev pub platform_username : String → String → Db → Option String
platform_username user platform d = lookup platform (platform_map user d.platform_usernames)

-- The same accounts, in the same order, each with the same roles.
abbrev pub SameAccounts : List AccountRow → List AccountRow → Type 0
SameAccounts [] [] = Unit
SameAccounts [] (_ ∷ _) = ⊥
SameAccounts (_ ∷ _) [] = ⊥
SameAccounts (a ∷ rest) (b ∷ others) =
    (record a { roles = [] } ≡ record b { roles = [] })
    × ((role : String) → contains role a.roles ≡ contains role b.roles)
    × SameAccounts rest others

-- The second database has the users, the accounts, the teams and the repositories of the first in the
-- order in which they are listed, for each user the same platform usernames, for each team the same
-- leaders, members and repositories, and for each key of the configuration the same value.
abbrev pub IsCopy : Db → Db → Type 0
IsCopy d d' =
    (d'.users ≡ order_by d.collation (λ u. u.username) d.users)
    × SameAccounts d'.accounts (order_by d.collation (λ a. a.username) d.accounts)
    × (d'.teams ≡ order_by d.collation (λ t. t.name) d.teams)
    × (d'.repositories ≡ order_by d.collation (λ r. r.full_name) d.repositories)
    × ((user platform : String)
        → platform_username user platform d' ≡ platform_username user platform d)
    × ((t : String) → linked t d'.team_leaders ≡ linked t d.team_leaders)
    × ((t : String) → linked t d'.team_members ≡ linked t d.team_members)
    × ((t : String) → linked t d'.team_repositories ≡ linked t d.team_repositories)
    × ((k : String) → lookup k d'.app_config ≡ lookup k d.app_config)

-- A row that is there once, or not at all.
once_or_not : (n : ℕ) → n ≤ 1 → (n ≡ 1) ⊎ (n ≡ 0)
once_or_not n h = omega (arith, h)

any-count : {A : Type 0} (p : A → Bool) (xs : List A) → count p xs ≡ 0 → any p xs ≡ false
any-count p [] e = refl
any-count p (x ∷ xs) e = ground (arith, e, any-count p xs)

linked-unknown :
    (t : String) (d : Db) (ls : List Link)
    → All (λ l. has_team l.0 d ≡ true) ls
    → has_team t d ≡ false
    → linked t ls ≡ []
linked-unknown t d [] h e = refl
linked-unknown t d (l ∷ ls) (h, hs) e =
    apart (l.0 == t) ((eq_iff l.0 t).0) (linked-unknown t d ls hs e)
  where
    apart :
        (b : Bool)
        → (b ≡ true → l.0 ≡ t)
        → linked t ls ≡ []
        → (if b then l.1 ∷ linked t ls else linked t ls) ≡ []
    apart true same rest = cc (same refl, h, e)
    apart false same rest = rest

pub links-back :
    (ids : Team → List String) (ls : List Link) (d : Db) (t : String)
    → ((r : TeamRow) → ids (loaded_team d r) ≡ linked r.id ls)
    → count (λ r. r.id == t) d.teams ≤ 1
    → All (λ l. has_team l.0 d ≡ true) ls
    → linked t (links_of ids (map (loaded_team d) (teams_in_order d))) ≡ linked t ls
links-back ids ls d t h most known =
    let ordered = order_by-count d.collation (λ t. t.name) (λ r. r.id == t) d.teams in
    ap (linked t) (links_of-loaded ids ls d h (teams_in_order d))
    ∙ elim (once_or_not (count (λ r. r.id == t) d.teams) most) [
      | inl one ↦ linked-loaded d ls t (teams_in_order d) (ordered ∙ one)
      | inr not_one ↦
          linked-none d ls t (teams_in_order d) (ordered ∙ not_one)
          ∙ sym (linked-unknown t d ls known (any-count (λ r. r.id == t) d.teams not_one))
    ]

platforms_of-loaded :
    (visit : List (String × String) → List (String × String)) (d : Db) (rs : List UserRow)
    → platforms_of visit (map (loaded_user d) rs)
      ≡ written visit (λ u. platform_map u d.platform_usernames) rs
unfolding flatten
platforms_of-loaded visit d [] = refl
platforms_of-loaded visit d (r ∷ rs) =
    ap (λ l. map (platform_row r.id) (visit (platform_map r.id d.platform_usernames)) ++ l)
      (platforms_of-loaded visit d rs)

pub usernames-back :
    (visit : List (String × String) → List (String × String))
    → ((m : List (String × String)) → Permᴰ (visit m) m)
    → (d : Db) (user platform : String) → IsKeyed d
    → lookup platform
        (platform_map user (platforms_of visit (map (loaded_user d) (users_in_order d))))
      ≡ platform_username user platform d
usernames-back visit once d user platform keyed =
    let maps : String → List (String × String) = λ u. platform_map u d.platform_usernames in
    let single : (u k : String) → entries k (maps u) ≤ 1 =
      λ u k. entries-add_platforms k u d.platform_usernames [] (omega arith) in
    let ordered = order_by-count d.collation (λ u. u.username) (λ r. r.id == user) d.users in
    ap (λ l. lookup platform (platform_map user l)) (platforms_of-loaded visit d (users_in_order d))
    ∙ elim (once_or_not (count (λ r. r.id == user) d.users) (keyed.users user)) [
      | inl one ↦
          written-one visit once maps single user platform (users_in_order d) (ordered ∙ one)
      | inr not_one ↦ ap (lookup platform) (
          written-none visit once maps single user (users_in_order d) [] (ordered ∙ not_one)
          ∙ sym (
              platform_map-unknown user d d.platform_usernames keyed.platforms
                (any-count (λ r. r.id == user) d.users not_one)))
    ]

contains-insert :
    (role s : String) (m : RoleSet)
    → contains role (keys (insert s true m)) ≡ ((s == role) || contains role (keys m))
contains-insert role s [] = ground arith
contains-insert role s ((j, b) ∷ m) =
    ground (arith, eq_iff j s, eq_iff s role, eq_iff j role, contains-insert role s m)

contains-add_roles :
    (role : String) (m : RoleSet) (ss : List String)
    → contains role (keys (Accounts.add_roles m ss)) ≡ (contains role ss || contains role (keys m))
contains-add_roles role m [] = refl
contains-add_roles role m (s ∷ ss) =
    ground (arith, contains-add_roles role (insert s true m) ss, contains-insert role s m)

pub accounts-back :
    (rs : List AccountRow)
    → SameAccounts (map Accounts.account_row (map Accounts.scan_account rs)) rs
accounts-back [] = tt
accounts-back (r ∷ rs) =
    (refl, λ role. ground (arith, contains-add_roles role [] r.roles), accounts-back rs)

put_in_order-perm :
    {A : Type 0} (le : String → String → Bool) (key : A → String) (x : A) (xs : List A)
    → Permᴰ (put_in_order le key x xs) (x ∷ xs)
put_in_order-perm le key x [] = Permᴰ.refl (x ∷ [])
put_in_order-perm le key x (y ∷ ys) = placed (le (key x) (key y)) (put_in_order-perm le key x ys)
  where
    placed :
        (b : Bool)
        → Permᴰ (put_in_order le key x ys) (x ∷ ys)
        → Permᴰ (if b then x ∷ y ∷ ys else y ∷ put_in_order le key x ys) (x ∷ y ∷ ys)
    placed true later = Permᴰ.refl (x ∷ y ∷ ys)
    placed false later = Permᴰ.trans (Permᴰ.cons refl later) (Permᴰ.swap refl refl)

order_by-perm :
    {A : Type 0} (le : String → String → Bool) (key : A → String) (xs : List A)
    → Permᴰ (order_by le key xs) xs
unfolding order_by
order_by-perm le key [] = Permᴰ.nil
order_by-perm le key (x ∷ xs) =
    Permᴰ.trans (put_in_order-perm le key x (order_by le key xs))
      (Permᴰ.cons refl (order_by-perm le key xs))

to_map-assigned : (m rows : List (String × String)) → Config.to_map m rows ≡ assigned m rows
unfolding Config.to_map
to_map-assigned m [] = refl
to_map-assigned m (e ∷ rows) = to_map-assigned (insert e.0 e.1 m) rows

-- A value of the configuration comes back from the map that is exported.
pub config-back :
    (visit : List (String × String) → List (String × String))
    → ((m : List (String × String)) → Permᴰ (visit m) m)
    → (le : String → String → Bool) (k : String) (rows : List (String × String))
    → entries k rows ≤ 1
    → lookup k (visit (Config.to_map [] (order_by le (λ e. e.0) rows))) ≡ lookup k rows
config-back visit once le k rows most =
    let sorted : List (String × String) = order_by le (λ e. e.0) rows in
    let back = order_by-perm le (λ (e : String × String). e.0) rows in
    let few : entries k sorted ≤ 1 = omega (arith, most, entries-perm k back) in
    ap (λ m. lookup k (visit m)) (to_map-assigned [] sorted)
    ∙ lookup-perm k (once (assigned [] sorted)) (
        omega (
          arith,
          entries-perm k (once (assigned [] sorted)),
          entries-assigned k [] sorted (omega arith),
        ))
    ∙ lookup-assigned k [] sorted few
    ∙ or_none (lookup k sorted)
    ∙ lookup-perm k back few
