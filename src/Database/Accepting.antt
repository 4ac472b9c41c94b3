-- ===== src/Database/Accepting.antt =====
-- The constraints of the tables, and the loop over a file's users in `Restore` of pgx_backup_repo.go.
use contribution_tracker.Prelude.{
  String, ◌≡◌, refl, sym, ◌||◌, ◌==◌, Bool, true, false, some, List, [], ◌∷◌, ◌++◌, All, any, map,
  append_assoc, arith, eq_iff,
}
use mathlib.Core.Path.{subst}
use mathlib.Core.List.{flatten}
use contribution_tracker.Domain.{Repository, User}
use contribution_tracker.Database.Schema.{
  Db, UserRow, AccountRow, PlatformRow, TeamRow, Link, is_link, has_user, has_repository,
}
use contribution_tracker.Database.Session.{wrap, exec}
use contribution_tracker.Database.Runs.{after}
use contribution_tracker.Database.Restoring.{platforms_of, add_user}
use contribution_tracker.Database.Passing.{
  Passes, Passes-exec, Passes-wrap, Passes-pure, Passes-then, Unique, Unique-fresh, inserted-Passes,
}
use contribution_tracker.Database.Users
use contribution_tracker.Database.Accounts
use contribution_tracker.Database.Repositories
use contribution_tracker.Database.Backups.{
  Base64, each, about, clear_table, insert_user, insert_platform, platform_row, restore_user,
}

-- The rows that a key keeps apart, for each table.
abbrev pub clash_user : UserRow → UserRow → Bool
clash_user r u = (u.id == r.id) || (u.username == r.username)

abbrev pub clash_platform : PlatformRow → PlatformRow → Bool
clash_platform r p = Users.is_platform r.user_id r.platform p

abbrev pub clash_account : AccountRow → AccountRow → Bool
clash_account r a = (a.id == r.id) || (a.username == r.username)

abbrev pub clash_repository : Repository → Repository → Bool
clash_repository r s = (s.id == r.id) || Repositories.same_project r s

abbrev pub clash_team : TeamRow → TeamRow → Bool
clash_team t s = s.id == t.id

abbrev pub clash_link : Link → Link → Bool
clash_link l m = is_link l.0 l.1 m

abbrev pub clash_config : String × String → String × String → Bool
clash_config e f = f.0 == e.0

-- The keys of the tables hold, the accounts and links refer to users and repositories that exist, each
-- account has a role, and each token is a text.
pub record IsConsistent (is_text : String → Bool) (d : Db) : Type 0 where
  pub users : Unique clash_user d.users
  pub platforms : Unique clash_platform d.platform_usernames
  pub accounts : Unique clash_account d.accounts
  pub account_users : All (λ a. has_user a.user_id d ≡ true) d.accounts
  pub account_roles : All (λ a. Accounts.is_null a.roles ≡ false) d.accounts
  pub repositories : Unique clash_repository d.repositories
  pub tokens : All (λ r. is_text r.api_token ≡ true) d.repositories
  pub teams : Unique clash_team d.teams
  pub leaders : Unique clash_link d.team_leaders
  pub leader_users : All (λ l. has_user l.1 d ≡ true) d.team_leaders
  pub members : Unique clash_link d.team_members
  pub member_users : All (λ l. has_user l.1 d ≡ true) d.team_members
  pub team_repositories : Unique clash_link d.team_repositories
  pub linked_repositories : All (λ l. has_repository l.1 d ≡ true) d.team_repositories
  pub config : Unique clash_config d.app_config

pub any-last :
    {A : Type 0} (p : A → Bool) (xs : List A) (y : A) → p y ≡ true → any p (xs ++ y ∷ []) ≡ true
any-last p [] y e = rw e refl
any-last p (x ∷ xs) y e = ground (arith, any-last p xs y e)

pub All-every : {A : Type 0} (P : A → Type 0) (xs : List A) → ((x : A) → P x) → All P xs
All-every P [] h = tt
All-every P (x ∷ xs) h = (h x, All-every P xs h)

pub All-zip :
    {A : Type 0} (P Q : A → Type 0) (xs : List A) → All P xs → All Q xs → All (λ x. P x × Q x) xs
All-zip P Q [] h k = tt
All-zip P Q (x ∷ xs) (h, hs) (k, ks) = ((h, k), All-zip P Q xs hs ks)

pub All-imply :
    {A : Type 0} (P Q : A → Type 0) (xs : List A) → ((x : A) → P x → Q x) → All P xs → All Q xs
All-imply P Q [] f h = tt
All-imply P Q (x ∷ xs) f (h, hs) = (f x h, All-imply P Q xs f hs)

pub All-unmap :
    {A B : Type 0} (P : B → Type 0) (f : A → B) (xs : List A)
    → All P (map f xs)
    → All (λ x. P (f x)) xs
All-unmap P f [] h = tt
All-unmap P f (x ∷ xs) (h, hs) = (h, All-unmap P f xs hs)

pub All-parts :
    {A : Type 0} (P : A → Type 0) (xs ys : List A) → All P (xs ++ ys) → All P xs × All P ys
All-parts P [] ys h = (tt, h)
All-parts P (x ∷ xs) ys (h, hs) = let (a, b) = All-parts P xs ys hs in ((h, a), b)

pub same_text : (s : String) → (s == s) ≡ true
same_text s = (eq_iff s s).1 refl

pub cleared-Passes :
    (ts : List (String × (Db → Db))) (d : Db)
    → Passes (each clear_table ts) d (after (λ t. t.1) ts d)
cleared-Passes [] d = Passes-pure d
cleared-Passes (t ∷ ts) d =
    Passes-then (clear_table t) (each clear_table ts) d (t.1 d) _
      (Passes-wrap (about "clear " t.0) (exec (λ d. some (t.1 d))) d (t.1 d)
        (Passes-exec (λ d. some (t.1 d)) d (t.1 d) refl))
      (cleared-Passes ts (t.1 d))

module _ (b : Base64) (visit : List (String × String) → List (String × String)) where
  user-Passes :
      (u : User) (d : Db) (rest : List PlatformRow)
      → any (clash_user (Users.user_row u)) d.users ≡ false
      → Unique clash_platform
          (d.platform_usernames ++ (map (platform_row u.id) (visit u.platform_usernames) ++ rest))
      → Passes (restore_user b visit u) d (add_user b visit u d)
  user-Passes u d rest fresh unique =
      let d1 : Db = record d { users = d.users ++ Users.user_row u ∷ [] } in
      Passes-then (wrap (about "restore user " u.id) (exec (insert_user (Users.user_row u)))) _ d d1
        _
        (Passes-wrap (about "restore user " u.id) (exec (insert_user (Users.user_row u))) d d1
          (Passes-exec (insert_user (Users.user_row u)) d d1 (rw fresh refl)))
        (inserted-Passes (λ d. d.platform_usernames) (λ l d. record d { platform_usernames = l })
          (platform_row u.id) clash_platform (λ r d. has_user r.user_id d) (λ l d. refl)
          (λ l k d. refl) (λ d. refl) (λ r l d. refl) (λ e. "restore platform username: ")
          insert_platform (λ r d free known. ground arith) (visit u.platform_usernames) rest d1
          unique
          (All-every (λ e. has_user u.id d1 ≡ true) (visit u.platform_usernames)
            (λ e. any-last (λ v. v.id == u.id) d.users (Users.user_row u) (same_text u.id))))

  pub users-Passes :
      (us : List User) (d : Db)
      → Unique clash_user (d.users ++ map Users.user_row us)
      → Unique clash_platform (d.platform_usernames ++ platforms_of visit us)
      → Passes (each (restore_user b visit) us) d (after (add_user b visit) us d)
  unfolding flatten
  users-Passes [] d unique once = Passes-pure d
  users-Passes (u ∷ us) d unique once =
      Passes-then (restore_user b visit u) (each (restore_user b visit) us) d (add_user b visit u d)
        _
        (user-Passes u d (platforms_of visit us)
          (Unique-fresh clash_user d.users (Users.user_row u) (map Users.user_row us) unique) once)
        (users-Passes us (add_user b visit u d)
          (subst (Unique clash_user)
            (sym (append_assoc d.users (Users.user_row u ∷ []) (map Users.user_row us))) unique)
          (subst (Unique clash_platform)
            (sym (
              append_assoc d.platform_usernames
                (map (platform_row u.id) (visit u.platform_usernames)) (platforms_of visit us)))
            once))
