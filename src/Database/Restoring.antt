-- ===== src/Database/Restoring.antt =====
-- The loops of `Restore` of pgx_backup_repo.go: what each adds to the tables.
use contribution_tracker.Prelude.{
  String, ◌≡◌, refl, sym, ap, ◌∙◌, Option, some, List, [], ◌∷◌, ◌++◌, map, append_assoc, append_nil,
  arith, eq_of_some,
}
use mathlib.Core.List.{flatten}
use contribution_tracker.Domain.{Repository, Team, User, UserAccount}
use contribution_tracker.Database.Schema.{Db, Link, PlatformRow}
use contribution_tracker.Database.Session.{wrap, exec}
use contribution_tracker.Database.Runs.{
  Runs, after, Runs-exec, Runs-wrap, Runs-then, Runs-each, Runs-same,
}
use contribution_tracker.Database.Users
use contribution_tracker.Database.Accounts
use contribution_tracker.Database.Teams
use contribution_tracker.Database.Backups.{
  Base64, each, about, clear_table, insert_user, insert_platform, insert_account, insert_repository,
  insert_team, insert_config, platform_row, team_row, decode_token, restore_user, restore_account,
  restore_repository, restore_team, restore_config,
}

abbrev pub links_of : (Team → List String) → List Team → List Link
links_of ids ts = flatten (map (λ t. map (λ id. (t.id, id)) (ids t)) ts)

abbrev pub platforms_of :
    (List (String × String) → List (String × String)) → List User → List PlatformRow
platforms_of visit us = flatten (map (λ u. map (platform_row u.id) (visit u.platform_usernames)) us)

-- A loop of insertions into one table, which `put` writes and `rows` reads.
module _ {A R : Type 0} (rows : Db → List R) (put : List R → Db → Db) (row : A → R)
    (read : (l : List R) (d : Db) → rows (put l d) ≡ l)
    (twice : (l k : List R) (d : Db) → put l (put k d) ≡ put l d)
    (same : (d : Db) → put (rows d) d ≡ d) where
  after-inserted :
      (xs : List A) (d : Db)
      → after (λ x d. put (rows d ++ row x ∷ []) d) xs d ≡ put (rows d ++ map row xs) d
  after-inserted [] d = sym (ap (λ l. put l d) (append_nil (rows d)) ∙ same d)
  after-inserted (x ∷ xs) d =
      after-inserted xs (put (rows d ++ row x ∷ []) d)
      ∙ twice (rows (put (rows d ++ row x ∷ []) d) ++ map row xs) (rows d ++ row x ∷ []) d
      ∙ ap (λ l. put (l ++ map row xs) d) (read (rows d ++ row x ∷ []) d)
      ∙ ap (λ l. put l d) (append_assoc (rows d) (row x ∷ []) (map row xs))

  inserted-Runs :
      (text : A → String) (insert : R → Db → Option Db) (xs : List A)
      → ((x : A) (d d' : Db) → insert (row x) d ≡ some d' → d' ≡ put (rows d ++ row x ∷ []) d)
      → Runs
          (each (λ x. wrap (text x) (exec (insert (row x)))) xs)
          (λ d. put (rows d ++ map row xs) d)
  inserted-Runs text insert xs h =
      Runs-same _ (after (λ x d. put (rows d ++ row x ∷ []) d) xs) _
        (Runs-each _ (λ x d. put (rows d ++ row x ∷ []) d) xs
          λ x. Runs-wrap (text x) (exec (insert (row x))) _ (Runs-exec (insert (row x)) _ (h x)))
        (after-inserted xs)

pub accounts-Runs :
    (xs : List UserAccount)
    → Runs
        (each restore_account xs)
        (λ d. record d { accounts = d.accounts ++ map Accounts.account_row xs })
accounts-Runs xs =
    inserted-Runs (λ d. d.accounts) (λ l d. record d { accounts = l }) Accounts.account_row
      (λ l d. refl) (λ l k d. refl) (λ d. refl) (λ a. about "restore account " a.id) insert_account
      xs (λ x d d' e. ground arith)

pub repositories-Runs :
    (b : Base64) (xs : List Repository)
    → Runs
        (each (restore_repository b) xs)
        (λ d. record d { repositories = d.repositories ++ map (decode_token b) xs })
repositories-Runs b xs =
    inserted-Runs (λ d. d.repositories) (λ l d. record d { repositories = l }) (decode_token b)
      (λ l d. refl) (λ l k d. refl) (λ d. refl) (λ r. about "restore repo " r.id)
      (insert_repository b.is_text) xs (λ x d d' e. ground arith)

pub map_self : {A : Type 0} (xs : List A) → map (λ x. x) xs ≡ xs
map_self [] = refl
map_self (x ∷ xs) = ap (λ l. x ∷ l) (map_self xs)

pub config-Runs :
    (es : List (String × String))
    → Runs (each restore_config es) (λ d. record d { app_config = d.app_config ++ es })
config-Runs es =
    Runs-same (each restore_config es)
      (λ d. record d { app_config = d.app_config ++ map (λ e. e) es })
      (λ d. record d { app_config = d.app_config ++ es })
      (inserted-Runs (λ d. d.app_config) (λ l d. record d { app_config = l }) (λ e. e) (λ l d. refl)
        (λ l k d. refl) (λ d. refl) (λ e. about "restore config " e.0) insert_config es
        (λ x d d' e. ground arith))
      (λ d. ap (λ l. record d { app_config = d.app_config ++ l }) (map_self es))

platforms-Runs :
    (user : String) (es : List (String × String))
    → Runs
        (each
          (λ e. wrap "restore platform username: " (exec (insert_platform (platform_row user e))))
          es)
        (λ d. record d { platform_usernames = d.platform_usernames ++ map (platform_row user) es })
platforms-Runs user es =
    inserted-Runs (λ d. d.platform_usernames) (λ l d. record d { platform_usernames = l })
      (platform_row user) (λ l d. refl) (λ l k d. refl) (λ d. refl)
      (λ e. "restore platform username: ") insert_platform es (λ x d d' e. ground arith)

module _ (b : Base64) (visit : List (String × String) → List (String × String)) where
  abbrev pub add_user : User → Db → Db
  add_user u d = record d {
    users = d.users ++ Users.user_row u ∷ [];
    platform_usernames =
        d.platform_usernames ++ map (platform_row u.id) (visit u.platform_usernames);
  }

  pub user-Runs : (u : User) → Runs (restore_user b visit u) (add_user u)
  user-Runs u =
      Runs-then (wrap (about "restore user " u.id) (exec (insert_user (Users.user_row u)))) _
        (λ d. record d { users = d.users ++ Users.user_row u ∷ [] }) _
        (Runs-wrap (about "restore user " u.id) (exec (insert_user (Users.user_row u))) _
          (Runs-exec (insert_user (Users.user_row u)) _ (λ d d' e. ground arith)))
        (platforms-Runs u.id (visit u.platform_usernames))

  pub after-users :
      (us : List User) (d : Db)
      → after add_user us d ≡ record d {
        users = d.users ++ map Users.user_row us;
        platform_usernames = d.platform_usernames ++ platforms_of visit us;
      }
  unfolding flatten
  after-users [] d = rw (append_nil d.users, append_nil d.platform_usernames) refl
  after-users (u ∷ us) d =
      after-users us (add_user u d)
      ∙ rw
          (
            append_assoc d.users (Users.user_row u ∷ []) (map Users.user_row us),
            append_assoc d.platform_usernames (map (platform_row u.id) (visit u.platform_usernames))
                (platforms_of visit us),
          )
          refl

abbrev pub add_team : Team → Db → Db
add_team t d = record d {
  teams = d.teams ++ team_row t ∷ [];
  team_leaders = d.team_leaders ++ map (λ id. (t.id, id)) t.leader_ids;
  team_members = d.team_members ++ map (λ id. (t.id, id)) t.member_ids;
  team_repositories = d.team_repositories ++ map (λ id. (t.id, id)) t.repository_ids;
}

pub team-Runs : (t : Team) → Runs (restore_team t) (add_team t)
team-Runs t =
    Runs-then _ _ _ _
      (Runs-then _ _ _ _
        (Runs-then _ _ _ _
          (Runs-wrap (about "restore team " t.id) (exec (insert_team (team_row t)))
            (λ d. record d { teams = d.teams ++ team_row t ∷ [] })
            (Runs-exec (insert_team (team_row t)) _ (λ d d' e. ground arith)))
          (inserted-Runs (λ d. d.team_leaders) (λ l d. record d { team_leaders = l })
            (λ id. (t.id, id)) (λ l d. refl) (λ l k d. refl) (λ d. refl)
            (λ id. "restore team leader: ") (λ l. Teams.insert_leader l.0 l.1) t.leader_ids
            (λ x d d' e. ground arith)))
        (inserted-Runs (λ d. d.team_members) (λ l d. record d { team_members = l })
          (λ id. (t.id, id)) (λ l d. refl) (λ l k d. refl) (λ d. refl)
          (λ id. "restore team member: ") (λ l. Teams.insert_member l.0 l.1) t.member_ids
          (λ x d d' e. ground arith)))
      (inserted-Runs (λ d. d.team_repositories) (λ l d. record d { team_repositories = l })
        (λ id. (t.id, id)) (λ l d. refl) (λ l k d. refl) (λ d. refl) (λ id. "restore team repo: ")
        (λ l. Teams.insert_repository l.0 l.1) t.repository_ids (λ x d d' e. ground arith))

pub after-teams :
    (ts : List Team) (d : Db)
    → after add_team ts d ≡ record d {
      teams = d.teams ++ map team_row ts;
      team_leaders = d.team_leaders ++ links_of (λ t. t.leader_ids) ts;
      team_members = d.team_members ++ links_of (λ t. t.member_ids) ts;
      team_repositories = d.team_repositories ++ links_of (λ t. t.repository_ids) ts;
    }
unfolding flatten
after-teams [] d =
    rw
      (
        append_nil d.teams,
        append_nil d.team_leaders,
        append_nil d.team_members,
        append_nil d.team_repositories,
      )
      refl
after-teams (t ∷ ts) d =
    after-teams ts (add_team t d)
    ∙ rw
        (
          append_assoc d.teams (team_row t ∷ []) (map team_row ts),
          append_assoc d.team_leaders (map (λ id. (t.id, id)) t.leader_ids)
              (links_of (λ t. t.leader_ids) ts),
          append_assoc d.team_members (map (λ id. (t.id, id)) t.member_ids)
              (links_of (λ t. t.member_ids) ts),
          append_assoc d.team_repositories (map (λ id. (t.id, id)) t.repository_ids)
              (links_of (λ t. t.repository_ids) ts),
        )
        refl

pub cleared-Runs :
    (ts : List (String × (Db → Db))) → Runs (each clear_table ts) (after (λ t. t.1) ts)
cleared-Runs ts =
    Runs-each clear_table (λ t. t.1) ts
      λ t.
        Runs-wrap (about "clear " t.0) (exec (λ d. some (t.1 d))) t.1
          (Runs-exec (λ d. some (t.1 d)) t.1 (λ d d' e. sym (eq_of_some e)))
