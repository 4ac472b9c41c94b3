-- ===== src/Database/Exporting.antt =====
-- `Export` of pgx_backup_repo.go where no statement fails, and the links that it collects.
use contribution_tracker.Prelude.{
  ℕ, String, ◌≡◌, refl, ap, ◌∙◌, ◌+◌, Bool, true, false, List, [], ◌∷◌, ◌++◌, ◌==◌, inl, inr, map,
  count, if◌then◌else◌, arith, eq_iff, append_nil, Bool-cases,
}
use mathlib.Core.List.{flatten}
use contribution_tracker.Domain.{BackupFile, Repository}
use contribution_tracker.Database.Schema.{
  Db, Link, UserRow, TeamRow, AccountRow, linked, order_by, put_in_order,
}
use contribution_tracker.Database.Session.{ok, World, pure, wrap, query, ◌>>=◌}
use contribution_tracker.Database.Calm.{
  calm, loaded_user, loaded_team, load_users-calm, load_all-calm,
}
use contribution_tracker.Database.Users
use contribution_tracker.Database.Accounts
use contribution_tracker.Database.Teams
use contribution_tracker.Database.Repositories
use contribution_tracker.Database.Config
use contribution_tracker.Database.Backups.{Base64, encode_token, export}
use contribution_tracker.Database.Saving.{linked-append, linked-links}

module _ {A : Type 0} (le : String → String → Bool) (key : A → String) where
  put_in_order-count :
      (p : A → Bool) (x : A) (xs : List A) → count p (put_in_order le key x xs) ≡ count p (x ∷ xs)
  put_in_order-count p x [] = refl
  put_in_order-count p x (y ∷ ys) = ground (arith, put_in_order-count p x ys)

  pub order_by-count : (p : A → Bool) (xs : List A) → count p (order_by le key xs) ≡ count p xs
  unfolding order_by
  order_by-count p [] = refl
  order_by-count p (x ∷ xs) =
      put_in_order-count p x (order_by le key xs)
      ∙ ap (λ n. (if p x then 1 else 0) + n) (order_by-count p xs)

abbrev pub users_in_order : Db → List UserRow
users_in_order d = order_by d.collation (λ u. u.username) d.users

abbrev pub accounts_in_order : Db → List AccountRow
accounts_in_order d = order_by d.collation (λ a. a.username) d.accounts

abbrev pub teams_in_order : Db → List TeamRow
teams_in_order d = order_by d.collation (λ t. t.name) d.teams

abbrev pub repositories_in_order : Db → List Repository
repositories_in_order d = order_by d.collation (λ r. r.full_name) d.repositories

-- What `Export` gives where no statement fails.
abbrev pub exported : Base64 → ℕ → Db → BackupFile
exported b now d = record {
  metadata = record { app_version = "1.0.0"; exported_at = now; exported_by = "" };
  users = map (loaded_user d) (users_in_order d);
  accounts = map Accounts.scan_account (accounts_in_order d);
  teams = map (loaded_team d) (teams_in_order d);
  repositories = map (encode_token b) (repositories_in_order d);
  config = Config.to_map [] (order_by d.collation (λ e. e.0) d.app_config);
}

module _ (d : Db) (refusal no_rows : String) where
  abbrev here : World
  here = calm d refusal no_rows

  pub export-calm : (b : Base64) (now : ℕ) → export b now here ≡ (ok (exported b now d), here)
  unfolding export Users.find_all Accounts.find_all Teams.find_all Repositories.find_all
      Config.find_all ◌>>=◌ pure wrap query
  export-calm b now =
      rw
        (
          load_users-calm d refusal no_rows (users_in_order d),
          load_all-calm d refusal no_rows (teams_in_order d),
        )
        refl

-- The links of the teams that were loaded, for a team with one row.
module _ (d : Db) (ls : List Link) (t : String) where
  abbrev links_loaded : List TeamRow → List Link
  links_loaded rows = flatten (map (λ r. map (λ id. (r.id, id)) (linked r.id ls)) rows)

  linked-first :
      (r : TeamRow) (rows : List TeamRow)
      → linked t (links_loaded (r ∷ rows))
        ≡ (if t == r.id then linked r.id ls else []) ++ linked t (links_loaded rows)
  unfolding flatten
  linked-first r rows =
      linked-append t (map (λ id. (r.id, id)) (linked r.id ls)) (links_loaded rows)
      ∙ ap (λ l. l ++ linked t (links_loaded rows)) (linked-links t r.id (linked r.id ls))

  pub linked-none :
      (rows : List TeamRow) → count (λ r. r.id == t) rows ≡ 0 → linked t (links_loaded rows) ≡ []
  unfolding flatten
  linked-none [] e = refl
  linked-none (r ∷ rs) e =
      linked-first r rs
      ∙ by_team (t == r.id) (ground (arith, eq_iff r.id t, eq_iff t r.id, e))
          (linked-none rs (ground (arith, e)))
    where
      by_team :
          (b : Bool)
          → b ≡ false
          → linked t (links_loaded rs) ≡ []
          → (if b then linked r.id ls else []) ++ linked t (links_loaded rs) ≡ []
      by_team true f later = cc
      by_team false f later = later

  pub linked-loaded :
      (rows : List TeamRow)
      → count (λ r. r.id == t) rows ≡ 1
      → linked t (links_loaded rows) ≡ linked t ls
  linked-loaded [] e = ground arith
  linked-loaded (r ∷ rs) e = elim (Bool-cases (r.id == t)) [
    | inl same ↦
        let id_same : r.id ≡ t = (eq_iff r.id t).0 same in
        linked-first r rs
        ∙ ap (λ l. (if t == r.id then linked r.id ls else []) ++ l)
            (linked-none rs (ground (arith, e, same)))
        ∙ append_nil (if t == r.id then linked r.id ls else [])
        ∙ at_team (t == r.id) (ground (arith, eq_iff t r.id, id_same)) id_same
    | inr other ↦
        linked-first r rs
        ∙ elsewhere (t == r.id) (ground (arith, eq_iff r.id t, eq_iff t r.id, other))
            (linked-loaded rs (ground (arith, e, other)))
  ]
    where
      at_team : (b : Bool) → b ≡ true → r.id ≡ t → (if b then linked r.id ls else []) ≡ linked t ls
      at_team true f same = ap (λ i. linked i ls) same
      at_team false f same = cc

      elsewhere :
          (b : Bool)
          → b ≡ false
          → linked t (links_loaded rs) ≡ linked t ls
          → (if b then linked r.id ls else []) ++ linked t (links_loaded rs) ≡ linked t ls
      elsewhere true f later = cc
      elsewhere false f later = later
