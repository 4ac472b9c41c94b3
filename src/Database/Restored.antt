-- ===== src/Database/Restored.antt =====
-- The tables after `Restore` of pgx_backup_repo.go, against the file.
use contribution_tracker.Prelude.{String, ◌≡◌, ap, ◌∙◌, List, ◌++◌, ◌⊎◌, inl, inr, map}
use contribution_tracker.Domain.{BackupFile}
use contribution_tracker.Database.Schema.{Db}
use contribution_tracker.Database.Session.{ok, err, World}
use contribution_tracker.Database.Saving.{transaction-cases}
use contribution_tracker.Database.Runs.{Runs, after, Runs-then, Runs-each, Runs-same}
use contribution_tracker.Database.Restoring.{
  links_of, platforms_of, accounts-Runs, repositories-Runs, config-Runs, add_user, user-Runs,
  after-users, add_team, team-Runs, after-teams, cleared-Runs,
}
use contribution_tracker.Database.Users
use contribution_tracker.Database.Accounts
use contribution_tracker.Database.Backups.{
  Base64, tables, each, clear_table, team_row, decode_token, restore_user, restore_team,
  restore_statements, restore,
}

-- The tables with the file's rows, and nothing else.
abbrev pub restored_db :
    Base64 → (List (String × String) → List (String × String)) → BackupFile → Db → Db
restored_db b visit f d = record {
  users = map Users.user_row f.users;
  platform_usernames = platforms_of visit f.users;
  accounts = map Accounts.account_row f.accounts;
  teams = map team_row f.teams;
  team_leaders = links_of (λ t. t.leader_ids) f.teams;
  team_members = links_of (λ t. t.member_ids) f.teams;
  repositories = map (decode_token b) f.repositories;
  team_repositories = links_of (λ t. t.repository_ids) f.teams;
  app_config = visit f.config;
  collation = d.collation;
}

module _ (b : Base64) (visit : List (String × String) → List (String × String)) where
  statements-Runs : (f : BackupFile) → Runs (restore_statements b visit f) (restored_db b visit f)
  unfolding restore_statements
  statements-Runs f =
      Runs-then _ _ _ _
        (Runs-then _ _ _ _
          (Runs-then _ _ _ _
            (Runs-then _ _ _ _
              (Runs-then (each clear_table tables) (each (restore_user b visit) f.users)
                (after (λ t. t.1) tables) _ (cleared-Runs tables)
                (Runs-same (each (restore_user b visit) f.users) (after (add_user b visit) f.users)
                  (λ d. record d {
                    users = d.users ++ map Users.user_row f.users;
                    platform_usernames = d.platform_usernames ++ platforms_of visit f.users;
                  })
                  (Runs-each (restore_user b visit) (add_user b visit) f.users (user-Runs b visit))
                  (after-users b visit f.users)))
              (accounts-Runs f.accounts))
            (repositories-Runs b f.repositories))
          (Runs-same (each restore_team f.teams) (after add_team f.teams)
            (λ d. record d {
              teams = d.teams ++ map team_row f.teams;
              team_leaders = d.team_leaders ++ links_of (λ t. t.leader_ids) f.teams;
              team_members = d.team_members ++ links_of (λ t. t.member_ids) f.teams;
              team_repositories = d.team_repositories ++ links_of (λ t. t.repository_ids) f.teams;
            })
            (Runs-each restore_team add_team f.teams team-Runs) (after-teams f.teams)))
        (config-Runs (visit f.config))

  -- `Restore` either fails and leaves the database as it is, or succeeds, and then each table has the
  -- rows of the file, in its order and with the tokens decoded, and no others.
  pub restore-cases :
      (f : BackupFile) (w : World)
      → ((e : String) × ((restore b visit f w).0 ≡ err e) × ((restore b visit f w).1.db ≡ w.db))
        ⊎ (((restore b visit f w).0 ≡ ok tt)
            × ((restore b visit f w).1.db ≡ restored_db b visit f w.db))
  unfolding restore
  restore-cases f w =
      elim (transaction-cases "begin restore tx: " (restore_statements b visit f) w) [
        | inr failed ↦ inl failed
        | inl (success, (w1, w2, before, ran, result)) ↦
            inr (
              success,
              result ∙ (statements-Runs f).at w1 w2 ran ∙ ap (restored_db b visit f) before,
            )
      ]
