-- ===== src/Database/RoundTrip.antt =====
-- `Export` of pgx_backup_repo.go and then `Restore`.
use contribution_tracker.Prelude.{
  ℕ, String, ◌≡◌, refl, sym, ap, false, some, List, ◌==◌, ◌⊎◌, inl, inr,
}
use mathlib.Core.Path.{subst}
use mathlib.Core.List.{Permᴰ}
use contribution_tracker.Domain.{BackupFile}
use contribution_tracker.Database.Schema.{Db}
use contribution_tracker.Database.Session.{ok, err, World}
use contribution_tracker.Database.Calm.{calm}
use contribution_tracker.Database.Backups.{Base64, export, restore}
use contribution_tracker.Database.Restored.{restored_db, restore-cases}
use contribution_tracker.Database.Exporting.{
  users_in_order, accounts_in_order, teams_in_order, repositories_in_order, exported, export-calm,
}
use contribution_tracker.Database.Copies.{
  IsKeyed, IsCopy, decode-encode, rows_of_users, rows_of_teams, links-back, usernames-back,
  accounts-back, config-back,
}

module _ (b : Base64) (back : (s : String) → b.decode (b.encode s) ≡ some s)
    (filled : (s : String) → (s == "") ≡ false → (b.encode s == "") ≡ false)
    (visit : List (String × String) → List (String × String))
    (once : (m : List (String × String)) → Permᴰ (visit m) m) where
  restored-IsCopy :
      (now : ℕ) (d d' : Db) → IsKeyed d → IsCopy d (restored_db b visit (exported b now d) d')
  restored-IsCopy now d d' keyed = (
    rows_of_users d (users_in_order d),
    accounts-back (accounts_in_order d),
    rows_of_teams d (teams_in_order d),
    decode-encode b back filled (repositories_in_order d),
    λ user platform. usernames-back visit once d user platform keyed,
    λ t.
        links-back (λ t. t.leader_ids) d.team_leaders d t (λ r. refl) (keyed.teams t) keyed.leaders,
    λ t.
        links-back (λ t. t.member_ids) d.team_members d t (λ r. refl) (keyed.teams t) keyed.members,
    λ t.
        links-back (λ t. t.repository_ids) d.team_repositories d t (λ r. refl) (keyed.teams t)
          keyed.repositories,
    λ k. config-back visit once d.collation k d.app_config (keyed.config k),
  )

  -- Where base64 decodes what it encoded, and encodes only the empty text as empty, Go visits each entry
  -- of a map once, the keys of the users, teams and configuration and the references to users and teams
  -- hold, and no statement of the export fails: `Export` gives a file, and to restore it into any database
  -- either fails and leaves that database as it is, or gives it the users, accounts, teams and
  -- repositories of the first, the tokens in the clear, with each user's platform usernames, each
  -- account's roles, each team's leaders, members and repositories, and each value of the configuration.
  pub export-restore :
      (now : ℕ) (d : Db) (refusal no_rows : String) (w : World)
      → IsKeyed d
      → (f : BackupFile) × ((export b now (calm d refusal no_rows)).0 ≡ ok f)
        × (((e : String) × ((restore b visit f w).0 ≡ err e) × ((restore b visit f w).1.db ≡ w.db))
            ⊎ (((restore b visit f w).0 ≡ ok tt) × IsCopy d (restore b visit f w).1.db))
  export-restore now d refusal no_rows w keyed = (
    exported b now d,
    ap (λ p. p.0) (export-calm d refusal no_rows b now),
    elim (restore-cases b visit (exported b now d) w) [
      | inl failed ↦ inl failed
      | inr (success, same) ↦
          inr (success, subst (IsCopy d) (sym same) (restored-IsCopy now d w.db keyed))
    ],
  )
