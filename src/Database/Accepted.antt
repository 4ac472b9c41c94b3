-- ===== src/Database/Accepted.antt =====
-- `Restore` of pgx_backup_repo.go where no statement meets an outage and the file's rows meet the
-- constraints of the tables.
use contribution_tracker.Prelude.{
  String, ◌≡◌, refl, sym, ap, ◌∙◌, ◌&&◌, ◌==◌, not, Bool, true, false, some, List, [], ◌∷◌, ◌++◌,
  All, any, map, append_assoc, append_nil, arith,
}
use mathlib.Core.Path.{subst}
use mathlib.Core.List.{flatten}
use contribution_tracker.Domain.{BackupFile, Team}
use contribution_tracker.Database.Schema.{Db, Link, has_user, has_team, has_repository}
use contribution_tracker.Database.Session.{ok, restored, exec, committed, transaction}
use contribution_tracker.Database.Calm.{calm}
use contribution_tracker.Database.Runs.{after}
use contribution_tracker.Database.Restoring.{
  links_of, platforms_of, add_team, after-users, after-teams, map_self,
}
use contribution_tracker.Database.Restored.{restored_db}
use contribution_tracker.Database.Passing.{
  Passes, Passes-exec, Passes-wrap, Passes-pure, Passes-then, Unique, Unique-fresh, inserted-Passes,
}
use contribution_tracker.Database.Users
use contribution_tracker.Database.Accounts
use contribution_tracker.Database.Teams
use contribution_tracker.Database.Backups.{
  Base64, tables, each, about, clear_table, insert_account, insert_repository, insert_team,
  insert_config, team_row, decode_token, restore_user, restore_account, restore_repository,
  restore_team, restore_config, restore_statements, restore,
}
use contribution_tracker.Database.Accepting.{
  clash_account, clash_repository, clash_team, clash_link, clash_config, IsConsistent, any-last,
  All-every, All-zip, All-imply, All-unmap, All-parts, same_text, cleared-Passes, users-Passes,
}

-- The links of one team.
abbrev links : Team → List String → List Link
links t ids = map (λ id. (t.id, id)) ids

-- A loop of links: the team is there, and so is what each link refers to.
both_known :
    (at_team : Bool) (known : String → Bool) (t : Team) (ids : List String)
    → at_team ≡ true
    → All (λ l. known l.1 ≡ true) (links t ids)
    → All (λ id. (at_team && known id) ≡ true) ids
both_known at_team known t [] here h = tt
both_known at_team known t (id ∷ ids) here (h, hs) =
    (ground (arith, here, h), both_known at_team known t ids here hs)

team-Passes :
    (t : Team) (d : Db) (leaders members repos : List Link)
    → any (clash_team (team_row t)) d.teams ≡ false
    → Unique clash_link (d.team_leaders ++ (links t t.leader_ids ++ leaders))
    → Unique clash_link (d.team_members ++ (links t t.member_ids ++ members))
    → Unique clash_link (d.team_repositories ++ (links t t.repository_ids ++ repos))
    → All (λ l. has_user l.1 d ≡ true) (links t t.leader_ids)
    → All (λ l. has_user l.1 d ≡ true) (links t t.member_ids)
    → All (λ l. has_repository l.1 d ≡ true) (links t t.repository_ids)
    → Passes (restore_team t) d (add_team t d)
team-Passes t d leaders members repos fresh ul um ur kl km kr =
    let d1 : Db = record d { teams = d.teams ++ team_row t ∷ [] } in
    let d2 : Db = record d1 { team_leaders = d.team_leaders ++ links t t.leader_ids } in
    let d3 : Db = record d2 { team_members = d.team_members ++ links t t.member_ids } in
    let here : has_team t.id d1 ≡ true =
      any-last (λ s. s.id == t.id) d.teams (team_row t) (same_text t.id) in
    Passes-then _ _ d d3 _
      (Passes-then _ _ d d2 d3
        (Passes-then _ _ d d1 d2
          (Passes-wrap (about "restore team " t.id) (exec (insert_team (team_row t))) d d1
            (Passes-exec (insert_team (team_row t)) d d1 (rw fresh refl)))
          (inserted-Passes (λ d. d.team_leaders) (λ l d. record d { team_leaders = l })
            (λ id. (t.id, id)) clash_link (λ l d. has_team l.0 d && has_user l.1 d) (λ l d. refl)
            (λ l k d. refl) (λ d. refl) (λ r l d. refl) (λ id. "restore team leader: ")
            (λ l. Teams.insert_leader l.0 l.1) (λ l d free known. ground arith) t.leader_ids leaders
            d1 ul (both_known (has_team t.id d1) (λ u. has_user u d) t t.leader_ids here kl)))
        (inserted-Passes (λ d. d.team_members) (λ l d. record d { team_members = l })
          (λ id. (t.id, id)) clash_link (λ l d. has_team l.0 d && has_user l.1 d) (λ l d. refl)
          (λ l k d. refl) (λ d. refl) (λ r l d. refl) (λ id. "restore team member: ")
          (λ l. Teams.insert_member l.0 l.1) (λ l d free known. ground arith) t.member_ids members
          d2 um (both_known (has_team t.id d1) (λ u. has_user u d) t t.member_ids here km)))
      (inserted-Passes (λ d. d.team_repositories) (λ l d. record d { team_repositories = l })
        (λ id. (t.id, id)) clash_link (λ l d. has_team l.0 d && has_repository l.1 d) (λ l d. refl)
        (λ l k d. refl) (λ d. refl) (λ r l d. refl) (λ id. "restore team repo: ")
        (λ l. Teams.insert_repository l.0 l.1) (λ l d free known. ground arith) t.repository_ids
        repos d3 ur
        (both_known (has_team t.id d1) (λ r. has_repository r d) t t.repository_ids here kr))

teams-Passes :
    (ts : List Team) (d : Db)
    → Unique clash_team (d.teams ++ map team_row ts)
    → Unique clash_link (d.team_leaders ++ links_of (λ t. t.leader_ids) ts)
    → Unique clash_link (d.team_members ++ links_of (λ t. t.member_ids) ts)
    → Unique clash_link (d.team_repositories ++ links_of (λ t. t.repository_ids) ts)
    → All (λ l. has_user l.1 d ≡ true) (links_of (λ t. t.leader_ids) ts)
    → All (λ l. has_user l.1 d ≡ true) (links_of (λ t. t.member_ids) ts)
    → All (λ l. has_repository l.1 d ≡ true) (links_of (λ t. t.repository_ids) ts)
    → Passes (each restore_team ts) d (after add_team ts d)
unfolding flatten
teams-Passes [] d u ul um ur kl km kr = Passes-pure d
teams-Passes (t ∷ ts) d u ul um ur kl km kr =
    let (l1, l2) = All-parts _ (links t t.leader_ids) (links_of (λ t. t.leader_ids) ts) kl in
    let (m1, m2) = All-parts _ (links t t.member_ids) (links_of (λ t. t.member_ids) ts) km in
    let (r1, r2) =
      All-parts _ (links t t.repository_ids) (links_of (λ t. t.repository_ids) ts) kr in
    Passes-then (restore_team t) (each restore_team ts) d (add_team t d) _
      (team-Passes t d (links_of (λ t. t.leader_ids) ts) (links_of (λ t. t.member_ids) ts)
        (links_of (λ t. t.repository_ids) ts)
        (Unique-fresh clash_team d.teams (team_row t) (map team_row ts) u) ul um ur l1 m1 r1)
      (teams-Passes ts (add_team t d)
        (subst (Unique clash_team) (sym (append_assoc d.teams (team_row t ∷ []) (map team_row ts)))
          u)
        (later d.team_leaders (links t t.leader_ids) (links_of (λ t. t.leader_ids) ts) ul)
        (later d.team_members (links t t.member_ids) (links_of (λ t. t.member_ids) ts) um)
        (later d.team_repositories (links t t.repository_ids) (links_of (λ t. t.repository_ids) ts)
          ur)
        l2 m2 r2)
  where
    later :
        (before now rest : List Link)
        → Unique clash_link (before ++ (now ++ rest))
        → Unique clash_link ((before ++ now) ++ rest)
    later before now rest u = subst (Unique clash_link) (sym (append_assoc before now rest)) u

module _ (b : Base64) (visit : List (String × String) → List (String × String)) (f : BackupFile)
    (d : Db) (c : IsConsistent b.is_text (restored_db b visit f d)) where
  abbrev cleared : Db
  cleared = after (λ t. t.1) tables d

  abbrev with_users : Db
  with_users = record cleared {
    users = map Users.user_row f.users;
    platform_usernames = platforms_of visit f.users;
  }

  abbrev with_accounts : Db
  with_accounts = record with_users { accounts = map Accounts.account_row f.accounts }

  abbrev with_repositories : Db
  with_repositories = record with_accounts { repositories = map (decode_token b) f.repositories }

  abbrev with_teams : Db
  with_teams = record with_repositories {
    teams = map team_row f.teams;
    team_leaders = links_of (λ t. t.leader_ids) f.teams;
    team_members = links_of (λ t. t.member_ids) f.teams;
    team_repositories = links_of (λ t. t.repository_ids) f.teams;
  }

  accounts_step : Passes (each restore_account f.accounts) with_users with_accounts
  accounts_step =
      inserted-Passes (λ d. d.accounts) (λ l d. record d { accounts = l }) Accounts.account_row
        clash_account (λ a d. has_user a.user_id d && not (Accounts.is_null a.roles)) (λ l d. refl)
        (λ l k d. refl) (λ d. refl) (λ r l d. refl) (λ a. about "restore account " a.id)
        insert_account (λ a d free known. ground arith) f.accounts [] with_users
        (subst (Unique clash_account) (sym (append_nil (map Accounts.account_row f.accounts)))
          c.accounts)
        (All-unmap (λ a. (has_user a.user_id with_users && not (Accounts.is_null a.roles)) ≡ true)
          Accounts.account_row f.accounts
          (All-imply _ _ (map Accounts.account_row f.accounts)
            (λ a known. ground (arith, known.0, known.1))
            (All-zip (λ a. has_user a.user_id with_users ≡ true)
              (λ a. Accounts.is_null a.roles ≡ false) (map Accounts.account_row f.accounts)
              c.account_users c.account_roles)))

  repositories_step :
      Passes (each (restore_repository b) f.repositories) with_accounts with_repositories
  repositories_step =
      inserted-Passes (λ d. d.repositories) (λ l d. record d { repositories = l }) (decode_token b)
        clash_repository (λ r d. b.is_text r.api_token) (λ l d. refl) (λ l k d. refl) (λ d. refl)
        (λ r l d. refl) (λ r. about "restore repo " r.id) (insert_repository b.is_text)
        (λ r d free known. ground arith) f.repositories [] with_accounts
        (subst (Unique clash_repository) (sym (append_nil (map (decode_token b) f.repositories)))
          c.repositories)
        (All-unmap (λ r. b.is_text r.api_token ≡ true) (decode_token b) f.repositories c.tokens)

  config_step :
      Passes
        (each restore_config (visit f.config))
        with_teams
        (record with_teams { app_config = visit f.config })
  config_step =
      subst
        (λ l.
          Passes (each restore_config (visit f.config)) with_teams
            (record with_teams { app_config = l }))
        (map_self (visit f.config))
        (inserted-Passes (λ d. d.app_config) (λ l d. record d { app_config = l }) (λ e. e)
          clash_config (λ e d. true) (λ l d. refl) (λ l k d. refl) (λ d. refl) (λ r l d. refl)
          (λ e. about "restore config " e.0) insert_config (λ e d free known. ground arith)
          (visit f.config) [] with_teams
          (subst (Unique clash_config)
            (sym (append_nil (map (λ e. e) (visit f.config)) ∙ map_self (visit f.config))) c.config)
          (All-every (λ e. true ≡ true) (visit f.config) (λ e. refl)))

  statements-Passes : Passes (restore_statements b visit f) d (restored_db b visit f d)
  unfolding restore_statements
  statements-Passes =
      Passes-then _ _ d with_teams _
        (Passes-then _ _ d with_repositories with_teams
          (Passes-then _ _ d with_accounts with_repositories
            (Passes-then _ _ d with_users with_accounts
              (Passes-then (each clear_table tables) (each (restore_user b visit) f.users) d cleared
                with_users (cleared-Passes tables d)
                (subst (Passes (each (restore_user b visit) f.users) cleared)
                  (after-users b visit f.users cleared)
                  (users-Passes b visit f.users cleared c.users c.platforms)))
              accounts_step)
            repositories_step)
          (subst (Passes (each restore_team f.teams) with_repositories)
            (after-teams f.teams with_repositories)
            (teams-Passes f.teams with_repositories c.teams c.leaders c.members c.team_repositories
              c.leader_users c.member_users c.linked_repositories)))
        config_step

  committed-Passes :
      Passes
        (committed "begin restore tx: " (restore_statements b visit f))
        d
        (restored_db b visit f d)
  committed-Passes =
      Passes-then _ (exec (λ d. some d)) d (restored_db b visit f d) _
        (Passes-then _ (restore_statements b visit f) d d _
          (Passes-wrap "begin restore tx: " (exec (λ d. some d)) d d
            (Passes-exec (λ d. some d) d d refl))
          statements-Passes)
        (Passes-exec (λ d. some d) (restored_db b visit f d) (restored_db b visit f d) refl)

  -- Where the rows of the file meet the keys and references of the tables, each account has a role and
  -- each token is a text that can be stored, and no statement meets an outage, `Restore` succeeds, and each table has the rows of the file, in its order and with the tokens
  -- decoded, and no others.
  pub restore_accepted :
      (refusal no_rows : String)
      → restore b visit f (calm d refusal no_rows)
        ≡ (ok tt, calm (restored_db b visit f d) refusal no_rows)
  unfolding restore transaction
  restore_accepted refusal no_rows = ap (restored d) (committed-Passes.at refusal no_rows)
