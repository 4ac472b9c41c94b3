-- ===== src/Database/Calm.antt =====
-- The repositories where no statement fails.
use contribution_tracker.Prelude.{
  String, ◌≡◌, refl, ap, some, List, [], ◌∷◌, ◌==◌, contains, keep, find, map,
}
use contribution_tracker.Domain.{Team, User}
use contribution_tracker.Database.Schema.{Db, UserRow, TeamRow, linked, has_link}
use contribution_tracker.Database.Session.{ok, World, continue, pure, wrap, query, query_row, ◌>>=◌}
use contribution_tracker.Database.Teams
use contribution_tracker.Database.Users
use contribution_tracker.Database.Repositories

-- No statement fails.
abbrev pub calm : Db → String → String → World
calm d refusal no_rows = record { db = d; outages = []; refusal = refusal; no_rows = no_rows }

abbrev pub loaded_user : Db → UserRow → User
loaded_user d r = record {
  id = r.id;
  username = r.username;
  display_name = r.display_name;
  email = r.email;
  avatar_url = r.avatar_url;
  platform_usernames = Users.platform_map r.id d.platform_usernames;
}

abbrev pub loaded_team : Db → TeamRow → Team
loaded_team d t = record {
  id = t.id;
  name = t.name;
  leader_ids = linked t.id d.team_leaders;
  member_ids = linked t.id d.team_members;
  repository_ids = linked t.id d.team_repositories;
}

module _ (d : Db) (refusal no_rows : String) where
  abbrev here : World
  here = calm d refusal no_rows

  pub load_users-calm :
      (rows : List UserRow) → Users.load_users rows here ≡ (ok (map (loaded_user d) rows), here)
  unfolding Users.load_users Users.load_user ◌>>=◌ pure wrap query
  load_users-calm [] = refl
  load_users-calm (r ∷ rs) =
      ap (λ p. continue p.0 (λ users. pure (loaded_user d r ∷ users)) p.1) (load_users-calm rs)

  pub find_users-calm :
      (ids : List String)
      → Users.find_by_ids ids here
        ≡ (ok (map (loaded_user d) (keep (λ u. contains u.id ids) d.users)), here)
  unfolding Users.find_by_ids ◌>>=◌ wrap query
  find_users-calm ids = load_users-calm (keep (λ u. contains u.id ids) d.users)

  pub find_repositories-calm :
      (ids : List String)
      → Repositories.find_by_ids ids here
        ≡ (ok (keep (λ r. contains r.id ids) d.repositories), here)
  unfolding Repositories.find_by_ids wrap query
  find_repositories-calm ids = refl

  pub find_team-calm :
      (id : String) (row : TeamRow)
      → find (λ t. t.id == id) d.teams ≡ some row
      → Teams.find_by_id id here ≡ (ok (loaded_team d row), here)
  unfolding Teams.find_by_id Teams.load_relations ◌>>=◌ pure wrap query query_row
  find_team-calm id row e = rw e

  pub load_all-calm :
      (rows : List TeamRow) → Teams.load_all rows here ≡ (ok (map (loaded_team d) rows), here)
  unfolding Teams.load_all Teams.load_relations ◌>>=◌ pure wrap query
  load_all-calm [] = refl
  load_all-calm (r ∷ rs) =
      ap (λ p. continue p.0 (λ teams. pure (loaded_team d r ∷ teams)) p.1) (load_all-calm rs)

  pub find_teams_of-calm :
      (user : String)
      → Teams.find_by_member_id user here
        ≡ (ok (map (loaded_team d) (keep (λ t. has_link t.id user d.team_members) d.teams)), here)
  unfolding Teams.find_by_member_id ◌>>=◌ wrap query
  find_teams_of-calm user = load_all-calm (keep (λ t. has_link t.id user d.team_members) d.teams)
