-- ===== src/Database/Teams.antt =====
-- src/internal/infrastructure/persistence/pgx_team_repo.go: `PgxTeamRepo`.
use contribution_tracker.Prelude.{
  String, Bool, not, Option, none, some, List, [], ◌∷◌, ◌++◌, ◌==◌, ◌&&◌, leb, if◌then◌else◌, keep,
  find, length,
}
use contribution_tracker.Domain.{Team}
use contribution_tracker.Database.Schema.{
  Db, TeamRow, is_link, has_link, linked, has_user, has_team, has_repository, update_rows, order_by,
  delete_team,
}
use contribution_tracker.Database.Session.{
  Sql, pure, fail, wrap, query, query_row, exec, ◌>>=◌, ◌>>◌, transaction,
}

abbrev pub load_leader_ids : String → Sql (List String)
load_leader_ids id = wrap "load leader ids: " (query (λ d. linked id d.team_leaders))

abbrev pub load_member_ids : String → Sql (List String)
load_member_ids id = wrap "load member ids: " (query (λ d. linked id d.team_members))

abbrev pub load_repository_ids : String → Sql (List String)
load_repository_ids id = wrap "load repository ids: " (query (λ d. linked id d.team_repositories))

unfoldable pub load_relations : TeamRow → Sql Team
load_relations t = do
  leaders ← load_leader_ids t.id
  members ← load_member_ids t.id
  repos ← load_repository_ids t.id
  pure (record {
    id = t.id;
    name = t.name;
    leader_ids = leaders;
    member_ids = members;
    repository_ids = repos;
  })

-- The loop that loads the relations of each team that was read.
unfoldable pub load_all : List TeamRow → Sql (List Team)
load_all [] = pure []
load_all (t ∷ ts) = do team ← load_relations t; teams ← load_all ts; pure (team ∷ teams)

unfoldable pub find_by_id : String → Sql Team
find_by_id id = do
  t ← wrap "find team by id: " (query_row (λ d. find (λ t. t.id == id) d.teams))
  load_relations t

-- The primary key of `team_members` lets the join yield a team at most once.
unfoldable pub find_by_member_id : String → Sql (List Team)
find_by_member_id id = do
  rows ←
      wrap "find teams by member: "
        (query (λ d. keep (λ t. has_link t.id id d.team_members) d.teams))
  load_all rows

unfoldable pub find_all : Sql (List Team)
find_all = do
  rows ← wrap "find all teams: " (query (λ d. order_by d.collation (λ t. t.name) d.teams))
  load_all rows

abbrev pub upsert_team : TeamRow → Db → Option Db
upsert_team t d =
    if has_team t.id d
    then some (record d { teams = update_rows (λ r. r.id == t.id) (λ _. t) d.teams })
    else some (record d { teams = d.teams ++ t ∷ [] })

-- `INSERT INTO team_leaders`: the primary key and both foreign keys hold, or it is refused.
abbrev pub insert_leader : String → String → Db → Option Db
insert_leader team user d =
    if not (has_link team user d.team_leaders) && (has_team team d && has_user user d)
    then some (record d { team_leaders = d.team_leaders ++ (team, user) ∷ [] })
    else none

abbrev pub insert_member : String → String → Db → Option Db
insert_member team user d =
    if not (has_link team user d.team_members) && (has_team team d && has_user user d)
    then some (record d { team_members = d.team_members ++ (team, user) ∷ [] })
    else none

abbrev pub insert_repository : String → String → Db → Option Db
insert_repository team repo d =
    if not (has_link team repo d.team_repositories) && (has_team team d && has_repository repo d)
    then some (record d { team_repositories = d.team_repositories ++ (team, repo) ∷ [] })
    else none

unfoldable pub insert_leaders : String → List String → Sql (Unit {0})
insert_leaders team [] = pure tt
insert_leaders team (id ∷ ids) =
    wrap "insert leader: " (exec (insert_leader team id)) >> insert_leaders team ids

unfoldable pub insert_members : String → List String → Sql (Unit {0})
insert_members team [] = pure tt
insert_members team (id ∷ ids) =
    wrap "insert member: " (exec (insert_member team id)) >> insert_members team ids

abbrev pub clear_leaders : String → Db → Option Db
clear_leaders id d = some (record d { team_leaders = keep (λ l. not (l.0 == id)) d.team_leaders })

abbrev pub clear_members : String → Db → Option Db
clear_members id d = some (record d { team_members = keep (λ l. not (l.0 == id)) d.team_members })

-- The statements of `Save`, between `Begin` and `Commit`.
unfoldable pub save_statements : Team → Sql (Unit {0})
save_statements team = do
  wrap "upsert team: " (exec (upsert_team (record { id = team.id; name = team.name })))
  wrap "clear leaders: " (exec (clear_leaders team.id))
  insert_leaders team.id team.leader_ids
  wrap "clear members: " (exec (clear_members team.id))
  insert_members team.id team.member_ids

unfoldable pub save : Team → Sql (Unit {0})
save team = transaction "begin tx: " (save_statements team)

unfoldable pub delete : String → Sql (Unit {0})
delete id = wrap "delete team: " (exec (λ d. some (delete_team id d)))

-- `ON CONFLICT DO NOTHING`
abbrev pub unless : Bool → (Db → Option Db) → Db → Option Db
unless b f d = if b then some d else f d

unfoldable pub add_repository : String → String → Sql (Unit {0})
add_repository team repo =
    wrap "add repository to team: "
      (exec (λ d. unless (has_link team repo d.team_repositories) (insert_repository team repo) d))

unfoldable pub remove_repository : String → String → Sql (Unit {0})
remove_repository team repo = wrap "remove repository from team: " (
    exec (λ d.
      some (record d {
        team_repositories = keep (λ l. not (is_link team repo l)) d.team_repositories;
      })))

unfoldable pub add_member : String → String → Sql (Unit {0})
add_member team user =
    wrap "add member to team: "
      (exec (λ d. unless (has_link team user d.team_members) (insert_member team user) d))

unfoldable pub add_leader : String → String → Sql (Unit {0})
add_leader team user =
    wrap "add leader to team: "
      (exec (λ d. unless (has_link team user d.team_leaders) (insert_leader team user) d))

abbrev pub delete_member : String → String → Db → Option Db
delete_member team user d =
    some (record d { team_members = keep (λ l. not (is_link team user l)) d.team_members })

abbrev pub delete_leader : String → String → Db → Option Db
delete_leader team user d =
    some (record d { team_leaders = keep (λ l. not (is_link team user l)) d.team_leaders })

abbrev pub leader_stays : String
leader_stays = "cannot remove a team leader from members; remove leadership first"

abbrev pub last_leader_stays : String
last_leader_stays = "cannot remove the last leader of a team"

unfoldable pub remove_member : String → String → Sql (Unit {0})
remove_member team user = do
  is_leader ← wrap "check leader status: " (query (λ d. has_link team user d.team_leaders))
  if is_leader
      then fail leader_stays
      else wrap "remove member from team: " (exec (delete_member team user))

unfoldable pub remove_leader : String → String → Sql (Unit {0})
remove_leader team user = do
  count ← wrap "count leaders: " (query (λ d. length (linked team d.team_leaders)))
  if leb count 1
      then fail last_leader_stays
      else wrap "remove leader from team: " (exec (delete_leader team user))
