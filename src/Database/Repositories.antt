-- ===== src/Database/Repositories.antt =====
-- src/internal/infrastructure/persistence/pgx_repository_store.go: `PgxRepositoryStore`.
use contribution_tracker.Prelude.{
  String, Bool, not, Option, none, some, List, [], ◌∷◌, ◌++◌, ◌==◌, ◌&&◌, if◌then◌else◌, any, keep,
  find, contains,
}
use contribution_tracker.Domain.{Repository}
use contribution_tracker.Database.Schema.{Db, has_repository, update_rows, order_by}
use contribution_tracker.Database.Session.{Sql, wrap, query, query_row, exec, exec_returning}

unfoldable pub find_by_id : String → Sql Repository
find_by_id id = wrap "find repo by id: " (query_row (λ d. find (λ r. r.id == id) d.repositories))

unfoldable pub find_by_ids : List String → Sql (List Repository)
find_by_ids ids =
    wrap "find repos by ids: " (query (λ d. keep (λ r. contains r.id ids) d.repositories))

unfoldable pub find_all : Sql (List Repository)
find_all =
    wrap "find all repos: " (query (λ d. order_by d.collation (λ r. r.full_name) d.repositories))

-- The unique index `idx_repositories_fullname_platform`.
abbrev pub same_project : Repository → Repository → Bool
same_project a b = (b.full_name == a.full_name) && (b.platform.name == a.platform.name)

-- `ON CONFLICT (id) DO UPDATE`
abbrev pub save_row : Repository → Db → Option Db
save_row r d =
    if any (λ s. not (s.id == r.id) && same_project r s) d.repositories
    then none
    else if has_repository r.id d
    then some (record d { repositories = update_rows (λ s. s.id == r.id) (λ _. r) d.repositories })
    else some (record d { repositories = d.repositories ++ r ∷ [] })

unfoldable pub save : Repository → Sql (Unit {0})
save r = wrap "save repo: " (exec (save_row r))

-- `SET name=$2, url=$4, api_token=$6` on the row in conflict.
abbrev pub overwrite : Repository → Repository → Repository
overwrite r s = record s { name = r.name; url = r.url; api_token = r.api_token }

-- `ON CONFLICT (full_name, platform) DO UPDATE … RETURNING`; another row with the id is refused.
abbrev pub overwrite_or_insert : Repository → Db → Option Repository → Option (Repository × Db)
overwrite_or_insert r d (some s) = some (
  overwrite r s,
  record d { repositories = update_rows (same_project r) (overwrite r) d.repositories },
)
overwrite_or_insert r d none =
    if has_repository r.id d
    then none
    else some (r, record d { repositories = d.repositories ++ r ∷ [] })

abbrev pub upsert_row : Repository → Db → Option (Repository × Db)
upsert_row r d = overwrite_or_insert r d (find (same_project r) d.repositories)

unfoldable pub upsert : Repository → Sql Repository
upsert r = wrap "upsert repo: " (exec_returning (upsert_row r))
