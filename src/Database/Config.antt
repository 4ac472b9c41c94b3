-- ===== src/Database/Config.antt =====
-- src/internal/infrastructure/persistence/pgx_config_repo.go: `PgxConfigRepo`.
use contribution_tracker.Prelude.{String, some, List, [], ◌∷◌, lookup, insert}
use Prim.Native.String
use contribution_tracker.Database.Schema.{order_by}
use contribution_tracker.Database.Session.{Sql, pure, wrap, query, query_row, exec, ◌>>=◌}

-- `"<prefix> <key>: "`
abbrev about_key : String → String → String
about_key text key = String.◌++◌ text (String.◌++◌ key ": ")

unfoldable pub get : String → Sql String
get key = wrap (about_key "get config " key) (query_row (λ d. lookup key d.app_config))

-- `ON CONFLICT (key) DO UPDATE`
unfoldable pub set : String → String → Sql (Unit {0})
set key value =
    wrap (about_key "set config " key)
      (exec (λ d. some (record d { app_config = insert key value d.app_config })))

-- `result[key] = value` for each row.
unfoldable pub to_map : List (String × String) → List (String × String) → List (String × String)
to_map result [] = result
to_map result ((key, value) ∷ rows) = to_map (insert key value result) rows

unfoldable pub find_all : Sql (List (String × String))
find_all = do
  rows ← wrap "find all config: " (query (λ d. order_by d.collation (λ e. e.0) d.app_config))
  pure (to_map [] rows)
