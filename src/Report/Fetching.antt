-- ===== src/Report/Fetching.antt =====
-- The fetcher ports of src/internal/application/ports.go, and registry.go:
-- `ActivityFetcherRegistry`. A fetcher's results are those of one run.
use contribution_tracker.Prelude.{ℕ, String, Option, none, some, List, [], map, lookup, insert}
use contribution_tracker.Report.Outcomes.{Outcome}
use contribution_tracker.Domain.{Activity, ActivityType, GitPlatform, Repository}

-- `discover_user_repos` is `none` where the fetcher is no `RepoDiscoverer`.
pub record ActivityFetcher : Type 0 where
  pub fetch_for_user : String → Repository → ℕ → ℕ → List ActivityType → Outcome (List Activity)
  pub search_activities :
      String → List Repository → ℕ → ℕ → List ActivityType → Outcome (List Activity)
  pub discover_user_repos : Option (String → Outcome (List Repository))

abbrev pub FetcherFactory : Type 0
FetcherFactory = String → ActivityFetcher

-- The map is keyed by the platform's name, its only field.
abbrev pub Registry : Type 0
Registry = List (String × FetcherFactory)

abbrev pub new_registry : Registry
new_registry = []

unfoldable pub register : GitPlatform → FetcherFactory → Registry → Registry
register platform factory r = insert platform.name factory r

abbrev pub built : Option FetcherFactory → String → Option ActivityFetcher
built none api_key = none
built (some factory) api_key = some (factory api_key)

unfoldable pub build : Registry → GitPlatform → String → Option ActivityFetcher
build r platform api_key = built (lookup platform.name r) api_key

-- `for p := range r.factories`, in the order of the map's list.
unfoldable pub platforms : Registry → List GitPlatform
platforms r = map (λ e. record { name = e.0 }) r
