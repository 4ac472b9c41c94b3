-- ===== src/Report/Groups.antt =====
-- The loop of `GenerateReport` that groups a team's repositories by platform and token.
use contribution_tracker.Prelude.{
  String, Option, none, some, List, [], ◌∷◌, ◌++◌, ◌==◌, if◌then◌else◌, lookup, insert,
}
use Prim.Native.String
use contribution_tracker.Domain.{GitPlatform, Repository}

pub record FetcherGroup : Type 0 where
  pub platform : GitPlatform
  pub token : String
  pub repos : List Repository

unfoldable pub group_key : Repository → String
group_key r = String.◌++◌ r.platform.name (String.◌++◌ "\0" r.api_token)

abbrev pub first_of : Repository → FetcherGroup
first_of r = record { platform = r.platform; token = r.api_token; repos = r ∷ [] }

abbrev pub joined : Repository → Option FetcherGroup → FetcherGroup
joined r none = first_of r
joined r (some g) = record g { repos = g.repos ++ r ∷ [] }

-- One round: a repository with no token is skipped.
abbrev pub add_to_group : List (String × FetcherGroup) → Repository → List (String × FetcherGroup)
add_to_group m r =
    if r.api_token == "" then m else insert (group_key r) (joined r (lookup (group_key r) m)) m

unfoldable pub group_map :
    List (String × FetcherGroup) → List Repository → List (String × FetcherGroup)
group_map m [] = m
group_map m (r ∷ rs) = group_map (add_to_group m r) rs
