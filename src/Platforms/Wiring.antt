-- ===== src/Platforms/Wiring.antt =====
-- src/cmd/api/main.go: the registry of fetchers that the program is started with.
use contribution_tracker.Prelude.{
  ℕ, String, ◌≡◌, refl, sym, ◌∙◌, ap, Bool, true, false, ◌⊎◌, inl, inr, Option, some, none, ◌==◌,
  insert, lookup, lookup-insert, if◌then◌else◌,
}
use mathlib.Core.Path.{subst}
use contribution_tracker.Domain.{GitPlatform, platform_git_hub, platform_git_lab}
use contribution_tracker.Report.Fetching.{
  ActivityFetcher, FetcherFactory, Registry, new_registry, register, build, built,
}
use contribution_tracker.Platforms.Http.{Network, Formats}
use contribution_tracker.Platforms.Sets.{NameSet}
use contribution_tracker.Platforms.GitHub
use contribution_tracker.Platforms.GitHub.Models.{GitHubJson}
use contribution_tracker.Platforms.GitLab
use contribution_tracker.Platforms.GitLab.Models.{GitLabJson}

-- What the fetchers are built of: the libraries, the network, the order of a map's entries and the
-- number of pages that a call may read.
pub record Outside : Type 0 where
  pub lib : Formats
  pub github_json : GitHubJson
  pub gitlab_json : GitLabJson
  pub net : Network
  pub visit : NameSet → NameSet
  pub rounds : ℕ

-- `getenv` gives the empty text for a variable that is not set.
abbrev pub env_or_default : (String → String) → String → String → String
env_or_default getenv key fallback = if getenv key == "" then fallback else getenv key

abbrev pub github_factory : Outside → (String → String) → FetcherFactory
github_factory o getenv =
    GitHub.factory o.lib o.github_json o.net o.visit o.rounds
      (env_or_default getenv "GITHUB_BASE_URL" "https://api.github.com")

abbrev pub gitlab_factory : Outside → (String → String) → FetcherFactory
gitlab_factory o getenv =
    GitLab.factory o.lib o.gitlab_json o.net o.rounds
      (env_or_default getenv "GITLAB_BASE_URL" "https://gitlab.com")

unfoldable pub registry_of : Outside → (String → String) → Registry
registry_of o getenv =
    register platform_git_lab (gitlab_factory o getenv)
      (register platform_git_hub (github_factory o getenv) new_registry)

-- What the registry builds for each platform: there is no third one.
pub build-registry_of :
    (o : Outside) (getenv : String → String) (p : GitPlatform) (token : String)
    → build (registry_of o getenv) p token ≡ (
        if platform_git_lab.name == p.name
        then some (gitlab_factory o getenv token)
        else if platform_git_hub.name == p.name
        then some (github_factory o getenv token)
        else none)
unfolding build registry_of register
build-registry_of o getenv p token =
    ap (λ m. built m token)
      (lookup-insert "GITLAB" p.name (gitlab_factory o getenv)
        (insert "GITHUB" (github_factory o getenv) new_registry))
    ∙ by_name ("GITLAB" == p.name) ("GITHUB" == p.name)
        (lookup p.name (insert "GITHUB" (github_factory o getenv) new_registry))
        (lookup-insert "GITHUB" p.name (github_factory o getenv) new_registry)
  where
    by_name :
        (lab hub : Bool) (m : Option FetcherFactory)
        → m ≡ (if hub then some (github_factory o getenv) else none)
        → built (if lab then some (gitlab_factory o getenv) else m) token ≡ (
            if lab
            then some (gitlab_factory o getenv token)
            else if hub
            then some (github_factory o getenv token)
            else none)
    by_name true hub m e = refl
    by_name false true m e = ap (λ m. built m token) e
    by_name false false m e = ap (λ m. built m token) e

-- A fetcher that the registry builds is github's or gitlab's.
pub build-cases :
    (o : Outside) (getenv : String → String) (p : GitPlatform) (token : String)
    (f : ActivityFetcher)
    → build (registry_of o getenv) p token ≡ some f
    → (f ≡ github_factory o getenv token) ⊎ (f ≡ gitlab_factory o getenv token)
build-cases o getenv p token f e =
    which (platform_git_lab.name == p.name) (platform_git_hub.name == p.name)
      (sym (build-registry_of o getenv p token) ∙ e)
  where
    which :
        (lab hub : Bool)
        → (if lab
            then some (gitlab_factory o getenv token)
            else if hub
            then some (github_factory o getenv token)
            else none)
          ≡ some f
        → (f ≡ github_factory o getenv token) ⊎ (f ≡ gitlab_factory o getenv token)
    which true hub e = inr (cc)
    which false true e = inl (cc)
    which false false e = cc

-- What both give, each fetcher of the registry gives.
pub from_registry :
    (o : Outside) (getenv : String → String) (R : ActivityFetcher → Type 0)
    → ((token : String) → R (github_factory o getenv token))
    → ((token : String) → R (gitlab_factory o getenv token))
    → (p : GitPlatform) (token : String) (f : ActivityFetcher)
    → build (registry_of o getenv) p token ≡ some f
    → R f
from_registry o getenv R hub lab p token f e = elim (build-cases o getenv p token f e) [
  | inl same ↦ subst R (sym same) (hub token)
  | inr same ↦ subst R (sym same) (lab token)
]
