-- ===== src/Domain.antt =====
-- src/internal/domain: the entities. A `time.Time` is the number of its instant, which is all that
-- `Before` and `After` compare; roles, review and issue states are strings, as in the source.
pub mod Activities
pub mod Roles
pub use Activities.*
unfoldable pub use Roles.*
use contribution_tracker.Prelude.{
  ℕ, String, ◌≡◌, Bool, false, Option, none, some, List, ◌==◌, lookup, if◌then◌else◌,
}

pub record GitPlatform : Type 0 where
  pub name : String

abbrev pub platform_git_hub : GitPlatform
platform_git_hub = record { name = "GITHUB" }

abbrev pub platform_git_lab : GitPlatform
platform_git_lab = record { name = "GITLAB" }

-- The map `PlatformUsernames` is keyed by the platform's name, its only field.
pub record User : Type 0 where
  pub id : String
  pub username : String
  pub display_name : String
  pub email : String
  pub avatar_url : String
  pub platform_usernames : List (String × String)

unfoldable pub get_platform_username : User → GitPlatform → String
get_platform_username u platform = elim (lookup platform.name u.platform_usernames) [
  | some name ↦ name
  | none ↦ u.username
]

pub record Repository : Type 0 where
  pub id : String
  pub name : String
  pub full_name : String
  pub url : String
  pub platform : GitPlatform
  pub api_token : String

pub record Team : Type 0 where
  pub id : String
  pub name : String
  pub leader_ids : List String
  pub member_ids : List String
  pub repository_ids : List String

pub record BackupMetadata : Type 0 where
  pub app_version : String
  pub exported_at : ℕ
  pub exported_by : String

-- `Config` is a map.
pub record BackupFile : Type 0 where
  pub metadata : BackupMetadata
  pub users : List User
  pub accounts : List UserAccount
  pub teams : List Team
  pub repositories : List Repository
  pub config : List (String × String)
