-- ===== src/Platforms.antt =====
-- The clients and fetchers of src/internal/infrastructure/github and gitlab.
pub mod Http
pub mod Client
pub mod Sets
pub mod Yields
pub mod GitHub
pub mod GitLab
pub mod FromGitHub
pub mod FromGitLab
pub mod Wiring
pub mod Given
pub mod Complete
pub mod Paths
pub mod Parameters
pub mod NextLink
pub mod Types
pub mod Dates
