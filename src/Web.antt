-- ===== src/Web.antt =====
-- src/internal/presentation: the handlers, the middleware in front of them and the routes.
pub mod Responses
pub mod Keeps
pub mod Middleware
pub mod Roles
pub mod Admin
pub mod Closed
pub mod Repositories
pub mod Profile
pub mod Backups
pub mod Stream
pub mod Router
