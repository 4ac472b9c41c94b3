-- ===== src/Access.antt =====
-- Who may change what: the middleware of middleware.go and the routes of router.go together.
pub mod Tokens
pub mod Guards
pub mod Changes
pub mod Login
