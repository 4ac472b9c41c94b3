-- ===== src/Examples.antt =====
-- Concrete databases, environments and requests, and the properties applied to them.
pub mod Data
pub mod Teams
pub mod Requests
pub mod Reports
pub mod Login
pub mod Platforms
pub mod Backups
pub mod Migrations
