-- ===== src/Database.antt =====
-- The PostgreSQL database of src/internal/infrastructure/persistence, with the tables and the
-- constraints of src/migrations, and the repositories that run their statements on it.
-- A statement may fail for reasons outside the program: `outages` holds, for each of the next
-- statements, the text of the error that it meets, or `none`. Every theorem is for all of them.
pub mod Schema
pub mod Links
pub mod Session
pub mod Success
pub mod Keeps
pub mod Teams
pub mod Reads
pub mod Found
pub mod Users
pub mod Accounts
pub mod Repositories
pub mod Config
pub mod Backups
pub mod Calm
pub mod RoleTexts
pub mod Upserting
pub mod Saving
pub mod Rosters
pub mod RosterChanges
pub mod Runs
pub mod Restoring
pub mod Migrator
pub mod Migrations
pub mod Remigrating
pub mod Restored
pub mod Passing
pub mod Accepting
pub mod Accepted
pub mod Exporting
pub mod Entries
pub mod Usernames
pub mod Copies
pub mod RoundTrip
