-- ===== src/Leadership.antt =====
-- Leaders are members: the database invariant of teams, and what keeps it.
pub mod Invariant
pub mod Closed
pub mod Restoring
pub mod Requests
pub mod Guards
pub mod Deletion
