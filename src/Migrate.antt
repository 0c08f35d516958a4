-- ===== src/Migrate.antt =====
-- postgres/migrate.go: running the migrations of a database.
pub mod Dir
pub mod Lock
pub mod Run
pub mod Revisions
mod Tests
