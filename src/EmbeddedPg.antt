-- ===== src/EmbeddedPg.antt =====
-- utils/embedded_pg.go: the processes of an embedded PostgreSQL server.
pub mod PidFile
pub mod Process
pub mod Signals
pub mod Backoff
pub mod Decimal
pub mod Written
pub mod Tests
