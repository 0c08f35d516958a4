-- ===== src/Pool.antt =====
-- postgres/pool.go: pools of connections.
pub mod Dsn
pub mod Options
pub mod Stop
pub mod Registry
pub mod Connect
mod Tests
