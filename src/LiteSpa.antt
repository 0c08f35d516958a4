-- ===== src/LiteSpa.antt =====
-- Package litespaserver.
pub mod Csp
pub mod Cache
pub mod Fetch
pub mod Static
pub mod Dao
pub mod Version
pub mod Server
mod Tests
