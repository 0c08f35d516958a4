-- ===== src/EphemeralAuth.antt =====
-- Package ephemeralauth.
pub mod Base64
pub mod External
pub mod Token
pub mod Guest
pub mod ClientIp
pub mod Issuance
pub mod Protect
pub mod Lifecycle
pub mod Turnstile
pub mod Redaction
pub mod Tests
