-- ===== src/Credentials.antt =====
-- packages/credentials: verifiable credentials.
pub mod StatusList
