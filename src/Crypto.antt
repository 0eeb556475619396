-- ===== src/Crypto.antt =====
-- packages/crypto.
pub mod ConcatKdf
