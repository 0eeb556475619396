-- ===== src/Common.antt =====
-- packages/common: the conversions that the other packages share.
pub mod Hex
pub mod Multicodec
