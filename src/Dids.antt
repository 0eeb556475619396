-- ===== src/Dids.antt =====
-- packages/dids: DID URLs and their resolution.
pub mod Did
pub mod Resolver
pub mod ResolverCache
pub mod Dht
