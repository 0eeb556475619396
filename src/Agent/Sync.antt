-- ===== src/Agent/Sync.antt =====
-- packages/agent/src/sync-engine-level.ts
pub mod Key
pub mod Types
pub mod Engine
pub mod Peers
pub mod Jobs
pub mod Recorded
pub mod Lock
pub mod Accounted
pub mod NoLoss
pub mod Unreachable
