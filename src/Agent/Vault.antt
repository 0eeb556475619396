-- ===== src/Agent/Vault.antt =====
-- `HdIdentityVault` of packages/agent/src/hd-identity-vault.ts: the state of the vault and its
-- operations. The keys and the DID are derived by the host; here they are what comes of it.
pub mod Types
pub mod Access
pub mod Create
pub mod Contents
pub mod Password
pub mod Change
pub mod Contained
pub mod Initialize
pub mod Restore
pub mod BackUp
