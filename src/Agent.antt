-- ===== src/Agent.antt =====
-- packages/agent: the agent's own services.
pub mod Sync
pub mod Permissions
pub mod Store
pub mod DwnStore
pub mod RpcSocket
pub mod Vault
