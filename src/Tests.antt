-- ===== src/Tests.antt =====
-- Runs of the theorems at concrete inputs, a file for each part of the program.
mod Packed
pub mod Sync
pub mod Permissions
pub mod Store
pub mod DwnStore
pub mod RpcSocket
pub mod Vault
pub mod ResolverCache
pub mod Dids
pub mod Dht
pub mod DhtCreate
pub mod DhtNetwork
pub mod Common
pub mod Multicodec
pub mod Credentials
pub mod Crypto
