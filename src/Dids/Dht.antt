-- ===== src/Dids/Dht.antt =====
-- `DidDht` of packages/dids/src/methods/did-dht.ts: DID documents as DNS packets, and the messages that carry
-- them.
pub mod Types
pub mod Txt
pub mod ToPacket
pub mod FromPacket
pub mod Pairs
pub mod Layout
pub mod Methods
pub mod Segments
pub mod Related
pub mod Created
pub mod Create
pub mod Verified
pub mod Unread
pub mod Publish
pub mod Framing
pub mod Message
pub mod Gateway
pub mod State
pub mod RoundTrip
pub mod Relationships
pub mod Root
pub mod Records
pub mod Services
pub mod Chunks
pub mod Names
pub mod Values
