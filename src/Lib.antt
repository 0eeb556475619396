-- ===== src/Lib.antt =====
-- Verification of web5-js: the sync engine, the permissions, the identity vault, the data stores
-- and the WebSocket requests of the agent, the parsing and the resolution of DID URLs with the cache
-- of the resolver, the did:dht method, status list credentials, the derivation of keys by ConcatKdf, hexadecimal
-- conversions and multicodec prefixes.
--
-- The agent's sync engine copies messages between the agent's own DWN (a store of messages) and the
-- remote DWNs of its registered identities. It finds the remote ones through the DID resolver, asks
-- for a permission grant where it acts for a delegate, keeps the work in two queues of a LevelDB
-- database and notes in a history what it is done with. The permission grants come from the DWN and
-- are cached. The data stores keep DIDs, identities and keys as records of the agent's DWN, with an
-- index and a cache of their own. Requests to a remote DWN may go over a WebSocket. The vault keeps
-- the DID of the agent, encrypted with a key that a password opens. A status list tells which
-- credentials of an issuer are revoked.
--
-- Files and code (paths from the root of the repository):
--   Agent/Sync         packages/agent/src/sync-engine-level.ts. Key has the keys of the queues, Types
--                      the data exchanged with the rest of the agent, Engine the state (the record
--                      `Engine`, one field for each sublevel) and its access, Peers
--                      getSyncPeerState, getDwnEventLog and enqueueOperations, Jobs the loops of pull
--                      and push, Lock sync and stopSync. Recorded, Accounted, NoLoss and Unreachable
--                      have the theorems on whole passes.
--   Agent/Permissions  packages/agent/src/permissions-api.ts: the choice of a grant (matchGrantFromArray
--                      and what it calls), and under Cache getPermissionForRequest, fetchGrants,
--                      isGrantRevoked and clear.
--   Agent/DwnStore     DwnDataStore of packages/agent/src/store-data.ts, with getAllRecords of
--                      packages/agent/src/store-did.ts, which the stores of identities and keys
--                      repeat. Types has the state and the record `Dwn` of what the store calls, Operations get, list,
--                      set, delete and initialize. Spec says what the DWN holds for a tenant and when
--                      index and cache agree with it; Rebuilt, Reading, Updated, Aiming, Writing,
--                      Kept, Stale and Deleted have the lemmas and theorems.
--   Agent/RpcSocket    packages/agent/src/prototyping/clients/json-rpc-socket.ts: requests with their handlers and
--                      timers, subscriptions and connect. Steps has the order of events, Settled,
--                      Tracked, Answered and Lasting what they keep.
--   Agent/Vault        packages/agent/src/hd-identity-vault.ts and packages/agent/src/types/identity-vault.ts.
--                      Types has the data and the record `Host` of what the vault calls, Access the
--                      status, lock, unlock, changePassword and getDid, Create initialize, backup and
--                      restore. Contained says how restore may end; Password, Change, Initialize,
--                      Restore and BackUp have the theorems; the laws they rely on are `IsJson`
--                      (what is written is read back) and `IsAead` (what is encrypted opens with
--                      its secret only).
--   Dids/Did           packages/dids/src/did.ts: the pattern of DID URLs as a matcher from left to right,
--                      and Did.parse. Did/Grammar has the grammar that it is compared with,
--                      Matched the groups that it finds, Parse the DIDs.
--   Dids/Resolver      packages/dids/src/resolver/universal-resolver.ts, isDwnDidService of
--                      packages/dids/src/utils.ts, and getDwnServiceEndpointUrls of
--                      packages/agent/src/utils.ts.
--   Dids/ResolverCache packages/dids/src/resolver/resolver-cache-level.ts: the cache and its clock, and in
--                      Fresh the orders of events.
--   Dids/Dht           packages/dids/src/methods/did-dht.ts. Txt, ToPacket and FromPacket have the DNS packets,
--                      Message and Gateway the signed messages, publish and resolve, Create what
--                      create builds. Pairs to Root say how each kind of record is written and read,
--                      State and RoundTrip join them, Framing, Publish and Verified have the messages,
--                      Related and Created the document that is created, Unread a key that is lost.
--                      `Keys`, `Network` and `KeyManager` are what the method calls; the laws are
--                      `IsKey`, `IsNetwork`, `IsSigner` and `IsStable`.
--   Agent/Store        InMemoryDataStore of packages/agent/src/store-data.ts, and getDataStoreTenant of
--                      packages/agent/src/utils-internal.ts.
--   Credentials/StatusList
--                      packages/credentials/src/status-list-credential.ts.
--   Crypto/ConcatKdf   packages/crypto/src/primitives/concat-kdf.ts.
--   Common/Hex         the hexadecimal conversions of packages/common/src/convert.ts.
--   Common/Multicodec  packages/common/src/multicodec.ts.
--   Base               what the parts share: strings as lists of UTF-16 code units, parseInt, code
--                      that may throw (Results), asynchronous methods with a state (Exec), and the
--                      interfaces of the packages that the code calls: a LevelDB sublevel (Level) and
--                      the cache with a time to live (TtlCache).
--   Tests              runs of the theorems at concrete inputs.
--
-- How the code is modelled: a method that awaits and throws is a function from the state to a result
-- and the state after it; what was written before a throw stays written. Calls of other parts (the
-- DWN, the RPC client, the DID methods, the database, gzip and base64url) are fields of a record that
-- the definitions take as an argument, and may answer anything and throw, except where a theorem names
-- a law that it relies on. Names are those of the source in lower case with underscores.
--
-- The caches of the data stores may drop an entry when its time is up or when they are full; a theorem
-- that relies on what they keep has the law `IsRoomy`. What the DWN of a tenant does for them is
-- `IsDwn`.
--
-- A document of did:dht that a packet can hold (`IsEncodable`) has no separator in its texts, keys that
-- their bytes give back, the ID #0 at its first method and there only, no P-256 key, and arrays for the
-- endpoints of its services; its types are given by number or by name. A packet that DNS can carry
-- (`is_carried`) has TXT strings of 255 bytes at most and names of labels of 63 bytes at most: only the
-- services are cut in chunks. `Number` reads digits only. Signatures have 64 bytes, as those of Ed25519.
--
-- Bounds: the loop of stopSync runs on fuel, `timeout / 100 + 2` tests of the lock, which is enough
-- since each round adds 100 to the time that is compared with the timeout; a result without fuel left
-- is not among the ways it may end. The chunks of a text are cut on fuel, the length of the text,
-- which is enough since each chunk takes a unit at least. All other loops run over lists. Numbers read by parseInt are
-- exact, where JavaScript rounds those above 2^53; the lengths and bytes of the status list are far
-- below. A bit string has 16 * 1024 bytes, as in the source.
--
-- Not modelled: a vault over a MemoryStore, which takes `undefined` where a LevelStore throws; parts of a
-- backup that are neither texts nor `undefined`; the timer of startSync, a database whose writes fail, and the parsing of stored JSON;
-- the requests that Promise.allSettled runs concurrently are run one after the other; the metadata of
-- resolution results beyond the error; the building of permission messages; a send on a WebSocket
-- that throws; what a DWN does that is shared with other writers; and the other packages (the rest of
-- the cryptography, key managers, the other DID methods, the public api, the HTTP client).
pub mod Base
pub mod Agent
pub mod Dids
pub mod Credentials
pub mod Crypto
pub mod Common
pub mod Tests
