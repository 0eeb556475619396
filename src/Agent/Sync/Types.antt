-- ===== src/Agent/Sync/Types.antt =====
-- The data that packages/agent/src/sync-engine-level.ts exchanges with what it calls.
use web5_js.Base.{ℕ, Text, Option, List, Bool, Result}
use web5_js.Base.Level.{Level}

-- What a promise is rejected with.
pub data SyncError : Type 0 where
  -- something that the engine calls threw
  external : Text → SyncError
  -- a property of `undefined` was read
  type_error : SyncError
  in_progress : SyncError
  already_registered : Text → SyncError
  not_registered : Text → SyncError
  not_completed : ℕ → SyncError

pub data SyncDirection : Type 0 where
  push pull : SyncDirection

pub record SyncIdentityOptions : Type 0 where
  pub delegate_did : Option Text
  pub protocols : List Text

pub record PaginationCursor : Type 0 where
  pub message_cid : Text
  pub value : Text

pub record SyncState : Type 0 where
  pub did : Text
  pub delegate_did : Option Text
  pub dwn_url : Text
  pub cursor : Option PaginationCursor
  pub protocol : Option Text

-- A DWN message: the two parts of its descriptor that the engine reads, and the rest of it.
pub record Message : Type 0 where
  pub interface : Text
  pub method : Text
  pub rest : Text

pub record Entry : Type 0 where
  pub message : Option Message
  pub content : Option Text

pub record Reply : Type 0 where
  pub code : ℕ
  pub entry : Option Entry
  pub entries : Option (List Text)
  pub cursor : Option PaginationCursor

pub data Query : Type 0 where
  -- MessagesRead of a message
  read : Text → Query
  -- MessagesQuery, filtered by a protocol or not, after a cursor
  query : Option Text → Option PaginationCursor → Query

-- What goes to `processDwnRequest` and `dwn.processRequest`: author and target are one DID here.
pub record Request : Type 0 where
  pub did : Text
  pub grantee_did : Option Text
  pub grant_id : Option Text
  pub query : Query
  pub store : Bool

-- What the engine calls and does not implement: the database, the agent's DWN, its RPC client, its
-- DID resolver, its permissions, the ULID factory. `World` is their state. A call may throw.
pub record Host : Type 1 where
  pub World : Type 0
  pub identities : Level SyncIdentityOptions
  pub cursors : Level PaginationCursor
  pub texts : Level Text
  -- `getDwnServiceEndpointUrls`
  pub endpoint_urls : Text → World → Result SyncError (List Text) × World
  -- `getPermissionForRequest` for a connected DID, message type, delegate DID and protocol: the id of
  -- the grant that it finds
  pub find_grant : Text → Text → Text → Option Text → World → Result SyncError Text × World
  -- `processRequest`: the message that was built, and the reply of the local DWN
  pub process_request : Request → World → Result SyncError (Message × Reply) × World
  -- `rpc.sendDwnRequest` of a message and its data to an endpoint
  pub send_dwn_request :
      Text → Text → Option Message → Option Text → World → Result SyncError Reply × World
  -- `dwn.node.processMessage`
  pub process_message : Text → Message → Option Text → World → Result SyncError Reply × World
  -- `_ulidFactory()`
  pub ulid : World → Text × World
