-- ===== src/Agent/DwnStore/Types.antt =====
-- The state of `DwnDataStore` (packages/agent/src/store-data.ts), and the DWN that it calls.
use web5_js.Base.{ℕ, Text, Option, Bool, List, Result}
use web5_js.Base.TtlCache.{TtlCache}
use web5_js.Agent.Store.{StoreError}

pub data DwnStoreError : Type 0 where
  -- something that the store calls threw
  external : Text → DwnStoreError
  -- the errors that the store in memory has as well
  rejected : StoreError → DwnStoreError
  query_failed install_failed : ℕ → DwnStoreError
  no_encoded_data : DwnStoreError
  read_failed write_failed delete_failed : Text → DwnStoreError

-- An entry of the reply to a query: its `recordId` and its `encodedData`
pub record QueryEntry : Type 0 where
  pub record_id : Text
  pub encoded_data : Option Text

-- What an update takes over from the record that it replaces
pub record Existing : Type 0 where
  pub record_id : Text
  pub date_created : Text

pub record ReadEntry : Type 0 where
  pub existing : Existing
  -- the text of the stream
  pub contents : Option Text

-- `agent.dwn.processRequest` for each kind of message, where author and target are the tenant, with
-- the conversions of the objects, the test and the identifier that the class of the store has for them, and
-- the three caches. `World` is the state of the DWN.
pub record Dwn (V : Type 0) : Type 1 where
  pub World : Type 0
  -- `entries`
  pub records_query : Text → World → Result DwnStoreError (Option (List QueryEntry)) × World
  -- the record with the ID
  pub records_read : Text → Text → World → Result DwnStoreError (Option ReadEntry) × World
  -- the status code, and the record ID of the message
  pub records_write :
      Text → Option Existing → Text → World → Result DwnStoreError (ℕ × Option Text) × World
  pub records_delete : Text → Text → World → Result DwnStoreError ℕ × World
  -- the status code, and the number of entries
  pub protocols_query : Text → World → Result DwnStoreError (ℕ × Option ℕ) × World
  pub protocols_configure : Text → World → Result DwnStoreError ℕ × World
  pub to_text : V → Text
  pub parse : Text → Result DwnStoreError V
  -- from base64url
  pub decode : Text → Result DwnStoreError V
  pub is_valid : V → Bool
  pub identifier : V → Text
  pub texts : TtlCache Text
  pub objects : TtlCache V
  pub flags : TtlCache Bool

pub record DwnStore {V : Type 0} (dwn : Dwn V) : Type 0 where
  pub index : dwn.texts.Store
  pub cache : dwn.objects.Store
  pub protocol_initialized : dwn.flags.Store
  pub world : dwn.World
