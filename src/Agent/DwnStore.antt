-- ===== src/Agent/DwnStore.antt =====
-- `DwnDataStore` of packages/agent/src/store-data.ts, with `getAllRecords` of packages/agent/src/store-did.ts,
-- which packages/agent/src/store-identity.ts and packages/agent/src/store-key.ts repeat with the test and the identifier
-- of their objects.
pub mod Types
pub mod Operations
pub mod Spec
pub mod Rebuilt
pub mod Reading
pub mod Updated
pub mod Aiming
pub mod Writing
pub mod Kept
pub mod Stale
pub mod Deleted
use web5_js.Base.{
  ℕ, Text, Option, none, some, List, [], ◌∷◌, Bool, true, false, ◌&&◌, not, if◌then◌else◌, truthy,
  Result, ok, err, ◌==◌,
}
use web5_js.Base.Exec.{Exec, pure, throw, gets, modify, ◌>>=◌, ◌>>◌, bind, continue}
use web5_js.Agent.Store.{
  Tenancy, StoreError, missing_entry, duplicate_entry, get_data_store_tenant, store_key,
}
use Types.{
  DwnStoreError, rejected, query_failed, install_failed, no_encoded_data, read_failed, write_failed,
  delete_failed, QueryEntry, Existing, ReadEntry, Dwn, DwnStore,
}

abbrev pub rejecting : {A : Type 0} → Result StoreError A → Result DwnStoreError A
rejecting (ok a) = ok a
rejecting (err e) = err (rejected e)

-- `entries ?? []`
abbrev pub or_no_entries : Option (List QueryEntry) → List QueryEntry
or_no_entries none = []
or_no_entries (some es) = es

module _ {V : Type 0} (dwn : Dwn V) where
  abbrev pub StoreExec : Type 0 → Type 0
  StoreExec A = Exec DwnStoreError (DwnStore dwn) A

  unfoldable pub process :
      {A : Type 0} → (dwn.World → Result DwnStoreError A × dwn.World) → StoreExec A
  process f s = let (r, w) = f s.world in (r, record s { world = w })

  unfoldable pub lift_result : {A : Type 0} → Result DwnStoreError A → StoreExec A
  lift_result r s = (r, s)

  unfoldable pub tenant_of : Tenancy → Option Text → StoreExec Text
  tenant_of t did_uri = lift_result (rejecting (get_data_store_tenant t did_uri))

  -- The store once a valid object of the record is found
  unfoldable pub noted : Text → Text → V → DwnStore dwn → DwnStore dwn
  noted tenant record_id object s = record s {
    index = dwn.texts.set (store_key tenant (dwn.identifier object)) record_id s.index;
    cache = dwn.objects.set record_id object s.cache;
  }

  unfoldable pub note_object : Text → Text → V → StoreExec (Unit {0})
  note_object tenant record_id object =
      if dwn.is_valid object then modify (noted tenant record_id object) else pure tt

  abbrev pub encoded_of : Option Text → Result DwnStoreError Text
  encoded_of none = err no_encoded_data
  encoded_of (some t) = if truthy t then ok t else err no_encoded_data

  -- The loop over the entries of the reply
  unfoldable pub collect : Text → List QueryEntry → StoreExec (List V)
  collect tenant [] = pure []
  collect tenant (e ∷ es) = do
    text ← lift_result (encoded_of e.encoded_data)
    object ← lift_result (dwn.decode text)
    note_object tenant e.record_id object
    rest ← collect tenant es
    pure (if dwn.is_valid object then object ∷ rest else rest)

  abbrev pub clear_index : DwnStore dwn → DwnStore dwn
  clear_index s = record s { index = dwn.texts.clear s.index }

  unfoldable pub get_all_records : Text → StoreExec (List V)
  get_all_records tenant = do
    modify clear_index
    entries ← process (dwn.records_query tenant)
    collect tenant (or_no_entries entries)

  unfoldable pub indexed : Text → DwnStore dwn → Option Text
  indexed key s = dwn.texts.get key s.index

  abbrev pub lookup_with : Text → Text → Option Text → StoreExec (Option Text)
  lookup_with id tenant (some record_id) = pure (some record_id)
  lookup_with id tenant none = do _ ← get_all_records tenant; gets (indexed (store_key tenant id))

  -- A record ID is never the empty string.
  unfoldable pub lookup_record_id : Text → Text → StoreExec (Option Text)
  lookup_record_id id tenant = do
    found ← gets (indexed (store_key tenant id))
    lookup_with id tenant found

  unfoldable pub cached : Bool → Text → DwnStore dwn → Option V
  cached use_cache record_id s = if use_cache then dwn.objects.get record_id s.cache else none

  -- `if (useCache) this._cache.set(recordId, object)`
  unfoldable pub remember : Bool → Text → V → StoreExec (Unit {0})
  remember use_cache record_id object =
      if use_cache
      then modify (λ s. record s { cache = dwn.objects.set record_id object s.cache })
      else pure tt

  abbrev pub contents_in : Text → Option Text → Result DwnStoreError Text
  contents_in record_id none = err (read_failed record_id)
  contents_in record_id (some t) = ok t

  -- `readReply.entry?.data`, or a throw
  abbrev pub contents_of : Text → Option ReadEntry → Result DwnStoreError Text
  contents_of record_id none = err (read_failed record_id)
  contents_of record_id (some e) = contents_in record_id e.contents

  abbrev pub record_with : Text → Text → Bool → Option V → StoreExec V
  record_with tenant record_id use_cache (some object) = pure object
  record_with tenant record_id use_cache none = do
    entry ← process (dwn.records_read tenant record_id)
    text ← lift_result (contents_of record_id entry)
    object ← lift_result (dwn.parse text)
    remember use_cache record_id object
    pure object

  unfoldable pub get_record : Text → Text → Bool → StoreExec V
  get_record tenant record_id use_cache = do
    found ← gets (cached use_cache record_id)
    record_with tenant record_id use_cache found
