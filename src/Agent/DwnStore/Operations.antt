-- ===== src/Agent/DwnStore/Operations.antt =====
-- `get`, `list`, `set`, `delete` and `initialize` of `DwnDataStore` (packages/agent/src/store-data.ts).
use web5_js.Base.{ℕ, Text, Option, none, some, List, Bool, true, false, if◌then◌else◌, ◌==◌}
use web5_js.Base.Exec.{pure, throw, gets, modify, ◌>>=◌, ◌>>◌}
use web5_js.Agent.Store.{Tenancy, missing_entry, duplicate_entry, store_key}
use web5_js.Agent.DwnStore.Types.{
  rejected, query_failed, install_failed, write_failed, delete_failed, Existing, ReadEntry, Dwn,
  DwnStore,
}
use web5_js.Agent.DwnStore.{
  StoreExec, process, tenant_of, get_all_records, lookup_record_id, get_record, remember,
}

abbrev pub is_zero : Option ℕ → Bool
is_zero none = false
is_zero (some n) = n == 0

abbrev pub is_set : Option Bool → Bool
is_set none = false
is_set (some _) = true

module _ {V : Type 0} (dwn : Dwn V) where
  abbrev pub found_object : Text → Bool → Option Text → StoreExec dwn (Option V)
  found_object tenant use_cache none = pure none
  found_object tenant use_cache (some record_id) = do
    object ← get_record dwn tenant record_id use_cache
    pure (some object)

  unfoldable pub get : Tenancy → Text → Bool → StoreExec dwn (Option V)
  get t id use_cache = do
    tenant ← tenant_of dwn t (some id)
    found ← lookup_record_id dwn id tenant
    found_object tenant use_cache found

  unfoldable pub list : Tenancy → StoreExec dwn (List V)
  list t = do tenant ← tenant_of dwn t none; get_all_records dwn tenant

  unfoldable pub install_protocol : Text → StoreExec dwn (Unit {0})
  install_protocol tenant = do
    code ← process dwn (dwn.protocols_configure tenant)
    if code == 202 then pure tt else throw (install_failed code)

  unfoldable pub query_protocol : Text → StoreExec dwn (Unit {0})
  query_protocol tenant = do
    (code, entries) ← process dwn (dwn.protocols_query tenant)
    if code == 200 then pure tt else throw (query_failed code)
    if is_zero entries then install_protocol tenant else pure tt
    modify
        (λ s. record s { protocol_initialized = dwn.flags.set tenant true s.protocol_initialized })

  abbrev pub initialize_if : Text → Bool → StoreExec dwn (Unit {0})
  initialize_if tenant true = pure tt
  initialize_if tenant false = query_protocol tenant

  unfoldable pub initialize : Tenancy → StoreExec dwn (Unit {0})
  initialize t = do
    tenant ← tenant_of dwn t none
    known ← gets (λ s. is_set (dwn.flags.get tenant s.protocol_initialized))
    initialize_if tenant known

  abbrev pub read_existing : Text → Option Text → StoreExec dwn (Option ReadEntry)
  read_existing tenant none = pure none
  read_existing tenant (some record_id) = process dwn (dwn.records_read tenant record_id)

  unfoldable pub get_existing_record_entry : Text → Text → StoreExec dwn (Option ReadEntry)
  get_existing_record_entry id tenant = do
    found ← lookup_record_id dwn id tenant
    read_existing tenant found

  abbrev pub updated : Text → Option ReadEntry → StoreExec dwn (Option Existing)
  updated id none = throw (rejected (missing_entry id))
  updated id (some e) = pure (some e.existing)

  abbrev pub not_duplicate : Text → Option Text → StoreExec dwn (Option Existing)
  not_duplicate id none = pure none
  not_duplicate id (some _) = throw (rejected (duplicate_entry id))

  -- The record that `set` replaces; it throws where there is one and should be none, or the other way round.
  abbrev pub replaced : Bool → Bool → Text → Text → StoreExec dwn (Option Existing)
  replaced true prevent_duplicates id tenant = do
    entry ← get_existing_record_entry id tenant
    updated id entry
  replaced false true id tenant = do found ← lookup_record_id dwn id tenant; not_duplicate id found
  replaced false false id tenant = pure none

  abbrev pub written : Text → ℕ × Option Text → StoreExec dwn Text
  written id (code, none) = throw (write_failed id)
  written id (code, some record_id) =
      if code == 202 then pure record_id else throw (write_failed id)

  unfoldable pub index_record : Text → Text → Text → StoreExec dwn (Unit {0})
  index_record tenant id record_id =
      modify (λ s. record s { index = dwn.texts.set (store_key tenant id) record_id s.index })

  unfoldable pub write : Text → Text → V → Option Existing → Bool → StoreExec dwn (Unit {0})
  write tenant id object existing use_cache = do
    reply ← process dwn (dwn.records_write tenant existing (dwn.to_text object))
    record_id ← written id reply
    index_record tenant id record_id
    remember dwn use_cache record_id object

  unfoldable pub set : Tenancy → Text → V → Bool → Bool → Bool → StoreExec dwn (Unit {0})
  set t id object prevent_duplicates update_existing use_cache = do
    tenant ← tenant_of dwn t (some id)
    initialize (record t { tenant = some tenant })
    existing ← replaced update_existing prevent_duplicates id tenant
    write tenant id object existing use_cache

  abbrev pub dropped : Text → Text → Text → DwnStore dwn → DwnStore dwn
  dropped tenant id record_id s = record s {
    index = dwn.texts.delete (store_key tenant id) s.index;
    cache = dwn.objects.delete record_id s.cache;
  }

  abbrev pub delete_found : Text → Text → Option Text → StoreExec dwn Bool
  delete_found id tenant none = pure false
  delete_found id tenant (some record_id) = do
    code ← process dwn (dwn.records_delete tenant record_id)
    if code == 202 then modify (dropped tenant id record_id) else throw (delete_failed id)
    pure true

  unfoldable pub delete : Tenancy → Text → StoreExec dwn Bool
  delete t id = do
    tenant ← tenant_of dwn t (some id)
    found ← lookup_record_id dwn id tenant
    delete_found id tenant found
