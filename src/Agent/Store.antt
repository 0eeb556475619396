-- ===== src/Agent/Store.antt =====
-- `InMemoryDataStore` of packages/agent/src/store-data.ts, with `getDataStoreTenant` of
-- packages/agent/src/utils-internal.ts. `structuredClone` of immutable data changes nothing.
pub mod Tenants
use web5_js.Base.{
  Text, codes, Option, none, some, List, [], ◌∷◌, ◌++◌, Bool, true, false, if◌then◌else◌, truthy,
  is_given, starts_with, lookup, insert, remove, Result, ok, err, ◌>>=◌,
}

pub data StoreError : Type 0 where
  no_tenant : StoreError
  missing_entry duplicate_entry : Text → StoreError

-- `tenant` and `agent.agentDid`
pub record Tenancy : Type 0 where
  pub tenant : Option Text
  pub agent_did : Option Text

-- Without an agent DID: the DID of the object, if it is given.
abbrev fallback : Option Text → Option Text → Result StoreError Text
fallback (some did) did_uri = ok did
fallback none none = err no_tenant
fallback none (some did) = if truthy did then ok did else err no_tenant

abbrev explicit : Option Text → Option Text → Option Text → Result StoreError Text
explicit none agent_did did_uri = fallback agent_did did_uri
explicit (some tenant) agent_did did_uri =
    if truthy tenant then ok tenant else fallback agent_did did_uri

unfoldable pub get_data_store_tenant : Tenancy → Option Text → Result StoreError Text
get_data_store_tenant t did_uri = explicit t.tenant t.agent_did did_uri

-- `${tenantDid}${TENANT_SEPARATOR}`
unfoldable pub tenant_prefix : Text → Text
tenant_prefix tenant = tenant ++ codes "^"

unfoldable pub store_key : Text → Text → Text
store_key tenant id = tenant_prefix tenant ++ id

abbrev pub has : {V : Type 0} → Option V → Bool
has none = false
has (some _) = true

abbrev pub Store : Type 0 → Type 0
Store V = List (Text × V)

-- The checks of `set`, for a store that has the key or not
unfoldable pub check_set : Bool → Bool → Bool → Text → Result StoreError (Unit {0})
check_set update_existing prevent_duplicates present id =
    if update_existing
    then (if present then ok tt else err (missing_entry id))
    else if prevent_duplicates
    then (if present then err (duplicate_entry id) else ok tt)
    else ok tt

module _ {V : Type 0} where
  unfoldable pub get_object : Tenancy → Text → Store V → Result StoreError (Option V)
  get_object t id s = do
    tenant ← get_data_store_tenant t (some id)
    ok (lookup (store_key tenant id) s)

  -- The answer of `delete`, and the store after it, for a store that has the key or not
  abbrev pub delete_present : Bool → Text → Store V → Bool × Store V
  delete_present true key s = (true, remove key s)
  delete_present false key s = (false, s)

  unfoldable pub delete_object : Tenancy → Text → Store V → Result StoreError (Bool × Store V)
  delete_object t id s = do
    tenant ← get_data_store_tenant t (some id)
    ok (delete_present (has (lookup (store_key tenant id) s)) (store_key tenant id) s)

  -- The values of the entries whose key begins with the prefix
  unfoldable pub values_under : Text → Store V → List V
  values_under prefix [] = []
  values_under prefix ((k, v) ∷ s) =
      if starts_with prefix k then v ∷ values_under prefix s else values_under prefix s

  unfoldable pub list_objects : Tenancy → Store V → Result StoreError (List V)
  list_objects t s = do
    tenant ← get_data_store_tenant t none
    ok (values_under (tenant_prefix tenant) s)

  unfoldable pub set_object :
      Tenancy → Text → V → Bool → Bool → Store V → Result StoreError (Store V)
  set_object t id value prevent_duplicates update_existing s = do
    tenant ← get_data_store_tenant t (some id)
    _ ← check_set update_existing prevent_duplicates (has (lookup (store_key tenant id) s)) id
    ok (insert (store_key tenant id) value s)
