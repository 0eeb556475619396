-- ===== src/Tests/Store.antt =====
-- The theorems about `InMemoryDataStore` of packages/agent/src/store-data.ts at concrete inputs.
use web5_js.Base.{
  ℕ, Text, codes, Option, none, some, [], ◌∷◌, true, false, ◌&&◌, if◌then◌else◌, ◌===◌, lookup,
  insert, remove, truthy, ok, ◌≡◌, refl, arith,
}
use web5_js.Agent.Store.{
  Tenancy, Store, get_data_store_tenant, tenant_prefix, store_key, get_object, delete_object,
  check_set, set_object,
}
use web5_js.Agent.Store.Tenants.{get_object-set_object}

abbrev alice : Text
alice = codes "did:web:a"

abbrev bob : Text
bob = codes "did:web:b"

abbrev of_alice : Tenancy
of_alice = record { tenant = some alice; agent_did = none }

abbrev of_bob : Tenancy
of_bob = record { tenant = none; agent_did = some bob }

abbrev one_object : Store ℕ
one_object = (codes "did:web:b^k", 7) ∷ []

abbrev two_objects : Store ℕ
two_objects = (codes "did:web:b^k", 7) ∷ (codes "did:web:a^k", 8) ∷ []

alice_tenant : (id : Option Text) → get_data_store_tenant of_alice id ≡ ok alice
unfolding get_data_store_tenant truthy
alice_tenant id = refl

bob_tenant : (id : Option Text) → get_data_store_tenant of_bob id ≡ ok bob
unfolding get_data_store_tenant
bob_tenant id = refl

alice_missing : get_object of_alice (codes "k") one_object ≡ ok none
unfolding get_object get_data_store_tenant store_key tenant_prefix truthy lookup ◌===◌
alice_missing = refl

alice_written : set_object of_alice (codes "k") 8 true false one_object ≡ ok two_objects
unfolding set_object check_set get_data_store_tenant store_key tenant_prefix truthy lookup insert
    ◌===◌
alice_written = refl

get_object-set_object_example : get_object of_bob (codes "k") two_objects ≡ (
    if (alice === bob) && (codes "k" === codes "k")
    then ok (some 8)
    else get_object of_bob (codes "k") one_object)
get_object-set_object_example =
    get_object-set_object of_alice of_bob alice bob (codes "k") (codes "k") 8 true false one_object
      two_objects (alice_tenant (some (codes "k"))) (bob_tenant (some (codes "k"))) (ground arith)
      (ground arith) alice_written

bob_found : get_object of_bob (codes "k") two_objects ≡ ok (some 7)
unfolding get_object get_data_store_tenant store_key tenant_prefix lookup ◌===◌
bob_found = refl

abbrev after_delete : Store ℕ
after_delete = (codes "did:web:a^k", 8) ∷ []

bob_deleted : delete_object of_bob (codes "k") two_objects ≡ ok (true, after_delete)
unfolding delete_object get_data_store_tenant store_key tenant_prefix lookup remove ◌===◌
bob_deleted = refl
