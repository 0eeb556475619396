-- ===== src/Agent/DwnStore/Spec.antt =====
-- What the DWN of a tenant does for `DwnDataStore` (packages/agent/src/store-data.ts), and when the index and
-- the cache of the store agree with it.
use web5_js.Base.{
  Text, Option, none, some, List, map, true, if◌then◌else◌, ◌===◌, truthy, lookup, All, ok, ◌≡◌,
  ◌≢◌,
}
use web5_js.Agent.Store.{store_key}
use web5_js.Agent.DwnStore.Types.{Existing, Dwn, DwnStore}

-- The record ID of a write: a new one, or that of the record that is replaced.
abbrev pub IsIdFor : {V : Type 0} → List (Text × V) → Option Existing → Text → Type 0
IsIdFor m none r = lookup r m ≡ none
IsIdFor m (some e) r = r ≡ e.record_id

module _ {V : Type 0} (dwn : Dwn V) (tenant : Text) where
  -- The DWN holds a list of records with their objects, once each. A query returns all, a read the one
  -- with the ID; a write that is accepted adds an object or replaces one, a deletion removes one.
  pub record IsDwn : Type 0 where
    pub stored : dwn.World → List (Text × V)
    pub encode : V → Text
    pub created : Text → dwn.World → Text
    pub encode_given : (v : V) → truthy (encode v) ≡ true
    pub decode-encode : (v : V) → dwn.decode (encode v) ≡ ok v
    pub parse-to_text : (v : V) → dwn.parse (dwn.to_text v) ≡ ok v
    pub once : (w : dwn.World) → All (λ e. lookup e.0 (stored w) ≡ some e.1) (stored w)
    pub query_lem :
        (w : dwn.World)
        → dwn.records_query tenant w ≡ (
          ok (
              some (
                map
                  (λ e. record { record_id = e.0; encoded_data = some (encode e.1) })
                  (stored w))),
          w,
        )
    pub read_lem :
        (r : Text) (v : V) (w : dwn.World)
        → lookup r (stored w) ≡ some v
        → dwn.records_read tenant r w ≡ (
          ok (
              some (record {
                existing = record { record_id = r; date_created = created r w };
                contents = some (dwn.to_text v);
              })),
          w,
        )
    pub write_id :
        (e : Option Existing) (v : V) (w : dwn.World) (r : Text)
        → (dwn.records_write tenant e (dwn.to_text v) w).0 ≡ ok (202, some r)
        → IsIdFor (stored w) e r
    pub write_lem :
        (e : Option Existing) (v : V) (w : dwn.World) (r j : Text)
        → (dwn.records_write tenant e (dwn.to_text v) w).0 ≡ ok (202, some r)
        → lookup j (stored (dwn.records_write tenant e (dwn.to_text v) w).1)
          ≡ (if r === j then some v else lookup j (stored w))
    pub delete_lem :
        (r j : Text) (w : dwn.World)
        → (dwn.records_delete tenant r w).0 ≡ ok 202
        → lookup j (stored (dwn.records_delete tenant r w).1)
          ≡ (if r === j then none else lookup j (stored w))
    pub protocols_query_lem : (w : dwn.World) → stored (dwn.protocols_query tenant w).1 ≡ stored w
    pub protocols_configure_lem :
        (w : dwn.World) → stored (dwn.protocols_configure tenant w).1 ≡ stored w

  module _ (m : List (Text × V)) where
    -- What the index has for an identifier is the record of an object with it.
    abbrev pub Points : dwn.texts.Store → Type 0
    Points i =
        (id r : Text)
        → dwn.texts.get (store_key tenant id) i ≡ some r
        → (v : V) × (lookup r m ≡ some v) × (dwn.identifier v ≡ id)

    -- What the cache has is what is stored.
    abbrev pub Copies : dwn.objects.Store → Type 0
    Copies c = (r : Text) (v : V) → dwn.objects.get r c ≡ some v → lookup r m ≡ some v

    -- Only valid objects are stored, and one for each identifier.
    pub record IsOrderly : Type 0 where
      pub valid : (r : Text) (v : V) → lookup r m ≡ some v → dwn.is_valid v ≡ true
      pub unique :
          (r q : Text) (v u : V)
          → lookup r m ≡ some v
          → lookup q m ≡ some u
          → dwn.identifier v ≡ dwn.identifier u
          → r ≡ q

    pub record IsSound (s : DwnStore dwn) : Type 0 where
      pub points : Points s.index
      pub copies : Copies s.cache
      pub orderly : IsOrderly

    -- Where the object with an identifier is stored
    pub data IsPlace (id : Text) : Option Text → Type 0 where
      here : {r : Text} {v : V} → lookup r m ≡ some v → dwn.identifier v ≡ id → IsPlace id (some r)
      nowhere : ((r : Text) (v : V) → lookup r m ≡ some v → dwn.identifier v ≢ id) → IsPlace id none

    -- The object with an identifier
    pub data IsObject (id : Text) : Option V → Type 0 where
      kept : {v : V} (r : Text) → lookup r m ≡ some v → dwn.identifier v ≡ id → IsObject id (some v)
      absent : ((r : Text) (v : V) → lookup r m ≡ some v → dwn.identifier v ≢ id) → IsObject id none
