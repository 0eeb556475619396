-- ===== src/Tests/DwnStore.antt =====
-- The theorems about `DwnDataStore` of packages/agent/src/store-data.ts at concrete inputs, over a DWN that is a log of
-- writes and deletions, of which the last to a record counts. An object is an identifier with a text.
use web5_js.Base.{
  ℕ, Text, codes, Option, none, some, List, [], ◌∷◌, map, Bool, true, false, ◌===◌, ===_iff,
  ===_refl, if◌then◌else◌, length, truthy, lookup, insert, remove, lookup-remove, All, All-map,
  Result, ok, err, ◌≡◌, refl, sym, ap, ◌∙◌, arith, Bool-cases, inl, inr,
}
use web5_js.Base.Exec.{bind, continue, pure, throw, gets, modify}
use web5_js.Base.TtlCache.{map_cache, map_cache-IsRoomy}
use web5_js.Agent.Store.{Tenancy, get_data_store_tenant, store_key, tenant_prefix}
use web5_js.Agent.DwnStore.Types.{
  DwnStoreError, external, QueryEntry, Existing, ReadEntry, Dwn, DwnStore,
}
use web5_js.Agent.DwnStore.{
  process, lift_result, tenant_of, noted, note_object, collect, get_all_records, indexed,
  lookup_record_id, cached, remember, get_record,
}
use web5_js.Agent.DwnStore.Operations.{
  delete, get, set, write, install_protocol, query_protocol, initialize, get_existing_record_entry,
  index_record,
}
use web5_js.Agent.DwnStore.Spec.{IsDwn, IsIdFor, IsOrderly, IsSound}
use web5_js.Agent.DwnStore.Reading.{Answered, get-Answered}
use web5_js.Agent.DwnStore.Aiming.{checked_new}
use web5_js.Agent.DwnStore.Kept.{get-IsKept, set-IsKept, IsKept}
use web5_js.Agent.DwnStore.Deleted.{IsGone, delete-IsGone}
use web5_js.Agent.DwnStore.Stale.{set-Stale}
use web5_js.Tests.Packed.{pack, unpack_with, unpack-pack}

abbrev Note : Type 0
Note = Text × Text

abbrev Log : Type 0
Log = List (Text × Option Note)

-- The last write to each record
unfoldable records : Log → List (Text × Note)
records [] = []
records ((r, some v) ∷ log) = (r, v) ∷ remove r (records log)
records ((r, none) ∷ log) = remove r (records log)

others-All :
    (P : Text × Note → Type 0) (k : Text) (m : List (Text × Note))
    → All P m
    → All (λ e. P e × ((k === e.0) ≡ false)) (remove k m)
unfolding remove
others-All P k [] h = tt
others-All P k ((j, v) ∷ m) (p, h) = elim (Bool-cases (j === k)) [
  | inl e ↦ rw e (others-All P k m h)
  | inr e ↦ rw e ((p, differs j k e), others-All P k m h)
]
  where
    differs : (j k : Text) → (j === k) ≡ false → (k === j) ≡ false
    differs j k e = ground (arith, ===_iff j k, ===_iff k j)

lookup-records :
    (r j : Text) (v : Note) (log : Log)
    → lookup j (records ((r, some v) ∷ log)) ≡ (if r === j then some v else lookup j (records log))
unfolding records lookup
lookup-records r j v log = elim (Bool-cases (r === j)) [
  | inl e ↦ rw e refl
  | inr e ↦ rw (e, lookup-remove r j (records log), e) refl
]

records-once : (log : Log) → All (λ e. lookup e.0 (records log) ≡ some e.1) (records log)
unfolding records lookup
records-once [] = tt
records-once ((r, none) ∷ log) =
    All-map _ (λ e (h, f). lookup-remove r e.0 (records log) ∙ rw f h) (remove r (records log))
      (others-All (λ e. lookup e.0 (records log) ≡ some e.1) r (records log) (records-once log))
records-once ((r, some v) ∷ log) = (
  rw (===_refl r) refl,
  All-map _ (λ e (h, f). lookup-records r e.0 v log ∙ rw f h) (remove r (records log))
      (others-All (λ e. lookup e.0 (records log) ≡ some e.1) r (records log) (records-once log)),
)

abbrev note_text : Note → Text
note_text (a, b) = pack a b

abbrev pair_note : Text → Text → Option Note
pair_note a b = some (a, b)

abbrev note_or_throw : Option Note → Result DwnStoreError Note
note_or_throw none = err (external (codes "no JSON"))
note_or_throw (some v) = ok v

abbrev read_note : Text → Result DwnStoreError Note
read_note t = note_or_throw (unpack_with pair_note t)

read-note_text : (v : Note) → read_note (note_text v) ≡ ok v
read-note_text (a, b) = ap note_or_throw (unpack-pack pair_note a b)

abbrev log_entry : Text → Option Note → Option ReadEntry
log_entry r none = none
log_entry r (some v) = some (record {
  existing = record { record_id = r; date_created = codes "2024" };
  contents = some (note_text v);
})

abbrev accept : Option Text → Note → Log → Result DwnStoreError (ℕ × Option Text) × Log
accept none v log = (ok (409, none), log)
accept (some r) v log = (ok (202, some r), (r, some v) ∷ log)

abbrev if_free : Text → Option Note → Option Text
if_free r none = some r
if_free r (some _) = none

-- The record to write: the existing one, or a new one, if it is free
abbrev slot : Option Existing → Log → Option Text
slot none log = if_free (length log ∷ []) (lookup (length log ∷ []) (records log))
slot (some e) log = some e.record_id

abbrev log_write :
    Option Existing → Result DwnStoreError Note → Log → Result DwnStoreError (ℕ × Option Text) × Log
log_write e (err x) log = (err x, log)
log_write e (ok v) log = accept (slot e log) v log

abbrev as_entry : Text × Note → QueryEntry
as_entry e = record { record_id = e.0; encoded_data = some (note_text e.1) }

abbrev log_dwn : Dwn Note
log_dwn = record {
  World = Log;
  records_query = λ t log. (ok (some (map as_entry (records log))), log);
  records_read = λ t r log. (ok (log_entry r (lookup r (records log))), log);
  records_write = λ t e text log. log_write e (read_note text) log;
  records_delete = λ t r log. (ok 202, (r, none) ∷ log);
  protocols_query = λ t log. (ok (200, some 0), log);
  protocols_configure = λ t log. (ok 202, log);
  to_text = note_text;
  parse = read_note;
  decode = read_note;
  is_valid = λ v. truthy v.0;
  identifier = λ v. v.0;
  texts = map_cache Text;
  objects = map_cache Note;
  flags = map_cache Bool;
}

accept-ran :
    (o : Option Text) (v : Note) (log : Log) (r : Text)
    → (accept o v log).0 ≡ ok (202, some r)
    → (o ≡ some r) × ((accept o v log).1 ≡ (r, some v) ∷ log)
accept-ran none v log r h = cc
accept-ran (some q) v log r h = (ap some (same q r h), ap (λ x. (x, some v) ∷ log) (same q r h))
  where
    same :
        (q r : Text)
        → ◌≡◌ {A = Result DwnStoreError (ℕ × Option Text)} (ok (202, some q)) (ok (202, some r))
        → q ≡ r
    same q r h = cc

slot-IsIdFor :
    (e : Option Existing) (log : Log) (r : Text) → slot e log ≡ some r → IsIdFor (records log) e r
slot-IsIdFor (some e) log r h = sym (same_text h)
  where
    same_text : {a b : Text} → some a ≡ some b → a ≡ b
    same_text h = cc
slot-IsIdFor none log r h = free (length log ∷ []) r (lookup (length log ∷ []) (records log)) refl h
  where
    free :
        (k r : Text) (o : Option Note)
        → lookup k (records log) ≡ o
        → if_free k o ≡ some r
        → lookup r (records log) ≡ none
    free k r none e h = ap (λ t. lookup t (records log)) (sym (same_key h)) ∙ e
      where
        same_key : {a b : Text} → some a ≡ some b → a ≡ b
        same_key h = cc
    free k r (some _) e h = cc

abbrev did : Text
did = codes "did:dht:a"

log_read :
    (r : Text) (v : Note) (log : Log)
    → lookup r (records log) ≡ some v
    → ◌≡◌ {A = Result DwnStoreError (Option ReadEntry) × Log}
        (ok (log_entry r (lookup r (records log))), log)
        (
          ok (
              some (record {
                existing = record { record_id = r; date_created = codes "2024" };
                contents = some (note_text v);
              })),
          log,
        )
log_read r v log h = rw h refl

log_write-slot :
    (e : Option Existing) (v : Note) (log : Log)
    → log_write e (read_note (note_text v)) log ≡ accept (slot e log) v log
log_write-slot e v log = ap (λ x. log_write e x log) (read-note_text v)

log_write-ran :
    (e : Option Existing) (v : Note) (log : Log) (r : Text)
    → (log_write e (read_note (note_text v)) log).0 ≡ ok (202, some r)
    → (slot e log ≡ some r) × ((log_write e (read_note (note_text v)) log).1 ≡ (r, some v) ∷ log)
log_write-ran e v log r h =
    let (found, written) =
      accept-ran (slot e log) v log r (ap (λ x. x.0) (sym (log_write-slot e v log)) ∙ h) in
    (found, ap (λ x. x.1) (log_write-slot e v log) ∙ written)

lookup-deleted :
    (r j : Text) (log : Log)
    → lookup j (records ((r, none) ∷ log)) ≡ (if r === j then none else lookup j (records log))
unfolding records
lookup-deleted r j log = lookup-remove r j (records log)

log_dwn-IsDwn : IsDwn log_dwn did
unfolding truthy
log_dwn-IsDwn = record {
  stored = records;
  encode = note_text;
  created = λ r log. codes "2024";
  encode_given = λ v. refl;
  decode-encode = read-note_text;
  parse-to_text = read-note_text;
  once = records-once;
  query_lem = λ log. refl;
  read_lem = log_read;
  write_id = λ e v log r h. slot-IsIdFor e log r (log_write-ran e v log r h).0;
  write_lem = λ e v log r j h.
      ap (λ x. lookup j (records x)) (log_write-ran e v log r h).1 ∙ lookup-records r j v log;
  delete_lem = λ r j log h. lookup-deleted r j log;
  protocols_query_lem = λ log. refl;
  protocols_configure_lem = λ log. refl;
}

abbrev of_agent : Tenancy
of_agent = record { tenant = some did; agent_did = none }

agent_tenant : (id : Option Text) → get_data_store_tenant of_agent id ≡ ok did
unfolding get_data_store_tenant truthy
agent_tenant id = refl

abbrev empty_store : DwnStore log_dwn
empty_store = record { index = []; cache = []; protocol_initialized = []; world = [] }

empty-IsOrderly : IsOrderly log_dwn did []
unfolding lookup
empty-IsOrderly = record { valid = λ r v h. cc; unique = λ r q v u h k e. cc }

empty_store-IsSound : IsSound log_dwn did (log_dwn-IsDwn.stored []) empty_store
unfolding lookup records log_dwn-IsDwn
empty_store-IsSound = record {
  points = λ id r h. cc;
  copies = λ r v h. cc;
  orderly = empty-IsOrderly;
}

abbrev note : Note
note = (codes "k", codes "old")

abbrev new_note : Note
new_note = (codes "k", codes "new")

abbrev filled : DwnStore log_dwn
filled = (set log_dwn of_agent note.0 note true false true empty_store).1

fills : set log_dwn of_agent note.0 note true false true empty_store ≡ (ok tt, filled)
unfolding set bind tenant_of lift_result get_data_store_tenant truthy initialize gets lookup
    query_protocol process pure install_protocol modify lookup_record_id indexed get_all_records
    records remove collect get_existing_record_entry index_record write note_object noted remember
    insert store_key tenant_prefix continue throw ◌===◌
fills = refl

get-IsKept_example : (get log_dwn of_agent note.0 true filled).0 ≡ ok (some note)
unfolding truthy
get-IsKept_example =
    get-IsKept log_dwn did log_dwn-IsDwn of_agent of_agent note true false true true empty_store
      filled map_cache-IsRoomy refl (agent_tenant _) (agent_tenant _) checked_new refl
      empty_store-IsSound fills

filled-IsKept : IsKept log_dwn did log_dwn-IsDwn note empty_store filled
unfolding truthy
filled-IsKept =
    set-IsKept log_dwn did log_dwn-IsDwn of_agent note true false true empty_store filled
      map_cache-IsRoomy refl (agent_tenant _) checked_new refl empty_store-IsSound fills

set-IsKept_example : IsKept log_dwn did log_dwn-IsDwn note empty_store filled
unfolding truthy
set-IsKept_example =
    set-IsKept log_dwn did log_dwn-IsDwn of_agent note true false true empty_store filled
      map_cache-IsRoomy refl (agent_tenant _) checked_new refl empty_store-IsSound fills

get-Answered_example :
    Answered log_dwn did log_dwn-IsDwn map_cache-IsRoomy note.0 filled
      (get log_dwn of_agent note.0 false filled)
get-Answered_example =
    get-Answered log_dwn did log_dwn-IsDwn map_cache-IsRoomy of_agent note.0 false filled
      (agent_tenant _) filled-IsKept.sound

abbrev updated_store : DwnStore log_dwn
updated_store = (set log_dwn of_agent new_note.0 new_note true true false filled).1

updates : set log_dwn of_agent new_note.0 new_note true true false filled ≡ (ok tt, updated_store)
unfolding set bind tenant_of lift_result get_data_store_tenant truthy initialize gets lookup
    query_protocol process pure install_protocol modify lookup_record_id indexed get_all_records
    records remove collect get_existing_record_entry index_record write note_object noted remember
    insert store_key tenant_prefix continue throw ◌===◌ cached get_record
updates = refl

filled_index : lookup (store_key did note.0) filled.index ≡ some (0 ∷ [])
unfolding set bind tenant_of lift_result get_data_store_tenant truthy initialize gets lookup
    query_protocol process pure install_protocol modify lookup_record_id indexed get_all_records
    records remove collect get_existing_record_entry index_record write note_object noted remember
    insert store_key tenant_prefix continue throw ◌===◌
filled_index = refl

filled_cache : lookup (0 ∷ []) filled.cache ≡ some note
unfolding set bind tenant_of lift_result get_data_store_tenant truthy initialize gets lookup
    query_protocol process pure install_protocol modify lookup_record_id indexed get_all_records
    records remove collect get_existing_record_entry index_record write note_object noted remember
    insert store_key tenant_prefix continue throw ◌===◌
filled_cache = refl

set-Stale_example : (get log_dwn of_agent new_note.0 true updated_store).0 ≡ ok (some note)
unfolding truthy
set-Stale_example =
    set-Stale log_dwn did log_dwn-IsDwn of_agent of_agent new_note note (0 ∷ []) true filled
      updated_store map_cache-IsRoomy refl (agent_tenant _) (agent_tenant _) filled-IsKept.sound
      filled_index filled_cache updates

abbrev deleted : DwnStore log_dwn
deleted = (delete log_dwn of_agent note.0 filled).1

deletes : delete log_dwn of_agent note.0 filled ≡ (ok true, deleted)
unfolding set bind tenant_of lift_result get_data_store_tenant truthy initialize gets lookup
    query_protocol process pure install_protocol modify lookup_record_id indexed get_all_records
    records remove collect get_existing_record_entry index_record write note_object noted remember
    insert store_key tenant_prefix continue throw ◌===◌ cached get_record delete
deletes = refl

delete-IsGone_example : IsGone log_dwn did log_dwn-IsDwn note.0 filled deleted
delete-IsGone_example =
    delete-IsGone log_dwn did log_dwn-IsDwn of_agent note.0 filled deleted true map_cache-IsRoomy
      (agent_tenant _) filled-IsKept.sound deletes
