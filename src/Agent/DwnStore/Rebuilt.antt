-- ===== src/Agent/DwnStore/Rebuilt.antt =====
-- `getAllRecords` rebuilds the index of `DwnDataStore` (packages/agent/src/store-data.ts,
-- packages/agent/src/store-did.ts).
use web5_js.Base.{
  Text, none, some, List, [], ◌∷◌, ◌++◌, map, true, false, ◌===◌, ===_iff, ===_refl, lookup, drop,
  ◌⊎◌, All, All-map, ok, ◌≡◌, ◌≢◌, refl, sym, ap, ◌∙◌, Bool-cases, inl, inr,
}
use web5_js.Base.Exec.{pure, modify, bind, continue}
use web5_js.Base.TtlCache.{TtlCache, IsRoomy}
use web5_js.Agent.Store.{store_key, tenant_prefix}
use web5_js.Agent.DwnStore.Types.{QueryEntry, Dwn, DwnStore}
use web5_js.Agent.DwnStore.{
  process, lift_result, noted, note_object, collect, clear_index, get_all_records,
}
use web5_js.Agent.DwnStore.Spec.{IsDwn, Points, Copies, IsOrderly, IsSound}

append-cancel : (t a b : Text) → t ++ a ≡ t ++ b → a ≡ b
append-cancel [] a b h = h
append-cancel (c ∷ t) a b h = append-cancel t a b (ap (drop 1) h)

pub same_id : (tenant a b : Text) → (store_key tenant a === store_key tenant b) ≡ true → a ≡ b
unfolding store_key
same_id tenant a b h = append-cancel (tenant_prefix tenant) a b ((===_iff _ _).0 h)

pub some_injective : {A : Type 0} {a b : A} → some a ≡ some b → a ≡ b
some_injective h = cc

-- An entry that was found after one was set
pub got_set :
    {V : Type 0} (c : TtlCache V) (k j : Text) (v w : V) (s : c.Store)
    → c.get j (c.set k v s) ≡ some w
    → (((k === j) ≡ true) × (v ≡ w)) ⊎ (((k === j) ≡ false) × (c.get j s ≡ some w))
got_set c k j v w s h = elim (Bool-cases (k === j)) [
  | inl e ↦ inl (e, some_injective (rw e at (c.get-set k j v w s h)))
  | inr e ↦ inr (e, rw e at (c.get-set k j v w s h))
]

pub some_is_none : {A : Type 0} {a : A} → some a ≡ none → ⊥
some_is_none h = cc

false_is_true : false ≡ true → ⊥
false_is_true h = cc

module _ {V : Type 0} (dwn : Dwn V) (tenant : Text) where
  -- The store after the loop over some records with valid objects
  abbrev noted_all : List (Text × V) → DwnStore dwn → DwnStore dwn
  noted_all [] s = s
  noted_all ((r, v) ∷ l) s = noted_all l (noted dwn tenant r v s)

  noted_all-world : (l : List (Text × V)) (s : DwnStore dwn) → (noted_all l s).world ≡ s.world
  unfolding noted
  noted_all-world [] s = refl
  noted_all-world ((r, v) ∷ l) s = noted_all-world l (noted dwn tenant r v s)

  module _ (m : List (Text × V)) where
    abbrev Stored : Text × V → Type 0
    Stored e = lookup e.0 m ≡ some e.1

    noted-Points :
        (r : Text) (v : V) (s : DwnStore dwn)
        → lookup r m ≡ some v
        → Points dwn tenant m s.index
        → Points dwn tenant m (noted dwn tenant r v s).index
    unfolding noted
    noted-Points r v s here p id q h =
        elim (got_set dwn.texts (store_key tenant (dwn.identifier v)) (store_key tenant id) r q
          s.index h) [
            | inl (e, f) ↦ (v, ap (λ t. lookup t m) (sym f) ∙ here, same_id tenant _ id e)
            | inr (_, g) ↦ p id q g
          ]

    noted-Copies :
        (r : Text) (v : V) (s : DwnStore dwn)
        → lookup r m ≡ some v
        → Copies dwn tenant m s.cache
        → Copies dwn tenant m (noted dwn tenant r v s).cache
    unfolding noted
    noted-Copies r v s here c q u h = elim (got_set dwn.objects r q v u s.cache h) [
      | inl (e, f) ↦ ap (λ t. lookup t m) (sym ((===_iff r q).0 e)) ∙ here ∙ ap some f
      | inr (_, g) ↦ c q u g
    ]

    noted_all-Points :
        (l : List (Text × V)) (s : DwnStore dwn)
        → All Stored l
        → Points dwn tenant m s.index
        → Points dwn tenant m (noted_all l s).index
    noted_all-Points [] s a p = p
    noted_all-Points ((r, v) ∷ l) s (h, a) p =
        noted_all-Points l (noted dwn tenant r v s) a (noted-Points r v s h p)

    noted_all-Copies :
        (l : List (Text × V)) (s : DwnStore dwn)
        → All Stored l
        → Copies dwn tenant m s.cache
        → Copies dwn tenant m (noted_all l s).cache
    noted_all-Copies [] s a c = c
    noted_all-Copies ((r, v) ∷ l) s (h, a) c =
        noted_all-Copies l (noted dwn tenant r v s) a (noted-Copies r v s h c)

  -- The index has nothing for an identifier: it had nothing before the loop, and the loop met none.
  noted_all-none :
      (l : List (Text × V)) (s : DwnStore dwn) (id : Text)
      → IsRoomy dwn.texts
      → dwn.texts.get (store_key tenant id) (noted_all l s).index ≡ none
      → (dwn.texts.get (store_key tenant id) s.index ≡ none)
        × ((r : Text) (v : V) → lookup r l ≡ some v → dwn.identifier v ≢ id)
  unfolding noted lookup
  noted_all-none [] s id room h = (h, λ r v e. cc)
  noted_all-none ((q, u) ∷ l) s id room h =
      let (before, rest) = noted_all-none l (noted dwn tenant q u s) id room h in
      let unset =
        sym (room.get_set (store_key tenant (dwn.identifier u)) (store_key tenant id) q s.index)
        ∙ before in
      elim (Bool-cases (store_key tenant (dwn.identifier u) === store_key tenant id)) [
        | inl e ↦ elim (some_is_none (rw e at unset)) [ ]
        | inr e ↦ (
          rw e at unset,
          λ r v at_r same. elim (Bool-cases (q === r)) [
            | inl f ↦ false_is_true (
                sym e
                ∙ ap (λ i. store_key tenant i === store_key tenant id)
                    (ap dwn.identifier (some_injective (rw f at at_r)) ∙ same)
                ∙ ===_refl (store_key tenant id))
            | inr f ↦ rest r v (rw f at at_r) same
          ],
        )
      ]

  note_object-valid :
      (r : Text) (v : V) (s : DwnStore dwn)
      → dwn.is_valid v ≡ true
      → note_object dwn tenant r v s ≡ (ok tt, noted dwn tenant r v s)
  unfolding note_object modify
  note_object-valid r v s h = rw h refl

  module _ (d : IsDwn dwn tenant) where
    abbrev entry_of : Text × V → QueryEntry
    entry_of e = record { record_id = e.0; encoded_data = some (d.encode e.1) }

    collect-valid :
        (l : List (Text × V)) (s : DwnStore dwn)
        → All (λ e. dwn.is_valid e.1 ≡ true) l
        → collect dwn tenant (map entry_of l) s ≡ (ok (map (λ e. e.1) l), noted_all l s)
    unfolding collect pure lift_result bind continue
    collect-valid [] s a = refl
    collect-valid ((r, v) ∷ l) s (h, a) =
        rw
          (
            d.encode_given v,
            d.decode-encode v,
            note_object-valid r v s h,
            collect-valid l (noted dwn tenant r v s) a,
            h,
          )
          refl

    abbrev emptied : DwnStore dwn → DwnStore dwn
    emptied s = clear_index dwn s

    get_all_records_lem :
        (s : DwnStore dwn)
        → All (λ e. dwn.is_valid e.1 ≡ true) (d.stored s.world)
        → get_all_records dwn tenant s
          ≡ (ok (map (λ e. e.1) (d.stored s.world)), noted_all (d.stored s.world) (emptied s))
    unfolding get_all_records modify bind continue process
    get_all_records_lem s a =
        rw (d.query_lem s.world) (collect-valid (d.stored s.world) (emptied s) a)

    every_valid :
        (m l : List (Text × V))
        → IsOrderly dwn tenant m
        → All (Stored m) l
        → All (λ e. dwn.is_valid e.1 ≡ true) l
    every_valid m l o = All-map (Stored m) (λ e h. o.valid e.0 e.1 h) l

    cleared-Points :
        (m : List (Text × V)) (s : DwnStore dwn) → Points dwn tenant m (emptied s).index
    cleared-Points m s id r e =
        elim (some_is_none (sym e ∙ dwn.texts.get-clear (store_key tenant id) s.index)) [ ]

    -- In a sound state `getAllRecords` returns the stored objects, and leaves a sound state, whose index has
    -- every identifier.
    pub get_all_records-IsSound :
        (s : DwnStore dwn)
        → IsSound dwn tenant (d.stored s.world) s
        → (s' : DwnStore dwn) × (get_all_records dwn tenant s
            ≡ (ok (map (λ e. e.1) (d.stored s.world)), s'))
          × IsSound dwn tenant (d.stored s.world) s'
          × (s'.world ≡ s.world)
          × ((id : Text)
              → IsRoomy dwn.texts
              → dwn.texts.get (store_key tenant id) s'.index ≡ none
              → (r : Text) (v : V) → lookup r (d.stored s.world) ≡ some v
              → dwn.identifier v ≢ id)
    get_all_records-IsSound s h =
        let m = d.stored s.world in
        (
          noted_all m (emptied s),
          get_all_records_lem s (every_valid m m h.orderly (d.once s.world)),
          record {
            points = noted_all-Points m m (emptied s) (d.once s.world) (cleared-Points m s);
            copies = noted_all-Copies m m (emptied s) (d.once s.world) h.copies;
            orderly = h.orderly;
          },
          noted_all-world m (emptied s),
          λ id room e. (noted_all-none m (emptied s) id room e).1,
        )
