-- ===== src/Agent/DwnStore/Reading.antt =====
-- `get` of `DwnDataStore` (packages/agent/src/store-data.ts) against the objects that the DWN holds.
use web5_js.Base.{
  Text, Option, none, some, List, map, Bool, true, false, ===_iff, lookup, Result, ok, ◌≡◌, ◌≢◌,
  refl, sym, ap, subst, ◌∙◌, Option-cases, inl, inr,
}
use web5_js.Base.Exec.{pure, gets, modify, bind, continue}
use web5_js.Base.TtlCache.{IsRoomy}
use web5_js.Agent.Store.{Tenancy, get_data_store_tenant, store_key}
use web5_js.Agent.DwnStore.Types.{DwnStoreError, Dwn, DwnStore}
use web5_js.Agent.DwnStore.{
  process, lift_result, tenant_of, indexed, lookup_record_id, cached, remember, get_record,
}
use web5_js.Agent.DwnStore.Operations.{get, list, found_object}
use web5_js.Agent.DwnStore.Spec.{IsDwn, IsSound, IsPlace, here, nowhere, IsObject, kept, absent}
use web5_js.Agent.DwnStore.Rebuilt.{got_set, get_all_records-IsSound}

module _ {V : Type 0} (dwn : Dwn V) (tenant : Text) where
  -- A call returned, in a sound state with the DWN as it was.
  pub record Ran {A : Type 0} (m : List (Text × V)) (s : DwnStore dwn)
      (r : Result DwnStoreError A × DwnStore dwn) (a : A) : Type 0 where
    pub after : DwnStore dwn
    pub result : r ≡ (ok a, after)
    pub sound : IsSound dwn tenant m after
    pub same : after.world ≡ s.world

  indexed-IsPlace :
      (m : List (Text × V)) (id : Text) (s : DwnStore dwn)
      → IsSound dwn tenant m s
      → (dwn.texts.get (store_key tenant id) s.index ≡ none
          → (r : Text) (v : V) → lookup r m ≡ some v
          → dwn.identifier v ≢ id)
      → IsPlace dwn tenant m id (dwn.texts.get (store_key tenant id) s.index)
  indexed-IsPlace m id s h missing =
      elim (Option-cases (dwn.texts.get (store_key tenant id) s.index)) [
        | inl e ↦ subst (IsPlace dwn tenant m id) (sym e) (nowhere (missing e))
        | inr (r, e) ↦
            let (v, at_r, same) = h.points id r e in
            subst (IsPlace dwn tenant m id) (sym e) (here at_r same)
      ]

  module _ (d : IsDwn dwn tenant) (room : IsRoomy dwn.texts) where
    -- `lookupRecordId` finds the record of the object with the identifier, if there is one.
    pub lookup_record_id-IsPlace :
        (id : Text) (s : DwnStore dwn)
        → IsSound dwn tenant (d.stored s.world) s
        → (o : Option Text) × IsPlace dwn tenant (d.stored s.world) id o
          × Ran (d.stored s.world) s (lookup_record_id dwn id tenant s) o
    unfolding lookup_record_id indexed bind gets continue pure
    lookup_record_id-IsPlace id s h =
        elim (Option-cases (dwn.texts.get (store_key tenant id) s.index)) [
          | inr (r, e) ↦
              let (v, at_r, same) = h.points id r e in
              (
                some r,
                here at_r same,
                record { after = s; result = rw e refl; sound = h; same = refl },
              )
          | inl e ↦
              let (s', rebuilt, sound, same, every) = get_all_records-IsSound dwn tenant d s h in
              (
                dwn.texts.get (store_key tenant id) s'.index,
                indexed-IsPlace (d.stored s.world) id s' sound (every id room),
                record { after = s'; result = rw (e, rebuilt) refl; sound = sound; same = same },
              )
        ]

    remember-Ran :
        (use_cache : Bool) (r : Text) (v : V) (m : List (Text × V)) (s : DwnStore dwn)
        → lookup r m ≡ some v
        → IsSound dwn tenant m s
        → Ran m s (remember dwn use_cache r v s) tt
    unfolding remember modify pure
    remember-Ran false r v m s at_r h = record { after = s; result = refl; sound = h; same = refl }
    remember-Ran true r v m s at_r h = record {
      after = record s { cache = dwn.objects.set r v s.cache };
      result = refl;
      sound = record {
        points = h.points;
        copies = λ q u e. elim (got_set dwn.objects r q v u s.cache e) [
          | inl (f, g) ↦ ap (λ t. lookup t m) (sym ((===_iff r q).0 f)) ∙ at_r ∙ ap some g
          | inr (_, g) ↦ h.copies q u g
        ];
        orderly = h.orderly;
      };
      same = refl;
    }

    cached_object :
        (use_cache : Bool) (r : Text) (v u : V) (m : List (Text × V)) (s : DwnStore dwn)
        → lookup r m ≡ some v
        → IsSound dwn tenant m s
        → cached dwn use_cache r s ≡ some u
        → u ≡ v
    unfolding cached
    cached_object false r v u m s at_r h e = cc
    cached_object true r v u m s at_r h e = same_object (sym (h.copies r u e) ∙ at_r)
      where
        same_object : {A : Type 0} {a b : A} → some a ≡ some b → a ≡ b
        same_object f = cc

    -- `getRecord` returns what is stored under the record ID, with the cache and without.
    pub get_record-Ran :
        (r : Text) (v : V) (use_cache : Bool) (s : DwnStore dwn)
        → lookup r (d.stored s.world) ≡ some v
        → IsSound dwn tenant (d.stored s.world) s
        → Ran (d.stored s.world) s (get_record dwn tenant r use_cache s) v
    unfolding get_record bind gets continue pure process lift_result
    get_record-Ran r v use_cache s at_r h = elim (Option-cases (cached dwn use_cache r s)) [
      | inr (u, e) ↦ record {
        after = s;
        result = rw e (ap (λ x. (ok x, s)) (cached_object use_cache r v u _ s at_r h e));
        sound = h;
        same = refl;
      }
      | inl e ↦
          let kept_it = remember-Ran use_cache r v (d.stored s.world) s at_r h in
          record {
            after = kept_it.after;
            result = rw (e, d.read_lem r v s.world at_r, d.parse-to_text v, kept_it.result) refl;
            sound = kept_it.sound;
            same = kept_it.same;
          }
    ]

    abbrev pub Answered :
        Text → DwnStore dwn → Result DwnStoreError (Option V) × DwnStore dwn → Type 0
    Answered id s r =
        (o : Option V) × IsObject dwn tenant (d.stored s.world) id o × Ran (d.stored s.world) s r o

    -- The rest of `get`, from the place that was found
    found_object-Answered :
        (id : Text) (use_cache : Bool) (o : Option Text) (s s' : DwnStore dwn)
        → IsPlace dwn tenant (d.stored s.world) id o
        → IsSound dwn tenant (d.stored s.world) s'
        → s'.world ≡ s.world
        → Answered id s (found_object dwn tenant use_cache o s')
    unfolding bind continue pure
    found_object-Answered id use_cache _ s s' (nowhere none_there) h same =
        (none, absent none_there, record { after = s'; result = refl; sound = h; same = same })
    found_object-Answered id use_cache _ s s' (here {r} {v} at_r is_id) h same =
        let at' = ap (λ w. lookup r (d.stored w)) same ∙ at_r in
        let got =
          get_record-Ran r v use_cache s' at'
            (subst (λ w. IsSound dwn tenant (d.stored w) s') (sym same) h) in
        (
          some v,
          kept r at_r is_id,
          record {
            after = got.after;
            result = rw got.result refl;
            sound = subst (λ w. IsSound dwn tenant (d.stored w) got.after) same got.sound;
            same = got.same ∙ same;
          },
        )

    -- In a sound state `get` returns the object of the tenant with the identifier, or nothing if there is
    -- none, with the cache and without; it leaves a sound state, and the DWN as it was.
    pub get-Answered :
        (t : Tenancy) (id : Text) (use_cache : Bool) (s : DwnStore dwn)
        → get_data_store_tenant t (some id) ≡ ok tenant
        → IsSound dwn tenant (d.stored s.world) s
        → Answered id s (get dwn t id use_cache s)
    unfolding get tenant_of lift_result bind continue
    get-Answered t id use_cache s e h =
        let (o, place, found) = lookup_record_id-IsPlace id s h in
        subst (Answered id s) (sym (rw (e, found.result) refl))
          (found_object-Answered id use_cache o s found.after place found.sound found.same)

    -- In a sound state `list` returns the objects that the DWN holds for the tenant.
    pub list-Ran :
        (t : Tenancy) (s : DwnStore dwn)
        → get_data_store_tenant t none ≡ ok tenant
        → IsSound dwn tenant (d.stored s.world) s
        → Ran (d.stored s.world) s (list dwn t s) (map (λ e. e.1) (d.stored s.world))
    unfolding list tenant_of lift_result bind continue
    list-Ran t s e h =
        let (s', rebuilt, sound, same, _) = get_all_records-IsSound dwn tenant d s h in
        record { after = s'; result = rw e rebuilt; sound = sound; same = same }
