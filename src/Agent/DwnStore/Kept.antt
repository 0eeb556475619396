-- ===== src/Agent/DwnStore/Kept.antt =====
-- What `set` of `DwnDataStore` (packages/agent/src/store-data.ts) stores, and a `get` after it.
use web5_js.Base.{
  Text, Option, none, some, List, Bool, true, false, truthy, ◌===◌, lookup, ok, ◌≡◌, refl, sym, ap,
  subst, ◌∙◌, ◌⊎◌, inl, inr,
}
use web5_js.Base.TtlCache.{IsRoomy}
use web5_js.Agent.Store.{Tenancy, get_data_store_tenant}
use web5_js.Agent.DwnStore.Types.{Existing, Dwn, DwnStore}
use web5_js.Agent.DwnStore.Operations.{get, set, write}
use web5_js.Agent.DwnStore.Spec.{IsDwn, IsIdFor, IsSound, IsObject, kept, absent}
use web5_js.Agent.DwnStore.Rebuilt.{some_injective}
use web5_js.Agent.DwnStore.Reading.{get-Answered}
use web5_js.Agent.DwnStore.Updated.{IsUpdate, at_spot, beside}
use web5_js.Agent.DwnStore.Aiming.{
  IsCareful, Alike, IsTarget, initialize-Alike, replaced-Aimed, replaced-none, spot_of,
}
use web5_js.Agent.DwnStore.Writing.{stored_as-IsSound, write-ran, set-ran}

module _ {V : Type 0} (dwn : Dwn V) (tenant : Text) (d : IsDwn dwn tenant) where
  -- The object is in the DWN at some record, the other records are as they were, and the state is sound.
  pub record IsKept (v : V) (s s' : DwnStore dwn) : Type 0 where
    pub place : Text
    pub stored : lookup place (d.stored s'.world) ≡ some v
    pub others :
        (j : Text)
        → (place === j) ≡ false
        → lookup j (d.stored s'.world) ≡ lookup j (d.stored s.world)
    pub sound : IsSound dwn tenant (d.stored s'.world) s'

  pub Alike-IsSound :
      (s u : DwnStore dwn)
      → Alike dwn tenant d s u
      → IsSound dwn tenant (d.stored s.world) s
      → IsSound dwn tenant (d.stored u.world) u
  Alike-IsSound s u (i, c, w) h =
      subst (λ m. IsSound dwn tenant m u) (sym w)
        (record {
          points = λ id q e. h.points id q (ap (dwn.texts.get _) (sym i) ∙ e);
          copies = λ q v e. h.copies q v (ap (dwn.objects.get q) (sym c) ∙ e);
          orderly = h.orderly;
        })

  id_there :
      (m : List (Text × V)) (e : Option Existing) (r : Text) (c : Bool)
      → (c ≡ true) ⊎ (e ≡ none)
      → IsIdFor m e r
      → (c ≡ true) ⊎ (lookup r m ≡ none)
  id_there m e r c (inl h) i = inl h
  id_there m none r c (inr h) i = inr i
  id_there m (some _) r c (inr h) i = cc

  write-IsKept :
      (v : V) (e : Option Existing) (c : Bool) (s s' : DwnStore dwn)
      → dwn.is_valid v ≡ true
      → (c ≡ true) ⊎ (e ≡ none)
      → IsTarget dwn tenant d (d.stored s.world) (dwn.identifier v) e
      → IsSound dwn tenant (d.stored s.world) s
      → write dwn tenant (dwn.identifier v) v e c s ≡ (ok tt, s')
      → IsKept v s s'
  write-IsKept v e c s s' valid how target h ran =
      let (r, accepted, is_end) = write-ran dwn tenant d v e c s s' ran in
      let w = (dwn.records_write tenant e (dwn.to_text v) s.world).1 in
      let i = d.write_id e v s.world r accepted in
      let up = updating v e s r valid target accepted in
      subst (IsKept v s) (sym is_end) (record {
        place = r;
        stored = at_spot dwn tenant (d.stored s.world) (d.stored w) r v up;
        others = beside dwn tenant (d.stored s.world) (d.stored w) r v up;
        sound =
            stored_as-IsSound dwn tenant d r v c (d.stored s.world) (d.stored w) w s up
              (id_there (d.stored s.world) e r c how i) h;
      })
    where
      updating :
          (v : V) (e : Option Existing) (s : DwnStore dwn) (r : Text)
          → dwn.is_valid v ≡ true
          → IsTarget dwn tenant d (d.stored s.world) (dwn.identifier v) e
          → (dwn.records_write tenant e (dwn.to_text v) s.world).0 ≡ ok (202, some r)
          → IsUpdate dwn tenant
              (d.stored s.world)
              (d.stored (dwn.records_write tenant e (dwn.to_text v) s.world).1)
              r
              v
      updating v e s r valid target accepted = record {
        after = λ j. d.write_lem e v s.world r j accepted;
        valid = valid;
        spot =
            spot_of dwn tenant d (d.stored s.world) (dwn.identifier v) r e target
              (d.write_id e v s.world r accepted);
      }

  pub own_tenant :
      (t : Tenancy)
      → truthy tenant ≡ true
      → get_data_store_tenant (record t { tenant = some tenant }) none ≡ ok tenant
  unfolding get_data_store_tenant
  own_tenant t h = rw h refl

  -- After `set` returned, the DWN holds the object, the other records are as they were, and index and cache
  -- agree with it again. This is so if they agreed with it before, the cache holds what it is given, the
  -- tenant was found, the object is valid, and `set` was called with the check for duplicates and not
  -- as an update, or as an update that goes through the cache.
  pub set-IsKept :
      (t : Tenancy) (v : V) (prevent_duplicates update_existing use_cache : Bool)
      (s s' : DwnStore dwn)
      → IsRoomy dwn.texts
      → truthy tenant ≡ true
      → get_data_store_tenant t (some (dwn.identifier v)) ≡ ok tenant
      → IsCareful prevent_duplicates update_existing use_cache
      → dwn.is_valid v ≡ true
      → IsSound dwn tenant (d.stored s.world) s
      → set dwn t (dwn.identifier v) v prevent_duplicates update_existing use_cache s ≡ (ok tt, s')
      → IsKept v s s'
  set-IsKept t v p upd c s s' room given named careful valid h ran =
      let id = dwn.identifier v in
      let (e, s₁, s₂, started, aimed, finished) = set-ran dwn tenant d t v p upd c s s' named ran in
      let alike = subst (Alike dwn tenant d s) (sym started) (
        initialize-Alike dwn tenant d (record t { tenant = some tenant }) s (own_tenant t given)) in
      let (target, sound, same) =
        replaced-Aimed dwn tenant d room id p upd c e s₁ s₂ careful (Alike-IsSound s s₁ alike h)
          aimed in
      let back = ap d.stored (sym same) in
      let kept_it =
        write-IsKept v e c s₂ s' valid (replaced-none dwn tenant d id p upd c e s₁ s₂ careful aimed)
          (subst (λ m. IsTarget dwn tenant d m id e) back target)
          (subst (λ m. IsSound dwn tenant m s₂) back sound) finished in
      record {
        place = kept_it.place;
        stored = kept_it.stored;
        others = λ j f. kept_it.others j f ∙ ap (lookup j) (sym back) ∙ ap (lookup j) alike.2;
        sound = kept_it.sound;
      }

  only_object :
      (v : V) (s s' : DwnStore dwn) (o : Option V)
      → IsKept v s s'
      → IsObject dwn tenant (d.stored s'.world) (dwn.identifier v) o
      → o ≡ some v
  only_object v s s' _ k (kept {v = u} r at_r same) =
      let one = k.sound.orderly.unique r k.place u v at_r k.stored same in
      ap some (some_injective (sym at_r ∙ ap (λ q. lookup q (d.stored s'.world)) one ∙ k.stored))
  only_object v s s' _ k (absent none_there) = elim (none_there k.place v k.stored refl) [ ]

  -- A `get` after `set` returns the object, with the cache and without.
  pub get-IsKept :
      (t u : Tenancy) (v : V) (prevent_duplicates update_existing use_cache from_cache : Bool)
      (s s' : DwnStore dwn)
      → IsRoomy dwn.texts
      → truthy tenant ≡ true
      → get_data_store_tenant t (some (dwn.identifier v)) ≡ ok tenant
      → get_data_store_tenant u (some (dwn.identifier v)) ≡ ok tenant
      → IsCareful prevent_duplicates update_existing use_cache
      → dwn.is_valid v ≡ true
      → IsSound dwn tenant (d.stored s.world) s
      → set dwn t (dwn.identifier v) v prevent_duplicates update_existing use_cache s ≡ (ok tt, s')
      → (get dwn u (dwn.identifier v) from_cache s').0 ≡ ok (some v)
  get-IsKept t u v p upd c f s s' room given named named' careful valid h ran =
      let k = set-IsKept t v p upd c s s' room given named careful valid h ran in
      let (o, is_object, got) =
        get-Answered dwn tenant d room u (dwn.identifier v) f s' named' k.sound in
      ap (λ x. x.0) got.result ∙ ap ok (only_object v s s' o k is_object)
