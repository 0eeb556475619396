-- ===== src/Agent/DwnStore/Stale.antt =====
-- An update that `set` of `DwnDataStore` (packages/agent/src/store-data.ts) makes without the cache.
use web5_js.Base.{
  Text, Option, none, some, Bool, true, false, if◌then◌else◌, truthy, ===_refl, lookup, Result, ok,
  ◌≡◌, refl, sym, ap, subst, ◌∙◌,
}
use web5_js.Base.Exec.{pure, throw, gets, bind, continue}
use web5_js.Base.TtlCache.{IsRoomy}
use web5_js.Agent.Store.{Tenancy, get_data_store_tenant, store_key}
use web5_js.Agent.DwnStore.Types.{DwnStoreError, Existing, ReadEntry, Dwn, DwnStore}
use web5_js.Agent.DwnStore.{
  process, lift_result, tenant_of, lookup_record_id, indexed, get_record, cached,
}
use web5_js.Agent.DwnStore.Operations.{get, set, replaced, updated, get_existing_record_entry}
use web5_js.Agent.DwnStore.Spec.{IsDwn, IsIdFor, IsSound}
use web5_js.Agent.DwnStore.Aiming.{initialize-Alike}
use web5_js.Agent.DwnStore.Writing.{write-ran, set-ran}
use web5_js.Agent.DwnStore.Kept.{own_tenant}

module _ {V : Type 0} (dwn : Dwn V) (tenant : Text) (d : IsDwn dwn tenant) where
  updated-state :
      (id : Text) (o : Option ReadEntry) (e : Option Existing) (t u : DwnStore dwn)
      → updated dwn id o t ≡ (ok e, u)
      → t ≡ u
  unfolding pure throw
  updated-state id none e t u h = cc
  updated-state id (some x) e t u h = ap (λ y. y.1) h

  -- The record that an update replaces is the one of the index, and its object stays in the cache.
  replaced-indexed :
      (id r : Text) (v : V) (p : Bool) (e : Option Existing) (s u : DwnStore dwn)
      → dwn.texts.get (store_key tenant id) s.index ≡ some r
      → lookup r (d.stored s.world) ≡ some v
      → replaced dwn true p id tenant s ≡ (ok e, u)
      → (e ≡ some (record { record_id = r; date_created = d.created r s.world })) × (u ≡ s)
  unfolding get_existing_record_entry lookup_record_id indexed bind continue gets pure process
  replaced-indexed id r v p e s u at_key at_r h =
      let ran = rw (at_key, d.read_lem r v s.world at_r) at h in
      (sym (some_ok (ap (λ x. x.0) ran)), sym (ap (λ x. x.1) ran))
    where
      some_ok : {A : Type 0} {a b : A} → ◌≡◌ {A = Result DwnStoreError A} (ok a) (ok b) → a ≡ b
      some_ok f = cc

  found_in_cache :
      (u : Tenancy) (id r : Text) (old : V) (s : DwnStore dwn)
      → get_data_store_tenant u (some id) ≡ ok tenant
      → dwn.texts.get (store_key tenant id) s.index ≡ some r
      → dwn.objects.get r s.cache ≡ some old
      → (get dwn u id true s).0 ≡ ok (some old)
  unfolding get tenant_of lift_result lookup_record_id indexed get_record cached bind continue gets
      pure
  found_in_cache u id r old s named at_key in_cache = rw (named, at_key, in_cache) refl

  -- An update without the cache, of an object that the cache has: a `get` that goes through the cache still
  -- returns the object of before.
  pub set-Stale :
      (t u : Tenancy) (v old : V) (r : Text) (prevent_duplicates : Bool) (s s' : DwnStore dwn)
      → IsRoomy dwn.texts
      → truthy tenant ≡ true
      → get_data_store_tenant t (some (dwn.identifier v)) ≡ ok tenant
      → get_data_store_tenant u (some (dwn.identifier v)) ≡ ok tenant
      → IsSound dwn tenant (d.stored s.world) s
      → dwn.texts.get (store_key tenant (dwn.identifier v)) s.index ≡ some r
      → dwn.objects.get r s.cache ≡ some old
      → set dwn t (dwn.identifier v) v prevent_duplicates true false s ≡ (ok tt, s')
      → (get dwn u (dwn.identifier v) true s').0 ≡ ok (some old)
  set-Stale t u v old r p s s' room given named named' h at_key in_cache ran =
      let id = dwn.identifier v in
      let (e, s₁, s₂, started, aimed, finished) =
        set-ran dwn tenant d t v p true false s s' named ran in
      let (same_index, same_cache, same_stored) =
        subst
          (λ x. (x.index ≡ s.index) × (x.cache ≡ s.cache) × (d.stored x.world ≡ d.stored s.world))
          (sym started)
          (initialize-Alike dwn tenant d (record t { tenant = some tenant }) s
            (own_tenant dwn tenant d t given)) in
      let key₁ = ap (dwn.texts.get (store_key tenant id)) same_index ∙ at_key in
      let (is_old, stays) =
        replaced-indexed id r old p e s₁ s₂ key₁
          (ap (lookup r) same_stored ∙ h.copies r old in_cache) aimed in
      let (q, accepted, is_end) = write-ran dwn tenant d v e false s₂ s' finished in
      let q_is_r =
        subst (λ x. IsIdFor (d.stored s₂.world) x q) is_old (d.write_id e v s₂.world q accepted) in
      subst (λ x. (get dwn u id true x).0 ≡ ok (some old)) (sym is_end)
        (found_in_cache u id r old _ named'
          (room.get_set (store_key tenant id) (store_key tenant id) q s₂.index
            ∙ ap (λ b. if b then some q else dwn.texts.get (store_key tenant id) s₂.index)
                (===_refl (store_key tenant id))
            ∙ ap some q_is_r)
          (ap (λ x. dwn.objects.get r x.cache) stays
            ∙ ap (dwn.objects.get r) same_cache
            ∙ in_cache))
