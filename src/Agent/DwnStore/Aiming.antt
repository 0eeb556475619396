-- ===== src/Agent/DwnStore/Aiming.antt =====
-- The record that `set` of `DwnDataStore` (packages/agent/src/store-data.ts) chooses to write.
use web5_js.Base.{
  Text, Option, none, some, List, Bool, true, false, ◌==◌, lookup, Result, ok, ◌≡◌, ◌≢◌, refl, sym,
  ap, subst, ◌∙◌, ◌⊎◌, inl, inr,
}
use web5_js.Base.Exec.{
  pure, throw, gets, bind, continue, bind-ran, Keeps, Keeps-bind, Keeps-pure, Keeps-throw, Keeps-if,
  Keeps-modify,
}
use web5_js.Base.TtlCache.{IsRoomy}
use web5_js.Agent.Store.{Tenancy, get_data_store_tenant}
use web5_js.Agent.DwnStore.Types.{Existing, Dwn, DwnStore}
use web5_js.Agent.DwnStore.{process, lift_result, tenant_of, lookup_record_id}
use web5_js.Agent.DwnStore.Operations.{
  replaced, initialize, initialize_if, query_protocol, install_protocol, is_zero,
  get_existing_record_entry, read_existing, updated, not_duplicate,
}
use web5_js.Agent.DwnStore.Spec.{IsDwn, IsIdFor, IsSound, IsPlace, here, nowhere}
use web5_js.Agent.DwnStore.Reading.{lookup_record_id-IsPlace}
use web5_js.Agent.DwnStore.Updated.{IsSpot, fresh, over}

-- How `set` may be called: with the check for duplicates, or as an update that goes through the cache.
-- The flags are those of `set`, in its order.
pub data IsCareful : Bool → Bool → Bool → Type 0 where
  checked_new : {use_cache : Bool} → IsCareful true false use_cache
  cached_update : {prevent_duplicates : Bool} → IsCareful prevent_duplicates true true

pub ok_pair :
    {A E S : Type 0} {a b : A} {x y : S}
    → ◌≡◌ {A = Result E A × S} (ok a, x) (ok b, y)
    → ◌≡◌ {A = A × S} (a, x) (b, y)
ok_pair h = cc

module _ {V : Type 0} (dwn : Dwn V) (tenant : Text) (d : IsDwn dwn tenant) where
  -- The index and the cache, and what the DWN holds, are as in another state.
  abbrev pub Alike : DwnStore dwn → DwnStore dwn → Type 0
  Alike s u = (u.index ≡ s.index) × (u.cache ≡ s.cache) × (d.stored u.world ≡ d.stored s.world)

  install_protocol-Alike : (s : DwnStore dwn) → Keeps (Alike s) (install_protocol dwn tenant)
  unfolding install_protocol process
  install_protocol-Alike s =
      Keeps-bind _ _ record { holds = λ u (i, c, w). (i, c, d.protocols_configure_lem u.world ∙ w) }
        λ code. Keeps-if (code == 202) _ _ (Keeps-pure tt) (Keeps-throw _)

  query_protocol-Alike : (s : DwnStore dwn) → Keeps (Alike s) (query_protocol dwn tenant)
  unfolding query_protocol process
  query_protocol-Alike s =
      Keeps-bind _ _ record { holds = λ u (i, c, w). (i, c, d.protocols_query_lem u.world ∙ w) }
        λ (code, entries).
          Keeps-bind _ _ (Keeps-if (code == 200) _ _ (Keeps-pure tt) (Keeps-throw _)) λ _.
            Keeps-bind _ _
              (Keeps-if (is_zero entries) _ _ (install_protocol-Alike s) (Keeps-pure tt))
              λ _. Keeps-modify _ λ u h. h

  initialize_if-Alike :
      (s : DwnStore dwn) (known : Bool) → Keeps (Alike s) (initialize_if dwn tenant known)
  initialize_if-Alike s true = Keeps-pure tt
  initialize_if-Alike s false = query_protocol-Alike s

  pub initialize-Alike :
      (t : Tenancy) (s : DwnStore dwn)
      → get_data_store_tenant t none ≡ ok tenant
      → Alike s (initialize dwn t s).1
  unfolding initialize tenant_of lift_result bind continue gets
  initialize-Alike t s e = rw e ((initialize_if-Alike s _).holds s (refl, refl, refl))

  -- Where `set` will write
  pub data IsTarget (m : List (Text × V)) (id : Text) : Option Existing → Type 0 where
    fresh_target :
        ((r : Text) (v : V) → lookup r m ≡ some v → dwn.identifier v ≢ id) → IsTarget m id none
    old_target :
        {v : V} (e : Existing)
        → lookup e.record_id m ≡ some v
        → dwn.identifier v ≡ id
        → IsTarget m id (some e)

  abbrev pub Aimed : List (Text × V) → Text → DwnStore dwn → Option Existing → DwnStore dwn → Type 0
  Aimed m id s e u = IsTarget m id e × IsSound dwn tenant m u × (u.world ≡ s.world)

  module _ (room : IsRoomy dwn.texts) where
    not_duplicate-Aimed :
        (m : List (Text × V)) (id : Text) (o : Option Text) (e : Option Existing)
        (s t u : DwnStore dwn)
        → IsPlace dwn tenant m id o
        → IsSound dwn tenant m t
        → t.world ≡ s.world
        → not_duplicate dwn id o t ≡ (ok e, u)
        → Aimed m id s e u
    unfolding pure throw
    not_duplicate-Aimed m id _ e s t u (here _ _) h same ran = cc
    not_duplicate-Aimed m id _ e s t u (nowhere none_there) h same ran =
        subst (λ (p : Option Existing × DwnStore dwn). Aimed m id s p.0 p.1) (ok_pair ran)
          (fresh_target none_there, h, same)

    updated-Aimed :
        (id : Text) (o : Option Text) (e : Option Existing) (s t u : DwnStore dwn)
        → IsPlace dwn tenant (d.stored t.world) id o
        → IsSound dwn tenant (d.stored t.world) t
        → t.world ≡ s.world
        → bind (read_existing dwn tenant o) (updated dwn id) t ≡ (ok e, u)
        → Aimed (d.stored t.world) id s e u
    unfolding pure throw bind continue process
    updated-Aimed id _ e s t u (nowhere _) h same ran = cc
    updated-Aimed id _ e s t u (here {r} {v} at_r is_id) h same ran =
        subst (λ (p : Option Existing × DwnStore dwn). Aimed (d.stored t.world) id s p.0 p.1)
          (ok_pair (rw (d.read_lem r v t.world at_r) at ran))
          (
            old_target (record { record_id = r; date_created = d.created r t.world }) at_r is_id,
            h,
            same,
          )

    pub replaced-Aimed :
        (id : Text) (p upd c : Bool) (e : Option Existing) (s u : DwnStore dwn)
        → IsCareful p upd c
        → IsSound dwn tenant (d.stored s.world) s
        → replaced dwn upd p id tenant s ≡ (ok e, u)
        → Aimed (d.stored s.world) id s e u
    unfolding bind continue get_existing_record_entry
    replaced-Aimed id _ _ c e s u checked_new h ran =
        let (o, place, looked) = lookup_record_id-IsPlace dwn tenant d room id s h in
        not_duplicate-Aimed (d.stored s.world) id o e s looked.after u place looked.sound
          looked.same (rw looked.result at ran)
    replaced-Aimed id p _ _ e s u cached_update h ran =
        let (o, place, looked) = lookup_record_id-IsPlace dwn tenant d room id s h in
        let back = ap d.stored (sym looked.same) in
        subst (λ m. Aimed m id s e u) (sym back)
          (updated-Aimed id o e s looked.after u (subst (λ m. IsPlace dwn tenant m id o) back place)
            (subst (λ m. IsSound dwn tenant m looked.after) back looked.sound) looked.same
            (rw looked.result at ran))

  pub spot_of :
      (m : List (Text × V)) (id r : Text) (e : Option Existing)
      → IsTarget m id e
      → IsIdFor m e r
      → IsSpot dwn tenant m id r
  spot_of m id r _ (fresh_target none_there) at_r = fresh at_r none_there
  spot_of m id r _ (old_target e at_e is_id) same = over (ap (λ t. lookup t m) same ∙ at_e) is_id

  not_duplicate-none :
      (id : Text) (o : Option Text) (e : Option Existing) (t u : DwnStore dwn)
      → not_duplicate dwn id o t ≡ (ok e, u)
      → e ≡ none
  unfolding pure throw
  not_duplicate-none id none e t u h = cc
  not_duplicate-none id (some _) e t u h = cc

  pub replaced-none :
      (id : Text) (p upd c : Bool) (e : Option Existing) (s u : DwnStore dwn)
      → IsCareful p upd c
      → replaced dwn upd p id tenant s ≡ (ok e, u)
      → (c ≡ true) ⊎ (e ≡ none)
  replaced-none id _ _ c e s u checked_new h =
      let (o, _, rest) = bind-ran (lookup_record_id dwn id tenant) (not_duplicate dwn id) s u e h in
      inr (not_duplicate-none id o e _ u rest)
  replaced-none id p _ _ e s u cached_update h = inl refl
