-- ===== src/Agent/DwnStore/Deleted.antt =====
-- `delete` of `DwnDataStore` (packages/agent/src/store-data.ts).
use web5_js.Base.{
  Text, Option, none, some, List, Bool, false, if◌then◌else◌, ◌===◌, ===_iff, ◌==◌, ==_iff, lookup,
  ok, ◌≡◌, ◌≢◌, sym, ap, subst, ◌∙◌, Bool-cases, inl, inr,
}
use web5_js.Base.Exec.{pure, throw, modify, bind, continue, bind-ran}
use web5_js.Base.TtlCache.{TtlCache, IsRoomy}
use web5_js.Agent.Store.{Tenancy, get_data_store_tenant, store_key}
use web5_js.Agent.DwnStore.Types.{Dwn, DwnStore}
use web5_js.Agent.DwnStore.{process, lift_result, tenant_of}
use web5_js.Agent.DwnStore.Operations.{delete, delete_found, dropped}
use web5_js.Agent.DwnStore.Spec.{IsDwn, IsOrderly, IsSound, IsPlace, here, nowhere}
use web5_js.Agent.DwnStore.Rebuilt.{some_injective}
use web5_js.Agent.DwnStore.Reading.{lookup_record_id-IsPlace}

-- What is found after a deletion was there, under another key.
got_delete :
    {V : Type 0} (c : TtlCache V) (k j : Text) (w : V) (s : c.Store)
    → c.get j (c.delete k s) ≡ some w
    → ((k === j) ≡ false) × (c.get j s ≡ some w)
got_delete c k j w s h = elim (Bool-cases (k === j)) [
  | inl e ↦ cc (rw e at (c.get-delete k j w s h))
  | inr e ↦ (e, rw e at (c.get-delete k j w s h))
]

module _ {V : Type 0} (dwn : Dwn V) (tenant : Text) where
  -- `m'` is `m` without the record.
  abbrev Lacking : List (Text × V) → List (Text × V) → Text → Type 0
  Lacking m m' r = (j : Text) → lookup j m' ≡ (if r === j then none else lookup j m)

  module _ (m m' : List (Text × V)) (r : Text) (v : V) (less : Lacking m m' r)
      (at_r : lookup r m ≡ some v) where
    left_in :
        (q : Text) (u : V) → lookup q m' ≡ some u → ((r === q) ≡ false) × (lookup q m ≡ some u)
    left_in q u h = elim (Bool-cases (r === q)) [
      | inl e ↦ cc (rw e at (sym (less q) ∙ h))
      | inr e ↦ (e, rw e at (sym (less q) ∙ h))
    ]

    stays_in : (q : Text) (u : V) → (r === q) ≡ false → lookup q m ≡ some u → lookup q m' ≡ some u
    stays_in q u e h = rw (less q, e) h

    lacking-IsOrderly : IsOrderly dwn tenant m → IsOrderly dwn tenant m'
    lacking-IsOrderly o = record {
      valid = λ q u h. o.valid q u (left_in q u h).1;
      unique = λ p q u w h k. o.unique p q u w (left_in p u h).1 (left_in q w k).1;
    }

    -- An object with another identifier is at another record.
    elsewhere :
        (q : Text) (u : V)
        → lookup q m ≡ some u
        → dwn.identifier u ≢ dwn.identifier v
        → (r === q) ≡ false
    elsewhere q u h other = elim (Bool-cases (r === q)) [
      | inr e ↦ e
      | inl e ↦
          elim (other (
            ap dwn.identifier
              (some_injective (sym h ∙ ap (λ x. lookup x m) (sym ((===_iff r q).0 e)) ∙ at_r)))) [ ]
    ]

    dropped-IsSound :
        (w : dwn.World) (s : DwnStore dwn)
        → IsSound dwn tenant m s
        → IsSound dwn tenant m' (record (dropped dwn tenant (dwn.identifier v) r s) { world = w })
    dropped-IsSound w s h = record {
      points = λ id q e.
          let (other, found) =
            got_delete dwn.texts (store_key tenant (dwn.identifier v)) (store_key tenant id) q
              s.index e in
          let (u, at_q, same) = h.points id q found in
          (
            u,
            stays_in q u
                (elsewhere q u at_q λ f. differs id other (ap (store_key tenant) (sym f ∙ same)))
                at_q,
            same,
          );
      copies = λ q u e.
          let (other, found) = got_delete dwn.objects r q u s.cache e in
          stays_in q u other (h.copies q u found);
      orderly = lacking-IsOrderly h.orderly;
    }
      where
        differs :
            (id : Text)
            → (store_key tenant (dwn.identifier v) === store_key tenant id) ≡ false
            → store_key tenant (dwn.identifier v) ≢ store_key tenant id
        differs id e f = cc (sym e ∙ (===_iff _ _).1 f)

  module _ (d : IsDwn dwn tenant) where
    -- No object with the identifier is in the DWN, those with others are as they were, and the state is
    -- sound.
    pub record IsGone (id : Text) (s s' : DwnStore dwn) : Type 0 where
      pub gone : (r : Text) (v : V) → lookup r (d.stored s'.world) ≡ some v → dwn.identifier v ≢ id
      pub others :
          (r : Text) (v : V)
          → lookup r (d.stored s.world) ≡ some v
          → dwn.identifier v ≢ id
          → lookup r (d.stored s'.world) ≡ some v
      pub sound : IsSound dwn tenant (d.stored s'.world) s'

    IsGone-none :
        (id : Text) (s : DwnStore dwn)
        → ((r : Text) (v : V) → lookup r (d.stored s.world) ≡ some v → dwn.identifier v ≢ id)
        → IsSound dwn tenant (d.stored s.world) s
        → IsGone id s s
    IsGone-none id s n h = record { gone = n; others = λ r v e _. e; sound = h }

    IsGone-dropped :
        (r : Text) (v : V) (s : DwnStore dwn)
        → lookup r (d.stored s.world) ≡ some v
        → (dwn.records_delete tenant r s.world).0 ≡ ok 202
        → IsSound dwn tenant (d.stored s.world) s
        → IsGone (dwn.identifier v) s (record (dropped dwn tenant (dwn.identifier v) r s) {
          world = (dwn.records_delete tenant r s.world).1;
        })
    IsGone-dropped r v s at_r accepted h =
        let m = d.stored s.world in
        let m' = d.stored (dwn.records_delete tenant r s.world).1 in
        let less = λ (j : Text). d.delete_lem r j s.world accepted in
        record {
          gone = λ q u e same.
              let (other, at_q) = left_in m m' r v less at_r q u e in
              apart q other (h.orderly.unique r q v u at_r at_q (sym same));
          others = λ q u e other.
              stays_in m m' r v less at_r q u (elsewhere m m' r v less at_r q u e other) e;
          sound = dropped-IsSound m m' r v less at_r (dwn.records_delete tenant r s.world).1 s h;
        }
      where
        apart : (q : Text) → (r === q) ≡ false → r ≢ q
        apart q e f = cc (sym e ∙ (===_iff r q).1 f)

    delete_found-ran :
        (id r : Text) (s s' : DwnStore dwn) (b : Bool)
        → delete_found dwn id tenant (some r) s ≡ (ok b, s')
        → ((dwn.records_delete tenant r s.world).0 ≡ ok 202)
          × (record (dropped dwn tenant id r s) { world = (dwn.records_delete tenant r s.world).1 }
              ≡ s')
    unfolding process bind continue modify throw pure
    delete_found-ran id r s s' b h =
        let (code, sent, rest) = bind-ran (process dwn (dwn.records_delete tenant r)) _ s s' b h in
        elim (Bool-cases (code == 202)) [
          | inl e ↦ (sent ∙ ap ok ((==_iff code 202).0 e), ap (λ x. x.1) (rw e at rest))
          | inr e ↦ cc (rw e at rest)
        ]

    delete_found-IsGone :
        (id : Text) (o : Option Text) (s s' : DwnStore dwn) (b : Bool)
        → IsPlace dwn tenant (d.stored s.world) id o
        → IsSound dwn tenant (d.stored s.world) s
        → delete_found dwn id tenant o s ≡ (ok b, s')
        → IsGone id s s'
    unfolding pure
    delete_found-IsGone id _ s s' b (nowhere n) h ran =
        subst (IsGone id s) (ap (λ x. x.1) ran) (IsGone-none id s n h)
    delete_found-IsGone id _ s s' b (here {r} {v} at_r same) h ran =
        let (accepted, is_end) = delete_found-ran id r s s' b ran in
        subst (IsGone id s)
          (ap
              (λ i. record (dropped dwn tenant i r s) {
                world = (dwn.records_delete tenant r s.world).1;
              })
              same
            ∙ is_end)
          (subst
            (λ i. IsGone i s (record (dropped dwn tenant (dwn.identifier v) r s) {
              world = (dwn.records_delete tenant r s.world).1;
            }))
            same (IsGone-dropped r v s at_r accepted h))

    -- After `delete` returned in a sound state, the DWN has no object with the identifier and all objects with
    -- others, and the state is sound.
    pub delete-IsGone :
        (t : Tenancy) (id : Text) (s s' : DwnStore dwn) (b : Bool)
        → IsRoomy dwn.texts
        → get_data_store_tenant t (some id) ≡ ok tenant
        → IsSound dwn tenant (d.stored s.world) s
        → delete dwn t id s ≡ (ok b, s')
        → IsGone id s s'
    unfolding delete tenant_of lift_result bind continue
    delete-IsGone t id s s' b room named h ran =
        let (o, place, looked) = lookup_record_id-IsPlace dwn tenant d room id s h in
        let back = ap d.stored (sym looked.same) in
        let k =
          delete_found-IsGone id o looked.after s' b
            (subst (λ m. IsPlace dwn tenant m id o) back place)
            (subst (λ m. IsSound dwn tenant m looked.after) back looked.sound)
            (rw looked.result at rw named at ran) in
        record {
          gone = k.gone;
          others = λ r v e f. k.others r v (ap (lookup r) (sym back) ∙ e) f;
          sound = k.sound;
        }
