-- ===== src/Agent/DwnStore/Updated.antt =====
-- What a write to the DWN means for the index and the cache of `DwnDataStore`
-- (packages/agent/src/store-data.ts).
use web5_js.Base.{
  Text, none, some, List, true, false, if◌then◌else◌, ◌===◌, ===_iff, ===_refl, lookup, ◌≡◌, ◌≢◌,
  refl, sym, ap, ◌∙◌, Bool-cases, ◌⊎◌, inl, inr,
}
use web5_js.Agent.Store.{store_key}
use web5_js.Agent.DwnStore.Types.{Dwn}
use web5_js.Agent.DwnStore.Spec.{Points, Copies, IsOrderly}
use web5_js.Agent.DwnStore.Rebuilt.{got_set, same_id, some_injective, some_is_none}

module _ {V : Type 0} (dwn : Dwn V) (tenant : Text) where
  -- Where an object with the identifier may be written
  pub data IsSpot (m : List (Text × V)) (id r : Text) : Type 0 where
    fresh :
        lookup r m ≡ none
        → ((q : Text) (v : V) → lookup q m ≡ some v → dwn.identifier v ≢ id)
        → IsSpot m id r
    over : {v : V} → lookup r m ≡ some v → dwn.identifier v ≡ id → IsSpot m id r

  -- `m'` is `m` with the object at `r`.
  pub record IsUpdate (m m' : List (Text × V)) (r : Text) (v : V) : Type 0 where
    pub after : (j : Text) → lookup j m' ≡ (if r === j then some v else lookup j m)
    pub valid : dwn.is_valid v ≡ true
    pub spot : IsSpot m (dwn.identifier v) r

  module _ (m m' : List (Text × V)) (r : Text) (v : V) (up : IsUpdate m m' r v) where
    pub at_spot : lookup r m' ≡ some v
    at_spot = rw (up.after r, ===_refl r) refl

    pub beside : (j : Text) → (r === j) ≡ false → lookup j m' ≡ lookup j m
    beside j e = rw (up.after j, e) refl

    in_update :
        (q : Text) (u : V)
        → lookup q m' ≡ some u
        → ((r ≡ q) × (v ≡ u)) ⊎ (((r === q) ≡ false) × (lookup q m ≡ some u))
    in_update q u h = elim (Bool-cases (r === q)) [
      | inl e ↦ inl ((===_iff r q).0 e, some_injective (rw e at (sym (up.after q) ∙ h)))
      | inr e ↦ inr (e, sym (beside q e) ∙ h)
    ]

    -- What was at the spot had the identifier.
    spot_id :
        (u : V)
        → IsSpot m (dwn.identifier v) r
        → lookup r m ≡ some u
        → dwn.identifier u ≡ dwn.identifier v
    spot_id u (fresh empty _) h = elim (some_is_none (sym h ∙ empty)) [ ]
    spot_id u (over old same) h = ap dwn.identifier (some_injective (sym h ∙ old)) ∙ same

    -- An object with the identifier was at the spot.
    spot_only :
        (q : Text) (u : V)
        → IsSpot m (dwn.identifier v) r
        → IsOrderly dwn tenant m
        → lookup q m ≡ some u
        → dwn.identifier u ≡ dwn.identifier v
        → r ≡ q
    spot_only q u (fresh _ nowhere) o h e = elim (nowhere q u h e) [ ]
    spot_only q u (over {v = w} old same) o h e = o.unique r q w u old h (same ∙ sym e)

    pub update-IsOrderly : IsOrderly dwn tenant m → IsOrderly dwn tenant m'
    update-IsOrderly o = record {
      valid = λ q u h. elim (in_update q u h) [
        | inl (_, e) ↦ ap dwn.is_valid (sym e) ∙ up.valid
        | inr (_, g) ↦ o.valid q u g
      ];
      unique = λ p q u w h k e. elim (in_update p u h) [
        | inl (f, x) ↦ elim (in_update q w k) [
          | inl (g, y) ↦ sym f ∙ g
          | inr (_, y) ↦ sym f ∙ spot_only q w up.spot o y (sym e ∙ ap dwn.identifier (sym x))
        ]
        | inr (_, x) ↦ elim (in_update q w k) [
          | inl (g, y) ↦ sym (spot_only p u up.spot o x (e ∙ ap dwn.identifier (sym y))) ∙ g
          | inr (_, y) ↦ o.unique p q u w x y e
        ]
      ];
    }

    -- An entry of the index that was right still is.
    still_points :
        (id q : Text)
        → (u : V) × (lookup q m ≡ some u) × (dwn.identifier u ≡ id)
        → (u : V) × (lookup q m' ≡ some u) × (dwn.identifier u ≡ id)
    still_points id q (u, h, e) = elim (Bool-cases (r === q)) [
      | inl f ↦
          let same = (===_iff r q).0 f in
          (
            v,
            ap (λ t. lookup t m') (sym same) ∙ at_spot,
            sym (spot_id u up.spot (ap (λ t. lookup t m) same ∙ h)) ∙ e,
          )
      | inr f ↦ (u, beside q f ∙ h, e)
    ]

    pub update-Points :
        (i : dwn.texts.Store)
        → Points dwn tenant m i
        → Points dwn tenant m' (dwn.texts.set (store_key tenant (dwn.identifier v)) r i)
    update-Points i p id q h =
        elim (got_set dwn.texts (store_key tenant (dwn.identifier v)) (store_key tenant id) r q i
          h) [
            | inl (e, f) ↦ (v, ap (λ t. lookup t m') (sym f) ∙ at_spot, same_id tenant _ id e)
            | inr (_, g) ↦ still_points id q (p id q g)
          ]

    pub update-Copies :
        (c : dwn.objects.Store)
        → Copies dwn tenant m c
        → Copies dwn tenant m' (dwn.objects.set r v c)
    update-Copies c k q u h = elim (got_set dwn.objects r q v u c h) [
      | inl (e, f) ↦ ap (λ t. lookup t m') (sym ((===_iff r q).0 e)) ∙ at_spot ∙ ap some f
      | inr (e, g) ↦ beside q e ∙ k q u g
    ]

    -- Without the cache, if nothing was at the spot
    pub update-Copies_fresh :
        (c : dwn.objects.Store) → lookup r m ≡ none → Copies dwn tenant m c → Copies dwn tenant m' c
    update-Copies_fresh c empty k q u h = elim (Bool-cases (r === q)) [
      | inl e ↦
          elim (some_is_none
            (sym (k q u h) ∙ ap (λ t. lookup t m) (sym ((===_iff r q).0 e)) ∙ empty)) [ ]
      | inr e ↦ beside q e ∙ k q u h
    ]
