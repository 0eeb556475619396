-- ===== src/Agent/DwnStore/Writing.antt =====
-- The write of `set` of `DwnDataStore` (packages/agent/src/store-data.ts).
use web5_js.Base.{
  ℕ, Text, Option, none, some, List, Bool, true, false, if◌then◌else◌, ◌==◌, ==_iff, lookup, ok,
  ◌≡◌, refl, sym, ap, ◌∙◌, Bool-cases, ◌⊎◌, inl, inr,
}
use web5_js.Base.Exec.{pure, throw, modify, bind, continue, bind-ran}
use web5_js.Agent.Store.{Tenancy, get_data_store_tenant, store_key}
use web5_js.Agent.DwnStore.Types.{Existing, Dwn, DwnStore}
use web5_js.Agent.DwnStore.{process, lift_result, tenant_of, remember}
use web5_js.Agent.DwnStore.Operations.{set, write, written, index_record, replaced, initialize}
use web5_js.Agent.DwnStore.Spec.{IsDwn, IsSound}
use web5_js.Agent.DwnStore.Updated.{
  IsUpdate, update-IsOrderly, update-Points, update-Copies, update-Copies_fresh,
}
use web5_js.Agent.DwnStore.Aiming.{ok_pair}

module _ {V : Type 0} (dwn : Dwn V) (tenant : Text) (d : IsDwn dwn tenant) where
  written-ran :
      (id r : Text) (reply : ℕ × Option Text) (s u : DwnStore dwn)
      → written dwn id reply s ≡ (ok r, u)
      → (reply ≡ (202, some r)) × (s ≡ u)
  unfolding pure throw
  written-ran id r (code, none) s u h = cc
  written-ran id r (code, some q) s u h = elim (Bool-cases (code == 202)) [
    | inl e ↦
        let same = ok_pair (rw e at h) in
        (
          ap (λ c. (c, some q)) ((==_iff code 202).0 e)
              ∙ ap (λ (x : Text × DwnStore dwn). (202, some x.0)) same,
          ap (λ x. x.1) same,
        )
    | inr e ↦ cc (rw e at h)
  ]

  -- The state once the DWN has accepted the write
  abbrev pub stored_as : Text → V → Bool → dwn.World → DwnStore dwn → DwnStore dwn
  stored_as r v use_cache w s = record s {
    index = dwn.texts.set (store_key tenant (dwn.identifier v)) r s.index;
    cache = if use_cache then dwn.objects.set r v s.cache else s.cache;
    world = w;
  }

  pub stored_as-IsSound :
      (r : Text) (v : V) (c : Bool) (m m' : List (Text × V)) (w : dwn.World) (s : DwnStore dwn)
      → IsUpdate dwn tenant m m' r v
      → (c ≡ true) ⊎ (lookup r m ≡ none)
      → IsSound dwn tenant m s
      → IsSound dwn tenant m' (stored_as r v c w s)
  stored_as-IsSound r v true m m' w s up how h = record {
    points = update-Points dwn tenant m m' r v up s.index h.points;
    copies = update-Copies dwn tenant m m' r v up s.cache h.copies;
    orderly = update-IsOrderly dwn tenant m m' r v up h.orderly;
  }
  stored_as-IsSound r v false m m' w s up (inl e) h = cc
  stored_as-IsSound r v false m m' w s up (inr empty) h = record {
    points = update-Points dwn tenant m m' r v up s.index h.points;
    copies = update-Copies_fresh dwn tenant m m' r v up s.cache empty h.copies;
    orderly = update-IsOrderly dwn tenant m m' r v up h.orderly;
  }

  remembered :
      (r : Text) (v : V) (c : Bool) (s s' : DwnStore dwn)
      → bind (index_record dwn tenant (dwn.identifier v) r) (λ _. remember dwn c r v) s
        ≡ (ok tt, s')
      → stored_as r v c s.world s ≡ s'
  unfolding bind continue index_record remember modify pure
  remembered r v true s s' h = ap (λ x. x.1) h
  remembered r v false s s' h = ap (λ x. x.1) h

  pub write-ran :
      (v : V) (e : Option Existing) (c : Bool) (s s' : DwnStore dwn)
      → write dwn tenant (dwn.identifier v) v e c s ≡ (ok tt, s')
      → (r : Text) × ((dwn.records_write tenant e (dwn.to_text v) s.world).0 ≡ ok (202, some r))
        × (s' ≡ stored_as r v c (dwn.records_write tenant e (dwn.to_text v) s.world).1 s)
  unfolding write process index_record modify
  write-ran v e c s s' h =
      let id = dwn.identifier v in
      let (reply, sent, h₁) =
        bind-ran (process dwn (dwn.records_write tenant e (dwn.to_text v))) _ s s' tt h in
      let s₁ = (process dwn (dwn.records_write tenant e (dwn.to_text v)) s).1 in
      let (r, accepted, h₂) = bind-ran (written dwn id reply) _ s₁ s' tt h₁ in
      let (is_reply, is_state) =
        written-ran id r reply s₁ _ (ap (λ x. (x, (written dwn id reply s₁).1)) accepted) in
      (
        r,
        sent ∙ ap ok is_reply,
        sym (
            remembered r v c s₁ s' (
              ap (λ u. bind (index_record dwn tenant id r) (λ _. remember dwn c r v) u) is_state
              ∙ h₂)),
      )

  pub set-ran :
      (t : Tenancy) (v : V) (p upd c : Bool) (s s' : DwnStore dwn)
      → get_data_store_tenant t (some (dwn.identifier v)) ≡ ok tenant
      → set dwn t (dwn.identifier v) v p upd c s ≡ (ok tt, s')
      → (e : Option Existing) × (s₁ s₂ : DwnStore dwn) × (s₁
          ≡ (initialize dwn (record t { tenant = some tenant }) s).1)
        × (replaced dwn upd p (dwn.identifier v) tenant s₁ ≡ (ok e, s₂))
        × (write dwn tenant (dwn.identifier v) v e c s₂ ≡ (ok tt, s'))
  unfolding set tenant_of lift_result bind continue
  set-ran t v p upd c s s' named h =
      let id = dwn.identifier v in
      let first = initialize dwn (record t { tenant = some tenant }) in
      let (_, started, h₁) = bind-ran first _ s s' tt (rw named at h) in
      let s₁ = (first s).1 in
      let (e, aimed, h₂) = bind-ran (replaced dwn upd p id tenant) _ s₁ s' tt h₁ in
      (
        e,
        s₁,
        (replaced dwn upd p id tenant s₁).1,
        refl,
        ap (λ x. (x, (replaced dwn upd p id tenant s₁).1)) aimed,
        h₂,
      )
