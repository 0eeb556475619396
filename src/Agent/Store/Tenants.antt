-- ===== src/Agent/Store/Tenants.antt =====
-- What `InMemoryDataStore` of packages/agent/src/store-data.ts holds for each of its tenants.
use web5_js.Base.{
  Text, codes, Option, none, some, List, [], ◌∷◌, ◌++◌, append_assoc, append-nil, Bool, true, false,
  ◌&&◌, if◌then◌else◌, ◌===◌, ===_iff, starts_with, starts_with_iff, lookup, insert, lookup-insert,
  lookup-remove, Result, ok, ◌>>=◌, >>=-eq-ok, Lacks, cut-injective, ◌≡◌, refl, sym, ap, ◌∙◌, arith,
  Bool-cases, inl, inr,
}
use mathlib.Core.Path.{ap₂}
use web5_js.Agent.Store.{
  Tenancy, StoreError, Store, get_data_store_tenant, tenant_prefix, store_key, has, get_object,
  delete_object, values_under, list_objects, check_set, set_object, delete_present,
}

store_key-cut : (tenant id : Text) → store_key tenant id ≡ tenant ++ (b'^' ∷ id)
unfolding store_key tenant_prefix
store_key-cut tenant id = append_assoc tenant (codes "^") id

store_key-injective :
    (t t' id id' : Text)
    → Lacks b'^' t
    → Lacks b'^' t'
    → store_key t id ≡ store_key t' id'
    → (t ≡ t') × (id ≡ id')
store_key-injective t t' id id' h k e =
    cut-injective b'^' t t' id id' h k (sym (store_key-cut t id) ∙ e ∙ store_key-cut t' id')

both-true : (a b c d : Text) → a ≡ b → c ≡ d → ((a === b) && (c === d)) ≡ true
both-true a b c d e f = ground (arith, ===_iff a b, ===_iff c d)

both-parts : (a b c d : Text) → ((a === b) && (c === d)) ≡ true → (a ≡ b) × (c ≡ d)
both-parts a b c d h = ((===_iff a b).0 (ground arith), (===_iff c d).0 (ground arith))

bool_eq : (a b : Bool) → (a ≡ true → b ≡ true) → (b ≡ true → a ≡ true) → a ≡ b
bool_eq true b f g = sym (f refl)
bool_eq false true f g = g refl
bool_eq false false f g = refl

same_key :
    (t t' id id' : Text)
    → Lacks b'^' t
    → Lacks b'^' t'
    → (store_key t id === store_key t' id') ≡ ((t === t') && (id === id'))
same_key t t' id id' h k =
    bool_eq _ _
      (λ same.
        let (e, f) = store_key-injective t t' id id' h k ((===_iff _ _).0 same) in
        both-true t t' id id' e f)
      (λ both. let (e, f) = both-parts t t' id id' both in (===_iff _ _).1 (ap₂ store_key e f))

-- The store after `set` returned
ok_injective : {A : Type 0} {a b : A} → ◌≡◌ {A = Result StoreError A} (ok a) (ok b) → a ≡ b
ok_injective h = cc

some_is_not : {A : Type 0} {a : A} → some a ≡ none → ⊥
some_is_not h = cc

abbrev ok_in : {A : Type 0} → A → Result StoreError A
ok_in a = ok a

module _ {V : Type 0} where
  set_object-inv :
      (p : Tenancy) (id t : Text) (v : V) (dup upd : Bool) (s s' : Store V)
      → get_data_store_tenant p (some id) ≡ ok t
      → set_object p id v dup upd s ≡ ok s'
      → s' ≡ insert (store_key t id) v s
  unfolding set_object
  set_object-inv p id t v dup upd s s' e h =
      let (_, _, written) =
        >>=-eq-ok (check_set upd dup (has (lookup (store_key t id) s)) id)
          (λ _. ok (insert (store_key t id) v s)) (rw e at h) in
      sym (ok_injective written)

  get_object_lem :
      (q : Tenancy) (id t : Text) (s : Store V)
      → get_data_store_tenant q (some id) ≡ ok t
      → get_object q id s ≡ ok (lookup (store_key t id) s)
  unfolding get_object
  get_object_lem q id t s e = rw e refl

  push_ok :
      (b : Bool) (x y : Option V) → ok_in (if b then x else y) ≡ (if b then ok_in x else ok_in y)
  push_ok true x y = refl
  push_ok false x y = refl

-- After a `set` that returned, `get` finds the value for the tenant and the id that it was set for, and
-- for any other tenant or id what it found before. The separator `^` may not occur in a tenant.
pub get_object-set_object :
    {V : Type 0} (p q : Tenancy) (t t' id id' : Text) (v : V) (dup upd : Bool) (s s' : Store V)
    → get_data_store_tenant p (some id) ≡ ok t
    → get_data_store_tenant q (some id') ≡ ok t'
    → Lacks b'^' t
    → Lacks b'^' t'
    → set_object p id v dup upd s ≡ ok s'
    → get_object q id' s' ≡ (if (t === t') && (id === id') then ok (some v) else get_object q id' s)
get_object-set_object p q t t' id id' v dup upd s s' e f h k done =
    get_object_lem q id' t' s' f
    ∙ ap (λ m. ok (lookup (store_key t' id') m)) (set_object-inv p id t v dup upd s s' e done)
    ∙ ap ok (
        lookup-insert (store_key t id) (store_key t' id') v s
        ∙ ap (λ b. if b then some v else lookup (store_key t' id') s) (same_key t t' id id' h k))
    ∙ push_ok ((t === t') && (id === id')) (some v) (lookup (store_key t' id') s)
    ∙ ap (λ r. if (t === t') && (id === id') then ok (some v) else r)
        (sym (get_object_lem q id' t' s f))

starts_with-key :
    (t t' id : Text)
    → Lacks b'^' t
    → Lacks b'^' t'
    → starts_with (tenant_prefix t') (store_key t id) ≡ (t === t')
unfolding store_key
starts_with-key t t' id h k =
    bool_eq _ _
      (λ begins.
        let (rest, e) = (starts_with_iff (tenant_prefix t') (store_key t id)).0 begins in
        (===_iff t t').1 (store_key-injective t t' id rest h k e).0)
      (λ same.
        (starts_with_iff (tenant_prefix t') (store_key t id)).1
          (id, ap (λ x. store_key x id) ((===_iff t t').0 same)))

abbrev pub one_if : {V : Type 0} → Bool → V → List V
one_if true v = v ∷ []
one_if false v = []

module _ {V : Type 0} where
  values_under_step :
      (prefix k : Text) (v : V) (s : Store V)
      → values_under prefix ((k, v) ∷ s) ≡ one_if (starts_with prefix k) v ++ values_under prefix s
  unfolding values_under
  values_under_step prefix k v s = elim (Bool-cases (starts_with prefix k)) [
    | inl under ↦ rw under refl
    | inr other ↦ rw other refl
  ]

  insert_other :
      (k j : Text) (v w : V) (s : Store V)
      → lookup k ((j, w) ∷ s) ≡ none
      → (insert k v ((j, w) ∷ s) ≡ (j, w) ∷ insert k v s) × (lookup k s ≡ none)
  unfolding insert lookup
  insert_other k j v w s h = elim (Bool-cases (j === k)) [
    | inl same ↦ absurd (some_is_not (rw same at h))
    | inr other ↦ (rw other refl, rw other at h)
  ]

  values_under-insert :
      (prefix k : Text) (v : V) (s : Store V)
      → lookup k s ≡ none
      → values_under prefix (insert k v s)
        ≡ values_under prefix s ++ one_if (starts_with prefix k) v
  unfolding insert values_under
  values_under-insert prefix k v [] h =
      values_under_step prefix k v [] ∙ append-nil (one_if (starts_with prefix k) v)
  values_under-insert prefix k v ((j, w) ∷ s) h =
      let (e, h') = insert_other k j v w s h in
      ap (values_under prefix) e
      ∙ values_under_step prefix j w (insert k v s)
      ∙ ap (λ vs. one_if (starts_with prefix j) w ++ vs) (values_under-insert prefix k v s h')
      ∙ sym (append_assoc (one_if (starts_with prefix j) w) (values_under prefix s) _)
      ∙ ap (λ vs. vs ++ one_if (starts_with prefix k) v) (sym (values_under_step prefix j w s))

  list_objects_lem :
      (q : Tenancy) (t : Text) (s : Store V)
      → get_data_store_tenant q none ≡ ok t
      → list_objects q s ≡ ok (values_under (tenant_prefix t) s)
  unfolding list_objects
  list_objects_lem q t s e = rw e refl

-- After a `set` that returned, for an id that the tenant had nothing for, `list` has the value behind those it
-- had for the tenant, and for any other tenant it is the same as before. The separator `^` may not
-- occur in a tenant.
pub list_objects-set_object :
    {V : Type 0} (p q : Tenancy) (t t' id : Text) (v : V) (dup upd : Bool) (s s' : Store V)
    → get_data_store_tenant p (some id) ≡ ok t
    → get_data_store_tenant q none ≡ ok t'
    → Lacks b'^' t
    → Lacks b'^' t'
    → get_object p id s ≡ ok none
    → set_object p id v dup upd s ≡ ok s'
    → list_objects q s' ≡ (list_objects q s >>= λ vs. ok (vs ++ one_if (t === t') v))
list_objects-set_object {V} p q t t' id v dup upd s s' e f h k missing done =
    let absent : lookup (store_key t id) s ≡ none =
      ok_injective (sym (get_object_lem p id t s e) ∙ missing) in
    list_objects_lem q t' s' f
    ∙ ap (λ m. ok (values_under (tenant_prefix t') m)) (set_object-inv p id t v dup upd s s' e done)
    ∙ ap ok (
        values_under-insert (tenant_prefix t') (store_key t id) v s absent
        ∙ ap (λ b. values_under (tenant_prefix t') s ++ one_if b v) (starts_with-key t t' id h k))
    ∙ ap (λ (r : Result StoreError (List V)). r >>= λ vs. ok (vs ++ one_if (t === t') v))
        (sym (list_objects_lem q t' s f))

deleted_lem :
    {V : Type 0} (key j : Text) (o : Option V) (s : Store V)
    → lookup key s ≡ o
    → lookup j (delete_present (has o) key s).1 ≡ (if key === j then none else lookup j s)
deleted_lem key j (some v) s h = lookup-remove key j s
deleted_lem key j none s h = elim (Bool-cases (key === j)) [
  | inl same ↦ rw same (ap (λ k. lookup k s) (sym ((===_iff key j).0 same)) ∙ h)
  | inr other ↦ rw other refl
]

delete_present-answer :
    {V : Type 0} (b : Bool) (key : Text) (s : Store V) → (delete_present b key s).0 ≡ b
delete_present-answer true key s = refl
delete_present-answer false key s = refl

delete_object_lem :
    {V : Type 0} (p : Tenancy) (t id : Text) (s : Store V) (out : Bool × Store V)
    → get_data_store_tenant p (some id) ≡ ok t
    → delete_object p id s ≡ ok out
    → out ≡ delete_present (has (lookup (store_key t id) s)) (store_key t id) s
unfolding delete_object
delete_object_lem p t id s out e done = sym (ok_injective (rw e at done))

-- `delete` answers whether the tenant had something for the id. Afterwards `get` finds nothing for that
-- tenant and id, and for any other tenant or id what it found before. The separator `^` may not
-- occur in a tenant.
pub delete_object-get_object :
    {V : Type 0} (p q : Tenancy) (t t' id id' : Text) (o : Option V) (s s' : Store V)
    (answer : Bool)
    → get_data_store_tenant p (some id) ≡ ok t
    → get_data_store_tenant q (some id') ≡ ok t'
    → Lacks b'^' t
    → Lacks b'^' t'
    → get_object p id s ≡ ok o
    → delete_object p id s ≡ ok (answer, s')
    → (answer ≡ has o)
      × (get_object q id' s' ≡ (if (t === t') && (id === id') then ok none else get_object q id' s))
delete_object-get_object p q t t' id id' o s s' answer e f h k found done =
    let key = store_key t id in
    let same : lookup key s ≡ o = ok_injective (sym (get_object_lem p id t s e) ∙ found) in
    let out = delete_object_lem p t id s (answer, s') e done in
    (
      ap (λ r. r.0) out ∙ delete_present-answer (has (lookup key s)) key s ∙ ap has same,
      get_object_lem q id' t' s' f
          ∙ ap (λ r. ok (lookup (store_key t' id') r.1)) out
          ∙ ap ok (
              deleted_lem key (store_key t' id') (lookup key s) s refl
              ∙ ap (λ b. if b then none else lookup (store_key t' id') s)
                  (same_key t t' id id' h k))
          ∙ push_ok ((t === t') && (id === id')) none (lookup (store_key t' id') s)
          ∙ ap (λ r. if (t === t') && (id === id') then ok none else r)
              (sym (get_object_lem q id' t' s f)),
    )
