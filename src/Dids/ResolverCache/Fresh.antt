-- ===== src/Dids/ResolverCache/Fresh.antt =====
-- What `DidResolverCacheLevel` of packages/dids/src/resolver/resolver-cache-level.ts returns, over any
-- order of calls, deferred deletions and passing time.
use web5_js.Base.{
  ℕ, ◌+◌, ◌<◌, ◌≤◌, Text, Option, none, some, List, [], ◌∷◌, Bool, true, false, leb, ◌===◌,
  ===_refl, if◌then◌else◌, includes, ◌≡◌, refl, sym, ap, subst, ◌∙◌, arith, Bool-cases, inl, inr,
}
use web5_js.Base.Level.{Level, get-del_all}
use web5_js.Dids.ResolverCache.{Cached, Cache, get_entry, get, set, delete, run_deferred}

-- What may happen to a cache.
pub data Event (V : Type 0) : Type 0 where
  get_event delete_event : Text → Event V
  set_event : Text → V → Event V
  deferred_event : Event V
  -- milliseconds pass
  elapse : ℕ → Event V

module _ {V : Type 0} (db : Level (Cached V)) where
  unfoldable pub step : Event V → Cache db → Cache db
  step (get_event did) c = (get db did c).1
  step (delete_event did) c = delete db did c
  step (set_event did v) c = set db did v c
  step deferred_event c = run_deferred db c
  step (elapse n) c = record c { now = c.now + n }

  unfoldable pub run : List (Event V) → Cache db → Cache db
  run [] c = c
  run (e ∷ es) c = run es (step e c)

-- The last value set for a DID with the time of it, after a clock and such a pair for the events so far.
unfoldable pub last_set : {V : Type 0} → List (Event V) → Text → ℕ → Option (V × ℕ) → Option (V × ℕ)
last_set [] did now last = last
last_set (get_event _ ∷ es) did now last = last_set es did now last
last_set (delete_event _ ∷ es) did now last = last_set es did now last
last_set (set_event d v ∷ es) did now last =
    last_set es did now (if d === did then some (v, now) else last)
last_set (deferred_event ∷ es) did now last = last_set es did now last
last_set (elapse n ∷ es) did now last = last_set es did (now + n) last

none_is_not : {A : Type 0} {a : A} → none ≡ some a → ⊥
none_is_not h = cc

value_eq : {A : Type 0} {x y : A} → some x ≡ some y → x ≡ y
value_eq h = cc

module _ {V : Type 0} (db : Level (Cached V)) where
  -- The entry of a DID, if there is one, was made by the last `set`.
  pub record Tracks (did : Text) (last : Option (V × ℕ)) (c : Cache db) : Type 0 where
    pub entry_of :
        (entry : Cached V)
        → db.get did c.cache ≡ some entry
        → (t : ℕ) × (last ≡ some (entry.value, t)) × (entry.ttl_millis ≡ t + c.ttl) × (t ≤ c.now)

  get_entry-store :
      (did : Text) (o : Option (Cached V)) (c : Cache db)
      → ((get_entry db did o c).1.cache ≡ c.cache)
        × ((get_entry db did o c).1.now ≡ c.now)
        × ((get_entry db did o c).1.ttl ≡ c.ttl)
  unfolding get_entry
  get_entry-store did none c = (refl, refl, refl)
  get_entry-store did (some entry) c = elim (Bool-cases (leb entry.ttl_millis c.now)) [
    | inl over ↦ rw over (refl, refl, refl)
    | inr live ↦ rw live (refl, refl, refl)
  ]

  entry_eq : {x y : Cached V} → some x ≡ some y → x ≡ y
  entry_eq h = cc

  Tracks-same :
      (did : Text) (last : Option (V × ℕ)) (c c' : Cache db)
      → c'.cache ≡ c.cache
      → c'.ttl ≡ c.ttl
      → c.now ≤ c'.now
      → Tracks did last c
      → Tracks did last c'
  Tracks-same did last c c' same_cache same_ttl later k = record {
    entry_of = λ entry h.
        let (t, e, f, g) = k.entry_of entry (ap (db.get did) (sym same_cache) ∙ h) in
        (t, e, f ∙ ap (λ n. t + n) (sym same_ttl), omega arith);
  }

  Tracks-fewer :
      (did : Text) (last : Option (V × ℕ)) (c c' : Cache db)
      → ((entry : Cached V) → db.get did c'.cache ≡ some entry → db.get did c.cache ≡ some entry)
      → c'.ttl ≡ c.ttl
      → c'.now ≡ c.now
      → Tracks did last c
      → Tracks did last c'
  Tracks-fewer did last c c' fewer same_ttl same_now k = record {
    entry_of = λ entry h.
        let (t, e, f, g) = k.entry_of entry (fewer entry h) in
        (t, e, f ∙ ap (λ n. t + n) (sym same_ttl), omega arith);
  }

  Tracks-set :
      (d did : Text) (v : V) (last : Option (V × ℕ)) (c : Cache db)
      → Tracks did last c
      → Tracks did (if d === did then some (v, c.now) else last) (set db d v c)
  unfolding set
  Tracks-set d did v last c k = record {
    entry_of = λ entry h.
        let made : Cached V = record { ttl_millis = c.now + c.ttl; value = v } in
        let found = sym (db.get-put d did made c.cache) ∙ h in
        elim (Bool-cases (d === did)) [
          | inl same ↦
              let one : made ≡ entry = entry_eq (rw same at found) in
              (
                c.now,
                rw same (ap (λ (x : Cached V). some (x.value, c.now)) one),
                ap (λ (x : Cached V). x.ttl_millis) (sym one),
                omega arith,
              )
          | inr other ↦
              let (t, e, f, g) = k.entry_of entry (rw other at found) in (t, rw other e, f, g)
        ];
  }

  fewer_after_del :
      (b : Bool) (o : Option (Cached V)) (entry : Cached V)
      → (if b then none else o) ≡ some entry
      → o ≡ some entry
  fewer_after_del true o entry h = cc
  fewer_after_del false o entry h = h

  Tracks-step :
      (e : Event V) (es : List (Event V)) (did : Text) (last : Option (V × ℕ)) (c : Cache db)
      → Tracks did last c
      → (last' : Option (V × ℕ)) × (last_set (e ∷ es) did c.now last
          ≡ last_set es did (step db e c).now last')
        × Tracks did last' (step db e c)
        × ((step db e c).ttl ≡ c.ttl)
  unfolding last_set step get delete run_deferred set
  Tracks-step (get_event d) es did last c k =
      let (a, b, t) = get_entry-store d (db.get d c.cache) c in
      (
        last,
        ap (λ n. last_set es did n last) (sym b),
        Tracks-same did last c _ a t (omega arith) k,
        t,
      )
  Tracks-step (delete_event d) es did last c k = (
    last,
    refl,
    Tracks-fewer did last c _
        (λ entry h.
          fewer_after_del (d === did) (db.get did c.cache) entry
            (sym (db.get-del d did c.cache) ∙ h))
        refl refl k,
    refl,
  )
  Tracks-step (set_event d v) es did last c k =
      ((if d === did then some (v, c.now) else last), refl, Tracks-set d did v last c k, refl)
  Tracks-step deferred_event es did last c k = (
    last,
    refl,
    Tracks-fewer did last c _
        (λ entry h.
          fewer_after_del (includes c.deferred did) (db.get did c.cache) entry
            (sym (get-del_all db c.deferred did c.cache) ∙ h))
        refl refl k,
    refl,
  )
  Tracks-step (elapse n) es did last c k =
      (last, refl, Tracks-same did last c _ refl refl (omega arith) k, refl)

  run-Tracks :
      (es : List (Event V)) (did : Text) (last : Option (V × ℕ)) (c : Cache db)
      → Tracks did last c
      → Tracks did (last_set es did c.now last) (run db es c) × ((run db es c).ttl ≡ c.ttl)
  unfolding run last_set
  run-Tracks [] did last c k = (k, refl)
  run-Tracks (e ∷ es) did last c k =
      let (last', same, k', t) = Tracks-step e es did last c k in
      let (end, t') = run-Tracks es did last' (step db e c) k' in
      (subst (λ l. Tracks did l (run db es (step db e c))) (sym same) end, t' ∙ t)

  get_entry-live :
      (did : Text) (o : Option (Cached V)) (c : Cache db) (v : V)
      → (get_entry db did o c).0 ≡ some v
      → (entry : Cached V) × (o ≡ some entry) × (entry.value ≡ v) × (c.now < entry.ttl_millis)
  unfolding get_entry
  get_entry-live did none c v h = cc
  get_entry-live did (some entry) c v h = elim (Bool-cases (leb entry.ttl_millis c.now)) [
    | inl over ↦ absurd (none_is_not (rw over at h))
    | inr live ↦ (entry, refl, value_eq (rw live at h), ground arith)
  ]

-- What the cache returns for a DID after any events on a cache that had no entry for it, with the
-- deferred deletions and the calls for other DIDs at any place among them, is the value of the last
-- `set` for this DID, and that call is less than the time to live ago.
pub get-Fresh :
    {V : Type 0} (db : Level (Cached V)) (es : List (Event V)) (did : Text) (c : Cache db) (v : V)
    → db.get did c.cache ≡ none
    → (get db did (run db es c)).0 ≡ some v
    → (t : ℕ) × (last_set es did c.now none ≡ some (v, t)) × ((run db es c).now < t + c.ttl)
unfolding get
get-Fresh db es did c v missing h =
    let start : Tracks db did none c = record {
      entry_of = λ entry found. absurd (none_is_not (sym missing ∙ found));
    } in
    let (k, same_ttl) = run-Tracks db es did none c start in
    let (entry, found, value, live) = get_entry-live db did _ (run db es c) v h in
    let (t, set_then, until, _) = k.entry_of entry found in
    (t, set_then ∙ ap (λ x. some (x, t)) value, omega (arith, same_ttl))

get_entry-some :
    {V : Type 0} (db : Level (Cached V)) (did : Text) (o : Option (Cached V)) (entry : Cached V)
    (c : Cache db)
    → o ≡ some entry
    → leb entry.ttl_millis c.now ≡ false
    → (get_entry db did o c).0 ≡ some entry.value
unfolding get_entry
get_entry-some db did o entry c e live = rw e (rw live refl)

-- What was set for a DID is returned for less than the time to live, if nothing but the passing of time
-- comes in between.
pub get-set :
    {V : Type 0} (db : Level (Cached V)) (did : Text) (v : V) (n : ℕ) (c : Cache db)
    → n < c.ttl
    → (get db did (step db (elapse n) (set db did v c))).0 ≡ some v
unfolding get set step
get-set {V} db did v n c h =
    let entry : Cached V = record { ttl_millis = c.now + c.ttl; value = v } in
    get_entry-some db did _ entry (step db (elapse n) (set db did v c))
      (db.get-put did did entry c.cache
        ∙ ap (λ b. if b then some entry else db.get did c.cache) (===_refl did))
      (ground arith)
