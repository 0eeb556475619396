-- ===== src/Dids/Dht/Names.antt =====
-- Maps that are filled with new names (packages/dids/src/methods/did-dht.ts).
use web5_js.Base.{
  Text, List, [], ◌∷◌, ◌++◌, append_assoc, append-nil, false, includes, insert, remove, All,
  All-map, ◌≡◌, refl, sym, ap, subst, ◌∙◌, arith,
}

module _ {V : Type 0} where
  abbrev pub names : List (Text × V) → List Text
  names [] = []
  names ((k, v) ∷ m) = k ∷ names m

  insert-new :
      (k : Text) (v : V) (m : List (Text × V))
      → includes (names m) k ≡ false
      → insert k v m ≡ m ++ ((k, v) ∷ [])
  unfolding insert includes
  insert-new k v [] h = refl
  insert-new k v ((j, w) ∷ m) h = let rest = insert-new k v m in ground (arith, rest)

  pub remove-new : (k : Text) (m : List (Text × V)) → includes (names m) k ≡ false → remove k m ≡ m
  unfolding remove includes
  remove-new k [] h = refl
  remove-new k ((j, w) ∷ m) h = let rest = remove-new k m in ground (arith, rest)

  pub names-append : (m o : List (Text × V)) → names (m ++ o) ≡ names m ++ names o
  names-append [] o = refl
  names-append ((k, v) ∷ m) o = ap (λ l. k ∷ l) (names-append m o)

-- The second names are not among the first ones, and all different.
abbrev pub AreNew : List Text → List Text → Type 0
AreNew ks [] = Unit
AreNew ks (k ∷ names) = (includes ks k ≡ false) × AreNew (ks ++ (k ∷ [])) names

module _ {A V : Type 0} (f : A → V) where
  abbrev pub insert_all : List (Text × A) → List (Text × V) → List (Text × V)
  insert_all [] m = m
  insert_all ((k, a) ∷ ps) m = insert_all ps (insert k (f a) m)

  abbrev pub map_values : List (Text × A) → List (Text × V)
  map_values [] = []
  map_values ((k, a) ∷ ps) = (k, f a) ∷ map_values ps

  pub names-map_values : (ps : List (Text × A)) → names (map_values ps) ≡ names ps
  names-map_values [] = refl
  names-map_values ((k, a) ∷ ps) = ap (λ l. k ∷ l) (names-map_values ps)

  -- New names are appended in their order.
  pub insert_all-new :
      (ps : List (Text × A)) (m : List (Text × V))
      → AreNew (names m) (names ps)
      → insert_all ps m ≡ m ++ map_values ps
  insert_all-new [] m h = sym (append-nil m)
  insert_all-new ((k, a) ∷ ps) m (new, h) =
      ap (insert_all ps) (insert-new k (f a) m new)
      ∙ insert_all-new ps (m ++ ((k, f a) ∷ []))
          (subst (λ l. AreNew l (names ps)) (sym (names-append m ((k, f a) ∷ []))) h)
      ∙ append_assoc m ((k, f a) ∷ []) (map_values ps)

includes-append :
    (ks js : List Text) (k : Text) → includes (ks ++ js) k ≡ false → includes ks k ≡ false
unfolding includes
includes-append [] js k h = refl
includes-append (j ∷ ks) js k h = let rest = includes-append ks js k in ground (arith, rest)

-- Each of the new names differs from the first ones.
pub AreNew-All : (ks names : List Text) → AreNew ks names → All (λ k. includes ks k ≡ false) names
AreNew-All ks [] h = tt
AreNew-All ks (k ∷ names) (new, h) = (
  new,
  All-map _ (λ j e. includes-append ks (k ∷ []) j e) names (AreNew-All (ks ++ (k ∷ [])) names h),
)
