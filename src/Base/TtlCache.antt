-- ===== src/Base/TtlCache.antt =====
-- The cache of `@isaacs/ttlcache` (packages/common/src/cache.ts passes it on): a map whose entries
-- vanish when their time is up. The package is not part of the repository, so it is an argument of
-- the code that uses it; `map_cache` shows that the laws can be met.
use web5_js.Base.Tests.{if◌then◌else◌}
use web5_js.Base.Texts.{Text, ◌===◌}
use web5_js.Base.Assoc.{lookup, insert, remove, lookup-insert, lookup-remove}
use mathlib.Core.Path.{◌≡◌, refl}
use mathlib.Core.Option.{Option, none, some}
use mathlib.Core.List.{List, []}

pub record TtlCache (V : Type 0) : Type 1 where
  pub Store : Type 0
  pub get : Text → Store → Option V
  pub set : Text → V → Store → Store
  pub delete : Text → Store → Store
  pub clear : Store → Store
  -- What is found was the last value set for the key.
  pub get-set :
      (k j : Text) (v w : V) (s : Store)
      → get j (set k v s) ≡ some w
      → (if k === j then some v else get j s) ≡ some w
  pub get-delete :
      (k j : Text) (w : V) (s : Store)
      → get j (delete k s) ≡ some w
      → (if k === j then none else get j s) ≡ some w
  pub get-clear : (k : Text) (s : Store) → get k (clear s) ≡ none

pub lookup-insert-some :
    {V : Type 0} (k j : Text) (v w : V) (s : List (Text × V))
    → lookup j (insert k v s) ≡ some w
    → (if k === j then some v else lookup j s) ≡ some w
lookup-insert-some k j v w s h = rw lookup-insert at h

pub lookup-remove-some :
    {V : Type 0} (k j : Text) (w : V) (s : List (Text × V))
    → lookup j (remove k s) ≡ some w
    → (if k === j then none else lookup j s) ≡ some w
lookup-remove-some k j w s h = rw lookup-remove at h

pub lookup-nil : {V : Type 0} (k : Text) (s : List (Text × V)) → lookup {V = V} k [] ≡ none
unfolding lookup
lookup-nil k s = refl

abbrev pub map_cache : (V : Type 0) → TtlCache V
map_cache V = record {
  Store = List (Text × V);
  get = lookup;
  set = insert;
  delete = remove;
  clear = λ _. [];
  get-set = lookup-insert-some;
  get-delete = lookup-remove-some;
  get-clear = lookup-nil;
}

-- A cache that drops nothing by itself, as one is whose entries are few and young.
pub record IsRoomy {V : Type 0} (c : TtlCache V) : Type 0 where
  pub get_set :
      (k j : Text) (v : V) (s : c.Store)
      → c.get j (c.set k v s) ≡ (if k === j then some v else c.get j s)

pub map_cache-IsRoomy : {V : Type 0} → IsRoomy (map_cache V)
map_cache-IsRoomy = record { get_set = lookup-insert }
