-- ===== src/Base/Level.antt =====
-- A sublevel of a LevelDB database, as `abstract-level` documents it: a map from keys to values that
-- is iterated entry by entry. The package is not part of the repository, so it is an argument of
-- the code that uses it; `map_level` shows that the laws can be met.
use mathlib.Core.Path.{◌≡◌, refl}
use mathlib.Core.Option.{Option, none, some}
use mathlib.Core.List.{List, [], ◌∷◌}
use native.Mathlib.Omega.{arith}
use web5_js.Base.Tests.{if◌then◌else◌}
use web5_js.Base.Texts.{Text, ◌===◌, includes}
use web5_js.Base.Assoc.{lookup, insert, remove, lookup-insert, lookup-remove}

pub record Level (V : Type 0) : Type 1 where
  pub Store : Type 0
  -- `get`, where a missing key is the `notFound` error
  pub get : Text → Store → Option V
  pub put : Text → V → Store → Store
  pub del : Text → Store → Store
  -- `iterator().all()`
  pub entries : Store → List (Text × V)
  pub get-put :
      (k j : Text) (v : V) (s : Store) → get j (put k v s) ≡ (if k === j then some v else get j s)
  pub get-del : (k j : Text) (s : Store) → get j (del k s) ≡ (if k === j then none else get j s)
  pub lookup-entries : (k : Text) (s : Store) → lookup k (entries s) ≡ get k s

pub lookup_self : {V : Type 0} (k : Text) (m : List (Text × V)) → lookup k m ≡ lookup k m
lookup_self k m = refl

abbrev pub map_level : (V : Type 0) → Level V
map_level V = record {
  Store = List (Text × V);
  get = lookup;
  put = insert;
  del = remove;
  entries = λ m. m;
  get-put = lookup-insert;
  get-del = lookup-remove;
  lookup-entries = lookup_self;
}

module _ {V : Type 0} (db : Level V) where
  open db use {Store, get, del, get-del}

  -- `batch` of `del` operations
  unfoldable pub del_all : List Text → Store → Store
  del_all [] s = s
  del_all (k ∷ ks) s = del_all ks (del k s)

  pub get-del_all :
      (ks : List Text) (j : Text) (s : Store)
      → get j (del_all ks s) ≡ (if includes ks j then none else get j s)
  unfolding del_all includes
  get-del_all [] j s = refl
  get-del_all (k ∷ ks) j s = ground (arith, get-del_all ks j (del k s), get-del k j s)
