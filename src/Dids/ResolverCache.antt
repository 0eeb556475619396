-- ===== src/Dids/ResolverCache.antt =====
-- `DidResolverCacheLevel` of packages/dids/src/resolver/resolver-cache-level.ts: a cache with a time
-- to live in a LevelDB database. The stored JSON is modelled by the pair that it is made of.
pub mod Fresh
use web5_js.Base.{
  ℕ, ◌+◌, Text, codes, Option, none, some, List, [], ◌∷◌, ◌++◌, Bool, true, false, leb,
  if◌then◌else◌,
}
use web5_js.Base.Level.{Level, del_all}

-- `CachedDidResolutionResult`
pub record Cached (V : Type 0) : Type 0 where
  pub ttl_millis : ℕ
  pub value : V

module _ {V : Type 0} (db : Level (Cached V)) where
  -- The database and the time to live; `deferred` has the keys whose deletion `nextTick` puts off,
  -- and `now` is `Date.now()`.
  pub record Cache : Type 0 where
    pub cache : db.Store
    pub ttl : ℕ
    pub deferred : List Text
    pub now : ℕ

  -- An entry whose time is up is not returned, and its deletion is put off.
  unfoldable pub get_entry : Text → Option (Cached V) → Cache → Option V × Cache
  get_entry did none c = (none, c)
  get_entry did (some entry) c =
      if leb entry.ttl_millis c.now
      then (none, record c { deferred = c.deferred ++ (did ∷ []) })
      else (some entry.value, c)

  unfoldable pub get : Text → Cache → Option V × Cache
  unfolding get_entry
  get did c = get_entry did (db.get did c.cache) c

  unfoldable pub set : Text → V → Cache → Cache
  set did value c = record c {
    cache = db.put did (record { ttl_millis = c.now + c.ttl; value = value }) c.cache;
  }

  unfoldable pub delete : Text → Cache → Cache
  delete did c = record c { cache = db.del did c.cache }

  -- The deferred deletions run, whatever was written in the meantime.
  unfoldable pub run_deferred : Cache → Cache
  run_deferred c = record c { cache = del_all db c.deferred c.cache; deferred = [] }
