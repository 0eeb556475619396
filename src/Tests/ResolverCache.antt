-- ===== src/Tests/ResolverCache.antt =====
-- The theorems about `DidResolverCacheLevel` of packages/dids/src/resolver/resolver-cache-level.ts at
-- concrete inputs.
use web5_js.Base.{
  ℕ, ◌+◌, ◌<◌, Text, codes, none, some, List, [], ◌∷◌, ◌===◌, lookup, insert, ◌≡◌, refl, arith,
  remove,
}
use web5_js.Base.Level.{map_level, del_all}
use web5_js.Dids.ResolverCache.{Cached, Cache, get, get_entry, set, run_deferred}
use web5_js.Dids.ResolverCache.Fresh.{
  Event, get_event, set_event, deferred_event, elapse, step, run, last_set, get-Fresh, get-set,
}

abbrev empty_cache : Cache (map_level (Cached ℕ))
empty_cache = record { cache = []; ttl = 10; deferred = []; now = 5 }

abbrev did : Text
did = codes "did:web:a"

-- A value that runs out, and one that is set after it
abbrev events : List (Event ℕ)
events =
    set_event did 1 ∷ elapse 12 ∷ get_event did ∷ deferred_event ∷ set_event did 2 ∷ elapse 3 ∷ []

second_found :
    (get (map_level (Cached ℕ)) did (run (map_level (Cached ℕ)) events empty_cache)).0 ≡ some 2
unfolding get get_entry set run_deferred run step del_all lookup insert remove ◌===◌
second_found = refl

empty_lookup : lookup did empty_cache.cache ≡ none
unfolding lookup
empty_lookup = refl

get-Fresh_example :
    (t : ℕ) × (last_set events did 5 none ≡ some (2, t))
    × ((run (map_level (Cached ℕ)) events empty_cache).now < t + 10)
get-Fresh_example =
    get-Fresh (map_level (Cached ℕ)) events did empty_cache 2 empty_lookup second_found

get-set_example :
    (get
      (map_level (Cached ℕ))
      did
      (step (map_level (Cached ℕ)) (elapse 9) (set (map_level (Cached ℕ)) did 4 empty_cache))).0
    ≡ some 4
get-set_example = get-set (map_level (Cached ℕ)) did 4 9 empty_cache (omega arith)
