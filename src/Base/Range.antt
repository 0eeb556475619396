-- ===== src/Base/Range.antt =====
-- A finite range of numbers, checked by evaluation.
use Prim.Native.Nat.{ℕ, zero, suc, ◌<◌}
use mathlib.Core.Path.{◌≡◌}
use mathlib.Core.Bool.{Bool, true, ◌&&◌}
use native.Mathlib.Omega.{arith}

-- A test that holds of every number under a bound.
unfoldable pub every_under : (ℕ → Bool) → ℕ → Bool
every_under test zero = true
every_under test (suc bound) = every_under test bound && test bound

pub every_under-at :
    (test : ℕ → Bool) (bound k : ℕ) → every_under test bound ≡ true → k < bound → test k ≡ true
unfolding every_under
every_under-at test zero k _ under = absurd (omega arith)
every_under-at test (suc bound) k all under = ground (arith, every_under-at test bound k)
