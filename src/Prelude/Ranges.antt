-- ===== src/Prelude/Ranges.antt =====
-- A test of every number below a bound, by evaluation.
use Prim.Native.Nat.{ℕ, zero, suc, ◌<◌}
use mathlib.Core.Path.{◌≡◌}
use mathlib.Core.Bool.{Bool, true, ◌&&◌}
use native.Mathlib.Omega.{arith}

unfoldable pub holds_throughout : (ℕ → Bool) → ℕ → Bool
holds_throughout test zero = true
holds_throughout test (suc k) = holds_throughout test k && test k

pub holds_throughout-at :
    (test : ℕ → Bool) (k i : ℕ) → holds_throughout test k ≡ true → i < k → test i ≡ true
unfolding holds_throughout
holds_throughout-at test zero i all l = elim l [ ]
holds_throughout-at test (suc k) i all l = ground (arith, holds_throughout-at test k i)
