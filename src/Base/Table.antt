-- ===== src/Base/Table.antt =====
-- Checks of every value below a bound, by evaluation: for facts about the bits of a byte.
use Prim.Native.Nat.{ℕ, zero, suc, ◌<◌}
use mathlib.Core.Path.{◌≡◌}
use mathlib.Core.Bool.{Bool, true, ◌&&◌}
use native.Mathlib.Omega.{arith}

-- The test holds of each of the `bound` least numbers.
unfoldable pub holds_under : (test : ℕ → Bool) → (bound : ℕ) → Bool
holds_under test zero = true
holds_under test (suc b) = holds_under test b && test b

pub holds_under_lem :
    (test : ℕ → Bool) (k : ℕ) {bound : ℕ}
    → k < bound
    → holds_under test bound ≡ true
    → test k ≡ true
unfolding holds_under
holds_under_lem test k {bound = zero} small checked = absurd (omega arith)
holds_under_lem test k {bound = suc b} small checked =
    ground (arith, holds_under_lem test k {bound = b})
