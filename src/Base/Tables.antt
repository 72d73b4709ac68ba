-- ===== src/Base/Tables.antt =====
-- Facts about every byte, by evaluation.
use Prim.Native.Nat.{ℕ, zero, suc, ◌<◌}
use mathlib.Core.Path.{◌≡◌}
use mathlib.Core.Bool.{Bool, true, ◌&&◌}
use native.Mathlib.Omega.{arith}

-- A test that holds up to a bound.
unfoldable pub holds_to : (ℕ → Bool) → ℕ → Bool
holds_to test zero = true
holds_to test (suc last) = holds_to test last && test last

pub holds_to-at :
    (test : ℕ → Bool) (i bound : ℕ) → i < bound → holds_to test bound ≡ true → test i ≡ true
unfolding holds_to
holds_to-at test i zero below table = absurd (omega arith)
holds_to-at test i (suc last) below table = ground (arith, holds_to-at test i last)
