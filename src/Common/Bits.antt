-- ===== src/Common/Bits.antt =====
-- Facts on a byte, by a test of its 256 values.
use Prim.Native.Nat.{ℕ, zero, suc, ◌<◌}
use mathlib.Core.Path.{◌≡◌}
use mathlib.Core.Bool.{Bool, true, ◌&&◌}
use native.Mathlib.Omega.{arith}

-- Whether the test holds of the `count` numbers below `count`.
unfoldable pub passes : (test : ℕ → Bool) (count : ℕ) → Bool
passes test zero = true
passes test (suc count) = passes test count && test count

passes_at :
    (test : ℕ → Bool) (count byte : ℕ) → byte < count → passes test count ≡ true → test byte ≡ true
unfolding passes
passes_at test zero byte below table = absurd (omega arith)
passes_at test (suc count) byte below table = ground (arith, passes_at test count byte)

-- A test that holds of every byte holds of the one at hand.
pub holds_of_byte :
    (test : ℕ → Bool) (byte : ℕ) → passes test 256 ≡ true → byte < 256 → test byte ≡ true
holds_of_byte test byte table below = passes_at test 256 byte below table
