-- ===== src/Prelude/Bits.antt =====
-- Facts about the bit operations on bytes, by evaluation at every byte.
use Prim.Native.Nat.{ℕ, zero, suc, ◌<◌, bit_and, bit_and-bitwise}
use mathlib.Core.Path.{◌≡◌, refl}
use mathlib.Core.Bool.{Bool, true, ◌&&◌}
use native.Mathlib.Omega.{arith}
use b80_key.Prelude.Tests.{◌==◌, ==_iff}

unfoldable pub every_below : ℕ → (ℕ → Bool) → Bool
every_below zero test = true
every_below (suc bound) test = test bound && every_below bound test

pub every_below_lem :
    (bound : ℕ) (test : ℕ → Bool) (k : ℕ)
    → every_below bound test ≡ true
    → k < bound
    → test k ≡ true
unfolding every_below
every_below_lem zero test k all_hold less = absurd (omega arith)
every_below_lem (suc bound) test k all_hold less = ground (arith, every_below_lem bound test k)

erased_table : every_below 256 (λ x. bit_and 255 x == x) ≡ true
unfolding every_below
erased_table = refl

-- Programming an erased cell stores the byte.
pub bit_and-erased : (x : ℕ) → x < 256 → bit_and 255 x ≡ x
bit_and-erased x h = (==_iff _ x).0 (every_below_lem 256 _ x erased_table h)

zero_table : every_below 256 (λ x. bit_and x 0 == 0) ≡ true
unfolding every_below
zero_table = refl

pub bit_and-zero : (x : ℕ) → x < 256 → bit_and x 0 ≡ 0
bit_and-zero x h = (==_iff _ 0).0 (every_below_lem 256 _ x zero_table h)

pub zero-bit_and : (mask : ℕ) → bit_and 0 mask ≡ 0
zero-bit_and mask = bit_and-bitwise 0 mask
