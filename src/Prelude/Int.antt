-- ===== src/Prelude/Int.antt =====
-- Integers over the native numbers, and the wrap-around of signed words.
use Prim.Native.Nat.{ℕ, suc, ◌+◌, ◌-◌, ◌*◌, ◌/◌, ◌%◌, ◌^◌, ◌≤◌, ◌<◌}
use mathlib.Core.Path.{◌≡◌}
use native.Mathlib.Omega.{arith}
use b80_key.Prelude.Tests.{ltb, leb, if◌then◌else◌}

-- `negsuc n` is -(n + 1).
pub data ℤ : Type 0 where
  pos : ℕ → ℤ
  negsuc : ℕ → ℤ

abbrev pub pos_part : ℤ → ℕ
pos_part (pos n) = n
pos_part (negsuc n) = 0

abbrev pub neg_part : ℤ → ℕ
neg_part (pos n) = 0
neg_part (negsuc n) = suc n

-- a - b, as an integer.
abbrev pub sub_ℕ : ℕ → ℕ → ℤ
sub_ℕ a b = if leb b a then pos (a - b) else negsuc (b - a - 1)

infixl 65 ◌+ℤ◌ ◌-ℤ◌
unfoldable pub ◌+ℤ◌ : ℤ → ℤ → ℤ
a +ℤ b = sub_ℕ (pos_part a + pos_part b) (neg_part a + neg_part b)

unfoldable pub ◌-ℤ◌ : ℤ → ℤ → ℤ
a -ℤ b = sub_ℕ (pos_part a + neg_part b) (neg_part a + pos_part b)

abbrev pub magnitude : ℤ → ℕ
magnitude a = pos_part a + neg_part a

-- The word of the integer, with `half` = 2 ^ (bits - 1), read as a signed number.
unfoldable pub wrap : ℕ → ℤ → ℤ
wrap half (pos n) =
    let u = n % (2 * half) in if ltb u half then pos u else negsuc (2 * half - 1 - u)
wrap half (negsuc n) =
    let u = n % (2 * half) in if ltb u half then negsuc u else pos (2 * half - 1 - u)

-- Division that rounds toward 0, and a shift to the right
unfoldable pub quot : ℤ → ℕ → ℤ
quot (pos n) k = pos (n / k)
quot (negsuc n) k = sub_ℕ 0 (suc n / k)

unfoldable pub shift_right : ℤ → ℕ → ℤ
shift_right (pos n) k = pos (n / 2 ^ k)
shift_right (negsuc n) k = negsuc (n / 2 ^ k)

pub wrap-32 : (a : ℤ) → magnitude a < 2 ^ 31 → wrap (2 ^ 31) a ≡ a
unfolding wrap
wrap-32 (pos n) p = ground (arith, p)
wrap-32 (negsuc n) p = ground (arith, p)

pub wrap-16 : (a : ℤ) → magnitude a < 2 ^ 15 → wrap (2 ^ 15) a ≡ a
unfolding wrap
wrap-16 (pos n) p = ground (arith, p)
wrap-16 (negsuc n) p = ground (arith, p)

pub magnitude-+ℤ : (a b : ℤ) → magnitude (a +ℤ b) ≤ magnitude a + magnitude b
unfolding ◌+ℤ◌
magnitude-+ℤ a b = ground arith

pub magnitude-quot : (a : ℤ) (k : ℕ) → magnitude (quot a k) ≡ magnitude a / k
unfolding quot
magnitude-quot (pos n) k = let e : n + 0 ≡ n = omega arith in rw e (omega arith)
magnitude-quot (negsuc n) k = ground arith
