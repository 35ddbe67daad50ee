-- ===== src/Eep/Flags.antt =====
-- The flag macros of src/flash_eep.c: what setting and checking a flag do to the others.
use b80_key.Prelude.{ℕ, ◌/◌, ◌%◌, ◌^◌, ◌<◌, ◌≡◌, ◌≢◌, ◌⊎◌, refl, inl, inr}
use b80_key.Prelude.{
  Bool, true, false, ◌&&◌, ◌||◌, not, bit_and, bit_or, arith, ltb, ◌==◌, every_below,
  every_below_lem,
}
use native.Mathlib.Decide.{ℕ_discrete}
use b80_key.Eep.Pack.{Flags, set_flag_eep_id, check_flag_eep_id}

-- The flag of `n` is set.
abbrev pub IsFlag : Flags → ℕ → Type 0
IsFlag b n = bit_and (b (n / 8)) (2 ^ (n % 8)) ≢ 0

abbrev pub AreBytes : Flags → Type 0
AreBytes b = (i : ℕ) → b i < 256

-- At byte x and bits k, j: clearing all but bit k sets no bit, setting bit k sets that one only,
-- and both leave a byte.
abbrev byte_ok : ℕ → ℕ → ℕ → Bool
byte_ok x k j =
    (bit_and (bit_and x (2 ^ k)) (2 ^ j) == 0 || not (bit_and x (2 ^ j) == 0))
    && (bit_and (bit_or x (2 ^ k)) (2 ^ j) == 0 || j == k || not (bit_and x (2 ^ j) == 0))
    && ltb (bit_and x (2 ^ k)) 256
    && ltb (bit_or x (2 ^ k)) 256

byte_table : every_below 256 (λ x. every_below 8 (λ k. every_below 8 (λ j. byte_ok x k j))) ≡ true
unfolding every_below
byte_table = refl

byte_ok_lem : (x k j : ℕ) → x < 256 → k < 8 → j < 8 → byte_ok x k j ≡ true
byte_ok_lem x k j hx hk hj =
    every_below_lem 8 (λ j. byte_ok x k j) j
      (every_below_lem 8 (λ k. every_below 8 (λ j. byte_ok x k j)) k
        (every_below_lem 256 (λ x. every_below 8 (λ k. every_below 8 (λ j. byte_ok x k j))) x
          byte_table hx)
        hk)
      hj

pub check-AreBytes : (b : Flags) (n : ℕ) → AreBytes b → AreBytes (check_flag_eep_id b n)
unfolding check_flag_eep_id
check-AreBytes b n v i = ground (arith, byte_ok_lem (b (n / 8)) (n % 8) 0 (v (n / 8)), v i)

pub set-AreBytes : (b : Flags) (n : ℕ) → AreBytes b → AreBytes (set_flag_eep_id b n)
unfolding set_flag_eep_id
set-AreBytes b n v i = ground (arith, byte_ok_lem (b (n / 8)) (n % 8) 0 (v (n / 8)), v i)

-- Checking a flag sets none.
pub check-IsFlag :
    (b : Flags) (n k : ℕ) → AreBytes b → IsFlag (check_flag_eep_id b n) k → IsFlag b k
unfolding check_flag_eep_id
check-IsFlag b n k v f e = ground (arith, byte_ok_lem (b (n / 8)) (n % 8) (k % 8) (v (n / 8)))

-- Setting a flag sets no other.
pub set-IsFlag :
    (b : Flags) (n k : ℕ) → AreBytes b → IsFlag (set_flag_eep_id b n) k → (k ≡ n) ⊎ IsFlag b k
unfolding set_flag_eep_id
set-IsFlag b n k v f = elim (ℕ_discrete k n) [
  | yes e ↦ inl e
  | no ne ↦ inr (λ e. f (ground (arith, byte_ok_lem (b (n / 8)) (n % 8) (k % 8) (v (n / 8)))))
]

-- What the test of `check_flag_eep_id` tells.
pub IsFlag-of_check :
    (b : Flags) (n : ℕ) → (check_flag_eep_id b n (n / 8) == 0) ≡ false → IsFlag b n
unfolding check_flag_eep_id
IsFlag-of_check b n h e = ground (arith, e)
