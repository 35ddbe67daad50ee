-- ===== src/Temp/Average.antt =====
-- The average of calk_temp in src/app_soc_temp.c stays within the samples.
use native.Mathlib.Nat.{div-le_of_le-mul}
use b80_key.Prelude.{ℕ, ◌+◌, ◌-◌, ◌*◌, ◌%◌, ◌^◌, ◌≤◌, ◌<◌, ◌≡◌, inl, inr, arith, leb, Bool-cases}
use b80_key.Prelude.{
  ℤ, pos, negsuc, ◌+ℤ◌, ◌-ℤ◌, magnitude, wrap, quot, shift_right, wrap-32, wrap-16, magnitude-+ℤ,
  magnitude-quot,
}
use b80_key.Temp.{Temperature, sample, calk_temp}

-- At most 15 samples are in the sum, which is no larger than as many of the largest size.
pub record IsAverage (most : ℕ) (t : Temperature) : Type 0 where
  pub few : t.cnt ≤ 15
  pub size : magnitude t.summ ≤ t.cnt * most

magnitude-shift_right :
    (a : ℤ) (most : ℕ) → magnitude a ≤ 16 * most → magnitude (shift_right a 4) ≤ most
unfolding shift_right
magnitude-shift_right (pos n) most p = omega arith
magnitude-shift_right (negsuc n) most p = omega arith

-- What is left of 16 samples without their average
magnitude-rest :
    (a : ℤ) (most : ℕ) → magnitude a ≤ 16 * most → magnitude (a -ℤ shift_right a 4) ≤ 15 * most
unfolding shift_right ◌-ℤ◌
magnitude-rest (pos n) most p = ground (arith, p)
magnitude-rest (negsuc n) most p = ground (arith, p)

-- With every sample of a size of at most `most`, below 32768, the temperature is of this size at most as
-- well, with no wrap-around, and the sum is again that of at most 15 such samples.
pub calk_temp-IsAverage :
    (most adc : ℕ) (t : Temperature)
    → most < 32768
    → IsAverage most t
    → magnitude (sample t.cfg adc) ≤ most
    → let (temp, t') = calk_temp adc t in (magnitude temp ≤ most) × IsAverage most t'
unfolding calk_temp
calk_temp-IsAverage most adc t small avg fits =
    let sum = t.summ +ℤ sample t.cfg adc in
    let bound : magnitude sum ≤ (t.cnt + 1) * most =
      grind (arith, magnitude-+ℤ t.summ (sample t.cfg adc), avg.size, fits) in
    let sixteen : magnitude sum ≤ 16 * most = grind (arith, bound, avg.few) in
    let no_wrap : wrap (2 ^ 31) sum ≡ sum = wrap-32 sum (omega (arith, sixteen, small)) in
    let count : (t.cnt + 1) % 2 ^ 16 ≡ t.cnt + 1 = omega (arith, avg.few) in
    elim (Bool-cases (leb 16 (t.cnt + 1))) [
      | inl full ↦
          let temp = magnitude-shift_right sum most sixteen in
          let no_wrap' = wrap-16 (shift_right sum 4) (omega (arith, temp, small)) in
          let rest = magnitude-rest sum most sixteen in
          let no_wrap'' = wrap-32 (sum -ℤ shift_right sum 4) (omega (arith, rest, small)) in
          let left : t.cnt + 1 - 1 ≡ 15 = ground (arith, full, avg.few) in
          rw (no_wrap, count, full, no_wrap', no_wrap'', left)
            (temp, record { few = omega arith; size = rest })
      | inr more ↦
          let temp : magnitude (quot sum (t.cnt + 1)) ≤ most =
            rw (magnitude-quot sum (t.cnt + 1)) (div-le_of_le-mul (t.cnt + 1) bound) in
          let no_wrap' = wrap-16 (quot sum (t.cnt + 1)) (omega (arith, temp, small)) in
          rw (no_wrap, count, more, no_wrap')
            (temp, record { few = ground (arith, more); size = bound })
    ]
