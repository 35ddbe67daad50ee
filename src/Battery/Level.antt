-- ===== src/Battery/Level.antt =====
-- The running average and the level in check_battery_level of src/app_battery.c.
use b80_key.Prelude.{ℕ, suc, ◌+◌, ◌*◌, ◌/◌, ◌%◌, ◌^◌, ◌≤◌, ◌<◌, ◌≡◌, ◌⊎◌, ◌↔◌, refl, inl, inr}
use b80_key.Prelude.{Bool, true, false, ◌&&◌, arith, ltb, leb, Bool-cases}
use native.Mathlib.Nat.{le-div_iff_mul-le, div-lt_iff_lt-mul}
use b80_key.Battery.{
  Battery, Voltage, average, level, check_battery_level, min_vbat_work_mv, max_vbat_mv,
  min_vbat_start_mv, average_count,
}

-- The sum of `cnt` measurements between `low` and `high`, as the running average keeps it.
abbrev pub IsAverage : ℕ → ℕ → Battery → Type 0
IsAverage low high b = (b.cnt < average_count) × (low * b.cnt ≤ b.summ) × (b.summ ≤ high * b.cnt)

-- With measurements between two bounds, neither the sum nor the count wraps, and the average lies
-- between the bounds.
pub average-IsAverage :
    (low high vbat : ℕ) (b : Battery)
    → high < 2 ^ 16
    → low ≤ vbat
    → vbat ≤ high
    → IsAverage low high b
    → let (b', mv) = average b vbat in IsAverage low high b' × (low ≤ mv) × (mv ≤ high)
unfolding average
average-IsAverage low high vbat b small p q h = elim (Bool-cases (leb average_count (b.cnt + 1))) [
  | inl e ↦
      let full : b.cnt ≡ 31 = ground (arith, e) in
      let low31 : low * 31 ≤ b.summ = rw full at h.1 in
      let high31 : b.summ ≤ high * 31 = rw full at h.2 in
      let no_wrap : (b.summ + vbat) % 2 ^ 32 ≡ b.summ + vbat = omega (arith, high31) in
      let cnt32 : (b.cnt + 1) % 2 ^ 16 ≡ 32 = omega (arith, full) in
      rw (no_wrap, cnt32) (omega (arith, low31, high31))
  | inr e ↦
      let below : b.cnt + 1 < 32 = ground (arith, e) in
      let high31 : high * b.cnt ≤ high * 31 = grind arith in
      let no_wrap : (b.summ + vbat) % 2 ^ 32 ≡ b.summ + vbat = omega (arith, high31, h.2) in
      let cnt' : (b.cnt + 1) % 2 ^ 16 ≡ b.cnt + 1 = omega arith in
      let low_sum : low * (b.cnt + 1) ≤ b.summ + vbat = omega (arith, h.1) in
      let high_sum : b.summ + vbat ≤ high * (b.cnt + 1) = omega (arith, h.2) in
      let low_mv : low ≤ (b.summ + vbat) / (b.cnt + 1) =
        (le-div_iff_mul-le (omega arith)).1 low_sum in
      let high_mv : (b.summ + vbat) / (b.cnt + 1) < suc high =
        (div-lt_iff_lt-mul (omega arith)).1 (omega (arith, high_sum)) in
      rw (no_wrap, cnt', e)
        ((below, low_sum, high_sum), omega (arith, low_mv, high_mv), omega (arith, high_mv))
]

-- The level is at most 100 % and grows with the voltage.
pub level_bounds : (mv : ℕ) → 2000 < mv → mv < 3000 → level mv < 100
unfolding level
level_bounds mv p q = omega arith

not_low_at_start :
    (start : Bool) (vbat : ℕ)
    → (start && ltb vbat min_vbat_start_mv) ≡ false
    → (start ≡ false) ⊎ (2200 ≤ vbat)
not_low_at_start false vbat e = inl refl
not_low_at_start true vbat e = inr (ground (arith, e))

-- Low power is reported at the start below 2200 mV, leaving the state as it is, and otherwise exactly
-- if the average is at most 2000 mV, with a level below 100 %; else the level is 100 % from 3000 mV on, and below 100 %
-- before.
pub check_battery_level_lem :
    (start : Bool) (vbat : ℕ) (b : Battery) (v : Voltage)
    → let (b', mv) = average b vbat in
      let (low, b'', v') = check_battery_level start vbat b v in
      ((start ≡ true) × (vbat < 2200) × (low ≡ true) × (b'' ≡ b) × (v' ≡ v))
      ⊎ (((start ≡ false) ⊎ (2200 ≤ vbat))
          × (b'' ≡ b')
          × (v'.battery_mv ≡ mv)
          × ((low ≡ true) ↔ (mv ≤ 2000))
          × ((v'.battery_level ≡ 100) ↔ (3000 ≤ mv))
          × (v'.battery_level ≤ 100))
unfolding check_battery_level
check_battery_level_lem start vbat b v = elim (Bool-cases (start && ltb vbat min_vbat_start_mv)) [
  | inl e ↦ rw e (inl (ground (arith, e), ground (arith, e), refl, refl, refl))
  | inr e ↦
      let not_low : (start ≡ false) ⊎ (2200 ≤ vbat) = not_low_at_start start vbat e in
      rw e (
        inr (elim (Bool-cases (ltb (average b vbat).1 max_vbat_mv)) [
          | inl under ↦ elim (Bool-cases (ltb min_vbat_work_mv (average b vbat).1)) [
            | inl over ↦
                let less =
                  level_bounds (average b vbat).1 (ground (arith, over)) (ground (arith, under)) in
                rw (under, over)
                  (
                    not_low,
                    refl,
                    refl,
                    ground (arith, over),
                    ground (arith, under, less),
                    omega (arith, less),
                  )
            | inr low ↦
                rw (under, low)
                  (not_low, refl, refl, ground (arith, low), ground (arith, under), omega arith)
          ]
          | inr top ↦
              rw top (not_low, refl, refl, ground (arith, top), ground (arith, top), omega arith)
        ]))
]
