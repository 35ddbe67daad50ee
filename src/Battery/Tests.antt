-- ===== src/Battery/Tests.antt =====
-- Concrete measurements for src/app_battery.c.
use b80_key.Prelude.{ℕ, ◌+◌, ◌*◌, ◌≤◌, ◌<◌, ◌≡◌, ◌⊎◌, ◌↔◌, arith, ◌==◌, if◌then◌else◌, true, false}
use b80_key.Battery.{
  Battery, Voltage, average, check_battery_level, get_adc, read_samples, sample, adc_buf_count,
}
use b80_key.Battery.Sorting.{IsSorted, count, get_adc_lem}
use b80_key.Battery.Level.{IsAverage, average-IsAverage, check_battery_level_lem}

-- Samples that fall, the sixth negative.
abbrev words : ℕ → ℕ
words k = if k == 5 then 9000 else 5000 + (7 * k + 3) * 11

get_adc_example :
    let s = read_samples adc_buf_count words in
    IsSorted s 8
    × ((v : ℕ) → count v s 8 ≡ count v (λ k. sample (words k)) 8)
    × (4 * s 2 ≤ get_adc words)
    × (get_adc words ≤ 4 * s 5)
get_adc_example = get_adc_lem words

abbrev two_measured : Battery
two_measured = record { summ = 5900; cnt = 2 }

average_example :
    let (b', mv) = average two_measured 3050 in IsAverage 2900 3100 b' × (2900 ≤ mv) × (mv ≤ 3100)
average_example =
    average-IsAverage 2900 3100 3050 two_measured (omega arith) (omega arith) (omega arith)
      (omega arith, omega arith, omega arith)

abbrev unset : Voltage
unset = record { battery_mv = 0; battery_level = 0; flg_update = 0 }

check_battery_level_example :
    let (b', mv) = average two_measured 2100 in
    let (low, b'', v') = check_battery_level true 2100 two_measured unset in
    ((true ≡ true) × (2100 < 2200) × (low ≡ true) × (b'' ≡ two_measured) × (v' ≡ unset))
    ⊎ (((true ≡ false) ⊎ (2200 ≤ 2100))
        × (b'' ≡ b')
        × (v'.battery_mv ≡ mv)
        × ((low ≡ true) ↔ (mv ≤ 2000))
        × ((v'.battery_level ≡ 100) ↔ (3000 ≤ mv))
        × (v'.battery_level ≤ 100))
check_battery_level_example = check_battery_level_lem true 2100 two_measured unset
