-- ===== src/Battery.antt =====
-- src/app_battery.c: the samples of the converter, sorted as they come, and the supply voltage with
-- its running average. The samples and the calibration are arguments: they come from hardware.
pub mod Adc
pub mod Channel
pub mod Masks
pub mod Measurement
pub mod Sorting
pub mod Level
mod AdcTests
mod Tests
use b80_key.Prelude.{
  ℕ, zero, suc, ◌+◌, ◌-◌, ◌*◌, ◌/◌, ◌%◌, ◌^◌, List, [], ◌∷◌, Bool, true, false, ◌&&◌,
}
use b80_key.Prelude.{ltb, leb, ◌==◌, if◌then◌else◌}

abbrev pub adc_buf_count : ℕ
adc_buf_count = 8

-- adc_sample: the value at each index.
abbrev pub Samples : Type 0
Samples = ℕ → ℕ

abbrev pub put : Samples → ℕ → ℕ → Samples
put s i v k = if k == i then v else s k

-- A word of adc_dat_buf: bit 13 is the sign, and a negative voltage counts as 0.
unfoldable pub sample : ℕ → ℕ
sample dat = if dat / 8192 % 2 == 1 then 0 else dat % 8192

-- for (j = i - 1; j >= 0 && adc_sample[j] > temp; j--), and the store behind it; the first
-- argument is j + 1.
unfoldable pub shift_loop : ℕ → Samples → ℕ → Samples
shift_loop zero s temp = put s 0 temp
shift_loop (suc j) s temp =
    let rest = shift_loop j (put s (suc j) (s j)) temp in
    if ltb temp (s j) then rest else put s (suc j) temp

-- The body of the loop over the samples, from `// insert sort` on.
unfoldable pub insert_sort : Samples → ℕ → Samples
insert_sort s zero = s
insert_sort s (suc i) =
    if ltb (s (suc i)) (s i) then shift_loop (suc i) (put s (suc i) (s i)) (s (suc i)) else s

-- The first `n` rounds of the loop over the samples.
unfoldable pub read_samples : ℕ → (ℕ → ℕ) → Samples
read_samples zero adc_dat_buf = λ k. 0
read_samples (suc n) adc_dat_buf =
    insert_sort (put (read_samples n adc_dat_buf) n (sample (adc_dat_buf n))) n

unfoldable pub get_adc : (ℕ → ℕ) → ℕ
get_adc adc_dat_buf = let s = read_samples adc_buf_count adc_dat_buf in s 2 + s 3 + s 4 + s 5

-- battery_t and the fields of services_t that the voltage sets.
pub record Battery : Type 0 where
  pub summ : ℕ
  pub cnt : ℕ

pub record Voltage : Type 0 where
  pub battery_mv : ℕ
  pub battery_level : ℕ
  pub flg_update : ℕ

abbrev pub max_vbat_mv : ℕ
max_vbat_mv = 3000

abbrev pub min_vbat_work_mv : ℕ
min_vbat_work_mv = 2000

abbrev pub min_vbat_start_mv : ℕ
min_vbat_start_mv = 2200

abbrev pub vbat_level_max : ℕ
vbat_level_max = 100

-- (VBAT_LEVEL_MAX << VBAT2LEVEL_SHL) / (MAX_VBAT_MV - MIN_VBAT_WORK_MV)
abbrev pub vbat2level_coef : ℕ
vbat2level_coef = 1677721

-- 1 << BAT_AVERAGE_COUNT_SHL
abbrev pub average_count : ℕ
average_count = 32

-- The measured voltage in mV; `vref_offset` is the signed offset as a u32.
unfoldable pub vbat_mv : ℕ → ℕ → ℕ → ℕ
vbat_mv adc calib_vref vref_offset = (adc * calib_vref % 2 ^ 32 / 2 ^ 13 + vref_offset) % 2 ^ 32

-- battery.summ, battery.cnt and services.battery_mv with one more measurement.
unfoldable pub average : Battery → ℕ → Battery × ℕ
average b vbat =
    let summ = (b.summ + vbat) % 2 ^ 32 in
    let cnt = (b.cnt + 1) % 2 ^ 16 in
    if leb average_count cnt
    then (let mv = summ / average_count % 2 ^ 16 in
        (record { summ = (summ + (2 ^ 32 - mv)) % 2 ^ 32; cnt = cnt - 1 }, mv))
    else (record { summ = summ; cnt = cnt }, summ / cnt % 2 ^ 16)

-- services.battery_level for a voltage above MIN_VBAT_WORK_MV and below MAX_VBAT_MV
unfoldable pub level : ℕ → ℕ
level mv = (mv - min_vbat_work_mv) * vbat2level_coef % 2 ^ 32 / 2 ^ 24 % 256

-- BIT(MEAS_BIT_VBAT_ADV) | BIT(MEAS_BIT_VBAT_NTF) set in a byte
abbrev pub set_vbat_bits : ℕ → ℕ
set_vbat_bits flg = flg / 4 * 4 + 3

-- check_battery_level(start) at a measured voltage: whether the power is low, and the new state.
unfoldable pub check_battery_level : Bool → ℕ → Battery → Voltage → Bool × Battery × Voltage
check_battery_level start vbat b v =
    if start && ltb vbat min_vbat_start_mv
    then (true, b, v)
    else let (b', mv) = average b vbat in
      if ltb mv max_vbat_mv
      then (if ltb min_vbat_work_mv mv
          then (
            false,
            b',
            record {
              battery_mv = mv;
              battery_level = level mv;
              flg_update = set_vbat_bits v.flg_update;
            },
          )
          else (true, b', record { battery_mv = mv; battery_level = 0; flg_update = v.flg_update }))
      else (
        false,
        b',
        record {
          battery_mv = mv;
          battery_level = vbat_level_max;
          flg_update = set_vbat_bits v.flg_update;
        },
      )
