-- ===== src/Temp.antt =====
-- calk_temp of src/app_soc_temp.c: the running average of the temperature.
pub mod Average
pub mod Tests
use b80_key.Prelude.{ℕ, ◌+◌, ◌-◌, ◌*◌, ◌/◌, ◌%◌, ◌^◌, Bool, true, false}
use b80_key.Prelude.{leb, if◌then◌else◌, ℤ, pos, negsuc, sub_ℕ, ◌+ℤ◌, ◌-ℤ◌, wrap, quot, shift_right}
use b80_key.Data.{TemperatureCfg}

-- temperature_t, as far as it is used: the sum and the number of the samples in it
pub record Temperature : Type 0 where
  pub cfg : TemperatureCfg
  pub summ : ℤ
  pub cnt : ℕ

-- TEMP_AVERAGE_COUNT_SHL
abbrev pub average_count_shl : ℕ
average_count_shl = 4

-- (s32)zero - (((s32)adc * (u32)coef) >> 12), which is computed in 32 bits
unfoldable pub sample : TemperatureCfg → ℕ → ℤ
sample cfg adc = sub_ℕ cfg.zero_point (adc * cfg.coef % 2 ^ 32 / 2 ^ 12)

-- services.temp, an s16, and the state then
unfoldable pub calk_temp : ℕ → Temperature → ℤ × Temperature
calk_temp adc t =
    let summ = wrap (2 ^ 31) (t.summ +ℤ sample t.cfg adc) in
    let cnt = (t.cnt + 1) % 2 ^ 16 in
    if leb (2 ^ average_count_shl) cnt
    then (let temp = wrap (2 ^ 15) (shift_right summ average_count_shl) in
        (temp, record t { summ = wrap (2 ^ 31) (summ -ℤ temp); cnt = cnt - 1 }))
    else (wrap (2 ^ 15) (quot summ cnt), record t { summ = summ; cnt = cnt })
