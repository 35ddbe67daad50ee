-- ===== src/Temp/Tests.antt =====
-- A concrete measurement.
use b80_key.Prelude.{◌≤◌, ◌≡◌, refl, arith, pos, magnitude, ◌+ℤ◌, wrap, quot}
use b80_key.Data.{temperature_cfg_def}
use b80_key.Temp.{Temperature, sample, calk_temp}
use b80_key.Temp.Average.{IsAverage, calk_temp-IsAverage}

abbrev pub measured : Temperature
measured = record { cfg = temperature_cfg_def; summ = pos 5000; cnt = 2 }

measured-IsAverage : IsAverage 6000 measured
measured-IsAverage = record { few = omega arith; size = omega arith }

calk_temp_example :
    let (temp, t') = calk_temp 21500 measured in (magnitude temp ≤ 6000) × IsAverage 6000 t'
unfolding sample
calk_temp_example =
    calk_temp-IsAverage 6000 21500 measured (omega arith) measured-IsAverage (omega arith)

-- (5000 + 57400 - 21500 * 10500 / 4096) / 3
calk_temp_value : (calk_temp 21500 measured).0 ≡ pos 2428
unfolding calk_temp sample wrap quot ◌+ℤ◌
calk_temp_value = refl
