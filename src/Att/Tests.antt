-- ===== src/Att/Tests.antt =====
-- The table and the serial number at concrete values.
use b80_key.Prelude.{◌≡◌, arith, [], ◌∷◌, true, length, take, drop, replicate, not, ◌==◌, ◌||◌}
use b80_key.Att.{handle, device_information_mod_name_cd_h, device_information_serial_n_cd_h}
use b80_key.Att.Declared.{declares_next, is_grouped, my_attributes_lem}
use b80_key.Att.Serial.{my_serial_str, my_serial_str_lem, hex2bin, mixed_uid}

my_attributes_example :
    (declares_next 34
      ≡ not (
          34 == handle device_information_mod_name_cd_h
          || 34 == handle device_information_serial_n_cd_h))
    × (is_grouped 34 ≡ true)
unfolding handle
my_attributes_example = my_attributes_lem 34 (omega arith)

my_serial_str_example :
    let str = my_serial_str (1 ∷ 2 ∷ 255 ∷ []) (9 ∷ 8 ∷ 7 ∷ []) (replicate 16 5) in
    (length str ≡ 20)
    × (hex2bin (take 6 str) ≡ 1 ∷ 2 ∷ 255 ∷ [])
    × (hex2bin (take 6 (drop 7 str)) ≡ 9 ∷ 8 ∷ 7 ∷ [])
    × (hex2bin (drop 14 str) ≡ take 3 (mixed_uid (replicate 16 5)))
my_serial_str_example = my_serial_str_lem 1 2 255 9 8 7 (replicate 16 5) (omega arith) (omega arith)
