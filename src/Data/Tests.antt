-- ===== src/Data/Tests.antt =====
-- Concrete settings for src/app_data.c.
use b80_key.Prelude.{◌+◌, ◌*◌, ◌≡◌, refl, some, arith, [], ◌∷◌, drop, set, replicate}
use b80_key.Eep.Config.{size, flash_read_cfg, u32_bytes}
use b80_key.Eep.Tests.{nor, memory, records, memory-Holds, records-IsPackable, records-packed}
use b80_key.Data.{
  Settings, strlen, test_dev_cfg, save_dev_name, save_dev_cfg, load_dev_cfg, load_pincode,
  load_bindkey, temperature_cfg_def,
}
use b80_key.Data.Limits.{
  IsValid, nonzero, test_dev_cfg-IsValid, measure_interval_lem, save_dev_name-len,
}
use b80_key.Data.Stored.{load_pincode_lem, load_bindkey_lem, load-save_dev_cfg}

-- Settings out of their limits, with the name "BEST".
abbrev pub settings : Settings
settings = record {
  dev_cfg = record { adv_interval = 40; measured_intervals = 0; rf_power = 0; flags = 1; pad = 0 };
  tbl_scan_rsp = record { len = 4; id = 9; name = 66 ∷ 69 ∷ 83 ∷ 84 ∷ replicate 17 0 };
  temperature_cfg = temperature_cfg_def;
  pincode = 0;
  bindkey = replicate 16 0;
  measure_interval = some 0;
}

test_dev_cfg_example : IsValid (test_dev_cfg 7 settings)
test_dev_cfg_example = test_dev_cfg-IsValid 7 settings (omega arith) refl

measure_interval_example :
    let w' = test_dev_cfg 7 settings in
    w'.measure_interval ≡ some (w'.dev_cfg.adv_interval * w'.dev_cfg.measured_intervals * 10000)
measure_interval_example = measure_interval_lem 7 settings (omega arith)

-- The name "KEY" put over "BEST".
save_dev_name_example :
    (save_dev_name nor 7 settings memory (75 ∷ 69 ∷ 89 ∷ []) 3).0.tbl_scan_rsp.len
    ≡ 3 + strlen (set (drop 3 settings.tbl_scan_rsp.name) 17 0)
unfolding nonzero
save_dev_name_example =
    save_dev_name-len nor memory 7 settings (75 ∷ 69 ∷ 89 ∷ []) refl (omega arith) (omega arith)
      refl

load_pincode_example :
    let (loaded, m') = load_pincode nor 0 memory in
    (loaded ≡ 0) × (flash_read_cfg nor m' 3 4 ≡ (size 4, u32_bytes 0, m'))
load_pincode_example =
    load_pincode_lem nor memory 0xC000 records memory-Holds records-IsPackable 0
      (omega (arith, records-packed))

load_bindkey_example :
    let (key, m') = load_bindkey nor (8 ∷ replicate 15 3) memory in
    flash_read_cfg nor m' 5 16 ≡ (size 16, key, m')
load_bindkey_example =
    load_bindkey_lem nor memory 0xC000 records memory-Holds records-IsPackable 8 (replicate 15 3)
      refl (omega arith) (omega (arith, records-packed))

save_dev_cfg_example :
    let (w', m') = save_dev_cfg nor 7 settings memory in load_dev_cfg nor 7 m' ≡ (w'.dev_cfg, m')
save_dev_cfg_example =
    load-save_dev_cfg nor memory 0xC000 records memory-Holds records-IsPackable 7 settings
      (omega arith) (omega arith) (omega (arith, records-packed))
