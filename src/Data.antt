-- ===== src/Data.antt =====
-- src/app_data.c and the configuration part of src/app_soc_temp.c: the settings in RAM, their limits,
-- and how they are saved to and loaded from the object store.
pub mod Limits
pub mod Stored
pub mod Restart
pub mod First
pub mod Name
pub mod Settled
pub mod Update
mod RestartTests
pub mod SettledTests
pub mod Tests
use b80_key.Prelude.{
  ℕ, zero, suc, ◌+◌, ◌-◌, ◌*◌, ◌/◌, ◌%◌, ◌^◌, List, [], ◌∷◌, ◌++◌, Bool, true, false, ◌&&◌, ◌||◌,
  Option, none, some,
}
use b80_key.Prelude.{ltb, leb, ◌==◌, if◌then◌else◌, set, take, drop, get_or, length}
use b80_key.Flash.{Mem, Flash}
use b80_key.Eep.Config.{
  Reply, size, fmem_not_found, fmem_size_err, fmem_overflow, flash_write_cfg, flash_read_cfg,
  flash_supported_eep_ver, u32_bytes, u32_of,
}

-- dev_config_t: six bytes, the last one padding.
pub record DevConfig : Type 0 where
  pub adv_interval : ℕ
  pub measured_intervals : ℕ
  pub rf_power : ℕ
  pub flags : ℕ
  pub pad : ℕ

-- tbl_scanRsp_t
pub record ScanRsp : Type 0 where
  pub len : ℕ
  pub id : ℕ
  pub name : List ℕ

-- temperature_cfg_t
pub record TemperatureCfg : Type 0 where
  pub coef : ℕ
  pub zero_point : ℕ

-- What test_dev_cfg and load_config write: dev_cfg, tbl_scanRsp, temperature.cfg, pincode, bindkey
-- and wrk.measureInterval, which has no value where the product overflows.
pub record Settings : Type 0 where
  pub dev_cfg : DevConfig
  pub tbl_scan_rsp : ScanRsp
  pub temperature_cfg : TemperatureCfg
  pub pincode : ℕ
  pub bindkey : List ℕ
  pub measure_interval : Option ℕ

abbrev pub adv_interval_50ms : ℕ
adv_interval_50ms = 80

abbrev pub adv_interval_10_24s : ℕ
adv_interval_10_24s = 16384

abbrev pub max_dev_name_len : ℕ
max_dev_name_len = 20

-- DT_COMPLETE_LOCAL_NAME
abbrev pub dt_complete_local_name : ℕ
dt_complete_local_name = 9

-- "BEST" with its terminator
abbrev pub def_dev_name : List ℕ
def_dev_name = 66 ∷ 69 ∷ 83 ∷ 84 ∷ 0 ∷ []

-- strlen, on a buffer that ends at its end at the latest
unfoldable pub strlen : List ℕ → ℕ
strlen [] = 0
strlen (c ∷ cs) = if c == 0 then 0 else suc (strlen cs)

-- memcpy of `src` to the start of `dst`
abbrev pub overwrite : List ℕ → List ℕ → List ℕ
overwrite dst src = src ++ drop (length src) dst

abbrev pub limit_adv_interval : ℕ → ℕ
limit_adv_interval adv =
    if ltb adv_interval_10_24s adv
    then adv_interval_10_24s
    else if ltb adv adv_interval_50ms
    then adv_interval_50ms
    else adv

abbrev pub limit_name : List ℕ → ScanRsp
limit_name name =
    let name' = set name max_dev_name_len 0 in
    let len = strlen name' in
    if len == 0 || ltb max_dev_name_len len
    then record {
      len = length def_dev_name;
      id = dt_complete_local_name;
      name = overwrite name' def_dev_name;
    }
    else record { len = len; id = dt_complete_local_name; name = name' }

-- The value of a signed int, which C leaves undefined where it does not fit
abbrev pub int_value : ℕ → Option ℕ
int_value n = if ltb n (2 ^ 31) then some n else none

-- `rf_index` is MY_RF_POWER_INDEX, a constant of the vendor's headers.
unfoldable pub test_dev_cfg : ℕ → Settings → Settings
test_dev_cfg rf_index w =
    let c = w.dev_cfg in
    let adv = limit_adv_interval c.adv_interval in
    let measured = if ltb c.measured_intervals 1 then 1 else c.measured_intervals in
    record w {
      dev_cfg = record c {
        adv_interval = adv;
        measured_intervals = measured;
        rf_power = if c.rf_power == 0 then rf_index else c.rf_power;
      };
      tbl_scan_rsp = limit_name w.tbl_scan_rsp.name;
      measure_interval = int_value (adv * measured * 10000);
    }

abbrev pub eep_id_dev_cfg : ℕ
eep_id_dev_cfg = 1

abbrev pub eep_id_dev_name : ℕ
eep_id_dev_name = 2

abbrev pub eep_id_pincode : ℕ
eep_id_pincode = 3

abbrev pub eep_id_temp_cfg : ℕ
eep_id_temp_cfg = 4

abbrev pub eep_id_bkey : ℕ
eep_id_bkey = 5

abbrev pub dev_cfg_bytes : DevConfig → List ℕ
dev_cfg_bytes c =
    c.adv_interval % 256
    ∷ c.adv_interval / 256 % 256
    ∷ c.measured_intervals
    ∷ c.rf_power
    ∷ c.flags
    ∷ c.pad
    ∷ []

abbrev pub dev_cfg_of : List ℕ → DevConfig
dev_cfg_of bs = record {
  adv_interval = get_or bs 0 0 + 256 * get_or bs 1 0;
  measured_intervals = get_or bs 2 0;
  rf_power = get_or bs 3 0;
  flags = get_or bs 4 0;
  pad = get_or bs 5 0;
}

abbrev pub dev_cfg_def : ℕ → DevConfig
dev_cfg_def rf_index = record {
  adv_interval = 8000;
  measured_intervals = 2;
  rf_power = rf_index;
  flags = 0;
  pad = 0;
}

abbrev pub temp_cfg_bytes : TemperatureCfg → List ℕ
temp_cfg_bytes c =
    c.coef % 256 ∷ c.coef / 256 % 256 ∷ c.zero_point % 256 ∷ c.zero_point / 256 % 256 ∷ []

abbrev pub temp_cfg_of : List ℕ → TemperatureCfg
temp_cfg_of bs = record {
  coef = get_or bs 0 0 + 256 * get_or bs 1 0;
  zero_point = get_or bs 2 0 + 256 * get_or bs 3 0;
}

abbrev pub temperature_cfg_def : TemperatureCfg
temperature_cfg_def = record { coef = 10500; zero_point = 57400 }

-- reply == n, and reply > 0
abbrev pub is_size : Reply → ℕ → Bool
is_size (size k) n = k == n
is_size _ n = false

abbrev pub is_positive : Reply → Bool
is_positive (size k) = ltb 0 k
is_positive _ = false

module _ (d : Flash) where
  unfoldable pub save_dev_name : ℕ → Settings → Mem → List ℕ → ℕ → Settings × Mem
  save_dev_name rf_index w m pname len =
      let named = record w {
        tbl_scan_rsp = record (w.tbl_scan_rsp) {
          name = overwrite w.tbl_scan_rsp.name (take len pname);
        };
      } in
      let w' = test_dev_cfg rf_index named in
      (w', (flash_write_cfg d m w'.tbl_scan_rsp.name eep_id_dev_name w'.tbl_scan_rsp.len).1)

  unfoldable pub save_dev_cfg : ℕ → Settings → Mem → Settings × Mem
  save_dev_cfg rf_index w m =
      let w' = test_dev_cfg rf_index w in
      (w', (flash_write_cfg d m (dev_cfg_bytes w'.dev_cfg) eep_id_dev_cfg 6).1)

  unfoldable pub save_temp_cfg : TemperatureCfg → Mem → Mem
  save_temp_cfg c m = (flash_write_cfg d m (temp_cfg_bytes c) eep_id_temp_cfg 4).1

  unfoldable pub load_temp_cfg : Mem → TemperatureCfg × Mem
  load_temp_cfg m =
      let (reply, bs, m') = flash_read_cfg d m eep_id_temp_cfg 4 in
      (if is_size reply 4 then temp_cfg_of bs else temperature_cfg_def, m')

  -- The parts of load_config, in the order of the code
  unfoldable pub load_name : List ℕ → Mem → List ℕ × Mem
  load_name name m =
      let (reply, bs, m') = flash_read_cfg d m eep_id_dev_name max_dev_name_len in
      let name' = overwrite name bs in (if is_positive reply then name' else set name' 0 0, m')

  unfoldable pub load_dev_cfg : ℕ → Mem → DevConfig × Mem
  load_dev_cfg rf_index m =
      let (reply, bs, m') = flash_read_cfg d m eep_id_dev_cfg 6 in
      (if is_size reply 6 then dev_cfg_of bs else dev_cfg_def rf_index, m')

  -- flash_write_cfg, where the others call flash_read_cfg
  unfoldable pub load_pincode : ℕ → Mem → ℕ × Mem
  load_pincode pincode m =
      let (reply, m') = flash_write_cfg d m (u32_bytes pincode) eep_id_pincode 4 in
      (if is_size reply 4 then pincode else 0, m')

  -- `random` is what generateRandomNum writes.
  unfoldable pub load_bindkey : List ℕ → Mem → List ℕ × Mem
  load_bindkey random m =
      let (reply, bs, m') = flash_read_cfg d m eep_id_bkey 16 in
      if is_size reply 16
      then (bs, m')
      else (random, (flash_write_cfg d m' random eep_id_bkey 16).1)

  -- BOARD is 1 and VERSION_BCD 0x0100.
  unfoldable pub load_config : ℕ → List ℕ → Settings → Mem → Settings × Mem
  load_config rf_index random w m =
      let m1 = (flash_supported_eep_ver d m 1 0x01000001).1 in
      let (name, m2) = load_name w.tbl_scan_rsp.name m1 in
      let (temperature, m3) = load_temp_cfg m2 in
      let (config, m4) = load_dev_cfg rf_index m3 in
      let (pin, m5) = load_pincode w.pincode m4 in
      let (key, m6) = load_bindkey random m5 in
      (
        test_dev_cfg rf_index (record w {
          tbl_scan_rsp = record (w.tbl_scan_rsp) { name = name };
          temperature_cfg = temperature;
          dev_cfg = config;
          pincode = pin;
          bindkey = key;
        }),
        m6,
      )
