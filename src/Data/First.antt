-- ===== src/Data/First.antt =====
-- load_config of src/app_data.c on a flash that has no settings of this version of the program.
use b80_key.Prelude.{
  ℕ, ◌≡◌, inr, refl, arith, leb, true, List, [], ◌∷◌, false, length, take, take-all,
}
use b80_key.Flash.{Mem, Flash}
use b80_key.Eep.{Obj, eep_base}
use b80_key.Eep.Log.{IsByte, All, latest, log_end}
use b80_key.Eep.Config.{flash_supported_eep_ver, flash_erase_all_cfg, flash_write_cfg, u32_bytes}
use b80_key.Eep.Holds.{Holds}
use b80_key.Eep.Append.{object, flash_write_cfg-append}
use b80_key.Eep.Store.{value, flash_read_cfg_lem}
use b80_key.Eep.Fresh.{
  NoSector, fresh, fresh-Holds, flash_write_cfg-NoSector, flash_read_cfg-NoSector,
  flash_erase_all_cfg-NoSector,
}
use b80_key.Eep.Version.{accepts, accepts_lem, u32_bytes-IsByte}
use b80_key.Data.{
  Settings, test_dev_cfg, load_pincode, load_bindkey, load_config, dev_cfg_def, temperature_cfg_def,
}
use b80_key.Data.Settled.{
  IsSettled, stored_name, load_dev_cfg-IsConfig, load_temp_cfg-IsCalibration, load_name-stored,
  load_config-IsSettled,
}

abbrev pub ver_object : Obj
ver_object = object 0 (u32_bytes 0x01000001)

abbrev pub pin_object : Obj
pin_object = object 3 (u32_bytes 0)

-- What the first start leaves in the store
abbrev pub first_log : List ℕ → List Obj
first_log key = ver_object ∷ pin_object ∷ object 5 key ∷ []

-- No sector is marked, or the log of the current one has no version that is accepted.
pub data IsNew (m : Mem) : Type 0 where
  unmarked : NoSector m → IsNew m
  other_version :
      (s : ℕ) (log : List Obj)
      → Holds m s log
      → accepts (value 0 log) 1 0x01000001 ≡ false
      → IsNew m

module _ (d : Flash) where
  -- The version is the first record after the store was erased.
  version-after_erase :
      (m : Mem)
      → Holds
          (flash_write_cfg d (flash_erase_all_cfg d m) (u32_bytes 0x01000001) 0 4).1
          eep_base
          (ver_object ∷ [])
  unfolding latest log_end
  version-after_erase m =
      let erased = flash_erase_all_cfg d m in
      let gone = flash_erase_all_cfg-NoSector d m in
      rw (flash_write_cfg-NoSector d erased gone (u32_bytes 0x01000001) 0 4 (omega arith)) (
        (flash_write_cfg-append d (fresh d erased) eep_base [] (fresh-Holds d erased gone)
          (u32_bytes 0x01000001) 0 4 (omega arith) (omega arith) (omega arith)
          (u32_bytes-IsByte 0x01000001) refl (omega arith)).1)

  version-IsNew :
      (m : Mem)
      → IsNew m
      → Holds (flash_supported_eep_ver d m 1 0x01000001).1 eep_base (ver_object ∷ [])
  unfolding flash_supported_eep_ver latest
  version-IsNew m (unmarked gone) =
      rw
        (
          flash_read_cfg-NoSector d m gone 0 4 (omega arith),
          flash_read_cfg_lem d (fresh d m) eep_base [] (fresh-Holds d m gone) 0 4 (omega arith)
              (omega arith),
        )
        (version-after_erase (fresh d m))
  version-IsNew m (other_version s log h refused) =
      rw
        (
          flash_read_cfg_lem d m s log h 0 4 (omega arith) (omega arith),
          accepts_lem (value 0 log) 1 0x01000001,
          refused,
        )
        (version-after_erase m)

  load_pincode-first :
      (m : Mem)
      → Holds m eep_base (ver_object ∷ [])
      → let (pin, m') = load_pincode d 0 m in
        (pin ≡ 0) × Holds m' eep_base (ver_object ∷ pin_object ∷ [])
  unfolding load_pincode latest log_end
  load_pincode-first m h =
      let w =
        flash_write_cfg-append d m eep_base (ver_object ∷ []) h (u32_bytes 0) 3 4 (omega arith)
          (omega arith) (omega arith) (u32_bytes-IsByte 0) refl (omega arith) in
      rw w.0 (refl, w.1)

  load_bindkey-first :
      (m : Mem) (key : List ℕ)
      → Holds m eep_base (ver_object ∷ pin_object ∷ [])
      → length key ≡ 16
      → All IsByte key
      → let (k, m') = load_bindkey d key m in (k ≡ key) × Holds m' eep_base (first_log key)
  unfolding load_bindkey latest log_end
  load_bindkey-first m key h long bytes =
      let log = ver_object ∷ pin_object ∷ [] in
      let whole : take 16 key ≡ key = take-all 16 key (omega (arith, long)) in
      let bytes' : All IsByte (take 16 key) = rw whole bytes in
      let w =
        flash_write_cfg-append d m eep_base log h key 5 16 (omega arith) (omega arith)
          (omega (arith, long)) bytes' refl (omega arith) in
      let held : Holds (flash_write_cfg d m key 5 16).1 eep_base (first_log key) =
        rw whole at w.1 in
      rw (flash_read_cfg_lem d m eep_base log h 5 16 (omega arith) (omega arith)) (refl, held)

  pub first_log-IsSettled :
      (rf_index : ℕ) (key : List ℕ)
      → length key ≡ 16
      → IsSettled rf_index (first_log key) (dev_cfg_def rf_index) temperature_cfg_def key
  unfolding latest
  first_log-IsSettled rf_index key long =
      let fits : leb (length key) 32 ≡ true = ground (arith, long) in
      record {
        version = rw fits refl;
        config = inr (rw fits refl, refl);
        pincode = rw fits refl;
        calibration = inr (rw fits refl, refl);
        bindkey = rw fits refl;
        key_size = long;
      }

  -- The settings of the first start
  abbrev pub first_settings : ℕ → List ℕ → Settings → Settings
  first_settings rf_index key w = test_dev_cfg rf_index (record w {
    tbl_scan_rsp = record (w.tbl_scan_rsp) {
      name = stored_name (ver_object ∷ []) w.tbl_scan_rsp.name;
    };
    temperature_cfg = temperature_cfg_def;
    dev_cfg = dev_cfg_def rf_index;
    pincode = 0;
    bindkey = key;
  })

  pub load_config-first :
      (rf_index : ℕ) (random : List ℕ) (w : Settings) (m : Mem)
      → IsNew m
      → w.pincode ≡ 0
      → length random ≡ 16
      → All IsByte random
      → let (w', m') = load_config d rf_index random w m in
        (w' ≡ first_settings rf_index random w) × Holds m' eep_base (first_log random)
  unfolding load_config latest
  load_config-first rf_index random w m new off long bytes =
      let m1 = (flash_supported_eep_ver d m 1 0x01000001).1 in
      let log = ver_object ∷ [] in
      let h1 : Holds m1 eep_base log = version-IsNew m new in
      let pin = load_pincode-first m1 h1 in
      let m2 = (load_pincode d 0 m1).1 in
      let key = load_bindkey-first m2 random pin.1 long bytes in
      rw
        (
          load_name-stored d m1 eep_base log h1 w.tbl_scan_rsp.name,
          load_temp_cfg-IsCalibration d m1 eep_base log h1 temperature_cfg_def (inr (refl, refl)),
          load_dev_cfg-IsConfig d m1 eep_base log h1 rf_index (dev_cfg_def rf_index)
              (inr (refl, refl)),
          off,
          pin.0,
          key.0,
        )
        (refl, key.1)

  -- On a flash with no marked sector, or whose stored version is not accepted, with 16 random bytes
  -- and the pincode 0 in RAM: the first load_config gives the default configuration and calibration
  -- and takes the random bytes for the bindkey. The next start, with other settings in RAM, other
  -- random bytes and again the pincode 0, has the same configuration, calibration and bindkey, and writes
  -- nothing.
  pub load_config-IsNew :
      (rf_index : ℕ) (random random' : List ℕ) (w w' : Settings) (m : Mem)
      → IsNew m
      → w.pincode ≡ 0
      → w'.pincode ≡ 0
      → length random ≡ 16
      → All IsByte random
      → let (first, m1) = load_config d rf_index random w m in
        let (second, m2) = load_config d rf_index random' w' m1 in
        (first ≡ first_settings rf_index random w)
        × (second.dev_cfg ≡ first.dev_cfg)
        × (second.temperature_cfg ≡ first.temperature_cfg)
        × (second.bindkey ≡ random)
        × (m2 ≡ m1)
  unfolding test_dev_cfg
  load_config-IsNew rf_index random random' w w' m new off off' long bytes =
      let one = load_config-first rf_index random w m new off long bytes in
      let m1 = (load_config d rf_index random w m).1 in
      let i = first_log-IsSettled rf_index random long in
      let two =
        load_config-IsSettled d m1 eep_base (first_log random) one.1 rf_index (dev_cfg_def rf_index)
          temperature_cfg_def random i random' w' off' in
      rw (two, one.0) (refl, refl, refl, refl, refl)
