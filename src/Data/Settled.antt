-- ===== src/Data/Settled.antt =====
-- load_config of src/app_data.c on a store that has all that it writes.
use b80_key.Prelude.{
  ◌⊎◌, inl, inr, sym, Option, none, false, [], ◌∷◌, ℕ, ◌<◌, ◌≡◌, refl, ap, arith, List, some,
  if◌then◌else◌, set, length,
}
use b80_key.Prelude.{take-all}
use b80_key.Flash.{Mem, Flash}
use b80_key.Eep.{Obj}
use b80_key.Eep.Config.{flash_supported_eep_ver, u32_bytes}
use b80_key.Eep.Holds.{Holds}
use b80_key.Eep.Store.{value, answer, flash_read_cfg_lem}
use b80_key.Eep.Unchanged.{flash_write_cfg-unchanged}
use b80_key.Eep.Compact.{visible}
use b80_key.Data.{
  load_dev_cfg, load_temp_cfg, is_size, dev_cfg_def, temperature_cfg_def, DevConfig, TemperatureCfg,
  Settings, is_positive, overwrite, test_dev_cfg, load_name, load_pincode, load_bindkey,
  load_config, dev_cfg_bytes, temp_cfg_bytes,
}
use b80_key.Data.Restart.{load_temp_cfg-value, load_dev_cfg-value}

-- A stored configuration whose fields fit their types, or none and the default
abbrev pub IsConfig : ℕ → Option (List ℕ) → DevConfig → Type 0
IsConfig rf_index v c =
    ((v ≡ some (dev_cfg_bytes c)) × (c.adv_interval < 65536))
    ⊎ ((visible v ≡ none) × (c ≡ dev_cfg_def rf_index))

-- The same for the calibration
abbrev pub IsCalibration : Option (List ℕ) → TemperatureCfg → Type 0
IsCalibration v t =
    ((v ≡ some (temp_cfg_bytes t)) × (t.coef < 65536) × (t.zero_point < 65536))
    ⊎ ((visible v ≡ none) × (t ≡ temperature_cfg_def))

-- The version of the program, the pincode 0 and a bindkey are stored; `c` and `t` are the
-- configuration and the calibration, stored or by default.
pub record IsSettled (rf_index : ℕ) (log : List Obj) (c : DevConfig) (t : TemperatureCfg)
    (key : List ℕ) : Type 0 where
  pub version : value 0 log ≡ some (u32_bytes 0x01000001)
  pub config : IsConfig rf_index (value 1 log) c
  pub pincode : value 3 log ≡ some (u32_bytes 0)
  pub calibration : IsCalibration (value 4 log) t
  pub bindkey : value 5 log ≡ some key
  pub key_size : length key ≡ 16

unread : (v : Option (List ℕ)) (n : ℕ) → visible v ≡ none → 0 < n → is_size (answer v n).0 n ≡ false
unread none n e pos = refl
unread (some []) n e pos = ground (arith, pos)
unread (some (x ∷ xs)) n e pos = cc

-- The name that load_config takes from the store, over the one in RAM
abbrev pub stored_name : List Obj → List ℕ → List ℕ
stored_name log name =
    let (reply, bs) = answer (value 2 log) 20 in
    if is_positive reply then overwrite name bs else set (overwrite name bs) 0 0

module _ (d : Flash) (m : Mem) (s : ℕ) (log : List Obj) (h : Holds m s log) where
  pub load_dev_cfg-IsConfig :
      (rf_index : ℕ) (c : DevConfig)
      → IsConfig rf_index (value 1 log) c
      → load_dev_cfg d rf_index m ≡ (c, m)
  unfolding load_dev_cfg
  load_dev_cfg-IsConfig rf_index c (inl (there, fits)) =
      load_dev_cfg-value d m s log h rf_index c fits there
  load_dev_cfg-IsConfig rf_index c (inr (nothing, e)) =
      rw
        (
          flash_read_cfg_lem d m s log h 1 6 (omega arith) (omega arith),
          unread (value 1 log) 6 nothing (omega arith),
        )
        (ap (λ x. (x, m)) (sym e))

  pub load_temp_cfg-IsCalibration :
      (t : TemperatureCfg) → IsCalibration (value 4 log) t → load_temp_cfg d m ≡ (t, m)
  unfolding load_temp_cfg
  load_temp_cfg-IsCalibration t (inl (there, p, q)) = load_temp_cfg-value d m s log h t p q there
  load_temp_cfg-IsCalibration t (inr (nothing, e)) =
      rw
        (
          flash_read_cfg_lem d m s log h 4 4 (omega arith) (omega arith),
          unread (value 4 log) 4 nothing (omega arith),
        )
        (ap (λ x. (x, m)) (sym e))

  pub load_name-stored : (name : List ℕ) → load_name d name m ≡ (stored_name log name, m)
  unfolding load_name
  load_name-stored name = rw (flash_read_cfg_lem d m s log h 2 20 (omega arith) (omega arith)) refl

module _ (d : Flash) (m : Mem) (s : ℕ) (log : List Obj) (h : Holds m s log) (rf_index : ℕ)
    (c : DevConfig) (t : TemperatureCfg) (key : List ℕ) (i : IsSettled rf_index log c t key) where
  version-unchanged : (flash_supported_eep_ver d m 1 0x01000001).1 ≡ m
  unfolding flash_supported_eep_ver
  version-unchanged =
      rw (flash_read_cfg_lem d m s log h 0 4 (omega arith) (omega arith), i.version)
        (ap (λ r. r.1)
          (flash_write_cfg-unchanged d m s log h (u32_bytes 0x01000001) 0 4 (omega arith)
            (omega arith) (omega arith) i.version))

  load_pincode-stored : load_pincode d 0 m ≡ (0, m)
  unfolding load_pincode
  load_pincode-stored =
      rw
        (flash_write_cfg-unchanged d m s log h (u32_bytes 0) 3 4 (omega arith) (omega arith)
          (omega arith) i.pincode)
        refl

  load_bindkey-stored : (random : List ℕ) → load_bindkey d random m ≡ (key, m)
  unfolding load_bindkey
  load_bindkey-stored random =
      rw
        (
          flash_read_cfg_lem d m s log h 5 16 (omega arith) (omega arith),
          i.bindkey,
          i.key_size,
          take-all 16 key (omega (arith, i.key_size)),
        )
        refl

  -- After the power was off, when the pincode in RAM is 0, on a store that has the version of the
  -- program, the pincode 0 and a bindkey: load_config writes nothing, and the settings are those that
  -- are stored, or the defaults where no configuration or calibration is, the configuration and the
  -- name with the limits of test_dev_cfg.
  pub load_config-IsSettled :
      (random : List ℕ) (w : Settings)
      → w.pincode ≡ 0
      → load_config d rf_index random w m ≡ (
        test_dev_cfg rf_index (record w {
          tbl_scan_rsp = record (w.tbl_scan_rsp) { name = stored_name log w.tbl_scan_rsp.name };
          temperature_cfg = t;
          dev_cfg = c;
          pincode = 0;
          bindkey = key;
        }),
        m,
      )
  unfolding load_config
  load_config-IsSettled random w off =
      rw
        (
          version-unchanged,
          load_name-stored d m s log h w.tbl_scan_rsp.name,
          load_temp_cfg-IsCalibration d m s log h t i.calibration,
          load_dev_cfg-IsConfig d m s log h rf_index c i.config,
          off,
          load_pincode-stored,
          load_bindkey-stored random,
        )
        refl
