-- ===== src/Data/Restart.antt =====
-- load_config of src/app_data.c on a store that an earlier run has left.
use b80_key.Prelude.{
  ◌==◌, if◌then◌else◌, ℕ, ◌<◌, ◌≡◌, ◌∙◌, refl, ap, inl, inr, arith, List, some, true, false,
}
use b80_key.Flash.{Mem, Flash, sector_size}
use b80_key.Eep.{Obj}
use b80_key.Eep.Log.{All}
use b80_key.Eep.Compact.{visible}
use b80_key.Eep.Config.{Reply, flash_supported_eep_ver}
use b80_key.Eep.Holds.{Holds}
use b80_key.Eep.Repack.{IsPackable}
use b80_key.Eep.Switch.{packed_end}
use b80_key.Eep.Store.{value, Written, flash_read_cfg_lem}
use b80_key.Eep.ReadBack.{value_of_visible}
use b80_key.Eep.Version.{accepts, flash_supported_eep_ver_lem}
use b80_key.Data.{
  DevConfig, TemperatureCfg, Settings, test_dev_cfg, load_name, load_temp_cfg, load_dev_cfg,
  load_config, dev_cfg_bytes, temp_cfg_bytes,
}
use b80_key.Data.Stored.{dev_cfg_of-dev_cfg_bytes, temp_cfg_of-temp_cfg_bytes}

-- Writing one object keeps the others.
kept :
    (log : List Obj) (id : ℕ) (bs : List ℕ) (r : Reply × Mem) (w : Written log id bs r) (k : ℕ)
    → k < 255
    → (k == id) ≡ false
    → visible (value k w.log') ≡ visible (value k log)
kept log id bs r w k small other = elim w.reply [
  | inl (e, up) ↦
      up k small ∙ ap (λ b. if b then visible (some bs) else visible (value k log)) other
  | inr (e, full, same) ↦ same k small
]

module _ (d : Flash) (m : Mem) (s : ℕ) (log : List Obj) (h : Holds m s log) where
  mem-load_name : (name : List ℕ) → (load_name d name m).1 ≡ m
  unfolding load_name
  mem-load_name name = rw (flash_read_cfg_lem d m s log h 2 20 (omega arith) (omega arith)) refl

  pub load_temp_cfg-value :
      (c : TemperatureCfg)
      → c.coef < 65536
      → c.zero_point < 65536
      → value 4 log ≡ some (temp_cfg_bytes c)
      → load_temp_cfg d m ≡ (c, m)
  unfolding load_temp_cfg
  load_temp_cfg-value c p q there =
      rw
        (
          flash_read_cfg_lem d m s log h 4 4 (omega arith) (omega arith),
          there,
          temp_cfg_of-temp_cfg_bytes c p q,
        )
        refl

  pub load_dev_cfg-value :
      (rf_index : ℕ) (c : DevConfig)
      → c.adv_interval < 65536
      → value 1 log ≡ some (dev_cfg_bytes c)
      → load_dev_cfg d rf_index m ≡ (c, m)
  unfolding load_dev_cfg
  load_dev_cfg-value rf_index c p there =
      rw
        (
          flash_read_cfg_lem d m s log h 1 6 (omega arith) (omega arith),
          there,
          dev_cfg_of-dev_cfg_bytes c p,
        )
        refl

module _ (d : Flash) (m : Mem) (s : ℕ) (log : List Obj) (h : Holds m s log) where
  -- On a sector that holds a log whose packed form fits, with a version that is accepted: load_config
  -- takes the configuration and the calibration that the log has, whose fields fit 16 bits, with
  -- the limits of test_dev_cfg.
  pub load_config_lem :
      (rf_index : ℕ) (random : List ℕ) (w : Settings) (c : DevConfig) (t : TemperatureCfg)
      → All IsPackable log
      → packed_end log < sector_size
      → accepts (value 0 log) 1 0x01000001 ≡ true
      → value 1 log ≡ some (dev_cfg_bytes c)
      → value 4 log ≡ some (temp_cfg_bytes t)
      → c.adv_interval < 65536
      → t.coef < 65536
      → t.zero_point < 65536
      → let w' = (load_config d rf_index random w m).0 in
        (w'.dev_cfg ≡ (test_dev_cfg rf_index (record w { dev_cfg = c })).dev_cfg)
        × (w'.temperature_cfg ≡ t)
  unfolding load_config test_dev_cfg
  load_config_lem rf_index random w c t pk room accepted config calibration p q r =
      let new_ver : ℕ = 0x01000001 in
      let m1 = (flash_supported_eep_ver d m 1 new_ver).1 in
      elim (flash_supported_eep_ver_lem d m s log h 1 new_ver pk room) [
        | inl (e, is_new, leaves) ↦
            let a = leaves.written in
            let config1 : value 1 a.log' ≡ some (dev_cfg_bytes c) =
              value_of_visible (value 1 a.log') _ _
                (kept log 0 _ _ a 1 (omega arith) refl ∙ ap visible config) in
            let calibration1 : value 4 a.log' ≡ some (temp_cfg_bytes t) =
              value_of_visible (value 4 a.log') _ _
                (kept log 0 _ _ a 4 (omega arith) refl ∙ ap visible calibration) in
            let temp : load_temp_cfg d (load_name d w.tbl_scan_rsp.name m1).1 ≡ (t, m1) =
              ap (load_temp_cfg d) (mem-load_name d m1 a.at a.log' a.holds w.tbl_scan_rsp.name)
              ∙ load_temp_cfg-value d m1 a.at a.log' a.holds t q r calibration1 in
            let dev =
              ap (λ x. load_dev_cfg d rf_index x.1) temp
              ∙ load_dev_cfg-value d m1 a.at a.log' a.holds rf_index c p config1 in
            (
              ap (λ x. (test_dev_cfg rf_index (record w { dev_cfg = x.0 })).dev_cfg) dev,
              ap (λ x. x.0) temp,
            )
        | inr (e, gone, rest) ↦ cc
      ]
