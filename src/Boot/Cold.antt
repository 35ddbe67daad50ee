-- ===== src/Boot/Cold.antt =====
-- The start of src/app_main.c after the power was off.
use b80_key.Prelude.{
  ℕ, ◌+◌, ◌≤◌, ◌≡◌, ◌≢◌, ◌⊎◌, inl, inr, ◌∙◌, refl, ap, arith, List, [], ◌∷◌, ◌++◌, Bool, true,
  false, by_test, Bool-cases, min, ◌%◌, if◌then◌else◌, leb, ◌==◌, length, length-set,
}
use b80_key.Flash.{Mem, Flash, length-bytes_at}
use b80_key.Eep.{max_fobj_size, get_addr_bscfg, get_addr_idobj}
use b80_key.Eep.Config.{Reply, flash_read_cfg, flash_supported_eep_ver}
use b80_key.Data.{
  Settings, overwrite, load_config, load_name, eep_id_dev_name, load_pincode, is_positive,
  test_dev_cfg, max_dev_name_len,
}
use b80_key.Data.Limits.{IsValid, test_dev_cfg-IsValid}
use b80_key.Battery.{check_battery_level}
use b80_key.Cmd.Buffer.{length-overwrite}
use b80_key.Boot.{
  InitCall, smp_manual_set_pin_code, Start, System, user_init_normal, app_ble_init, before_battery,
  after_ble,
}

-- The pincodes that are given to the stack
unfoldable pub pin_codes : List InitCall → List ℕ
pin_codes [] = []
pin_codes (smp_manual_set_pin_code p ∷ cs) = p ∷ pin_codes cs
pin_codes (_ ∷ cs) = pin_codes cs

if_same {ℓ} : {A : Type ℓ} (b : Bool) (x : A) → (if b then x else x) ≡ x
if_same true x = refl
if_same false x = refl

module _ (d : Flash) where
  flash_read_cfg-length :
      (m : Mem) (id maxsize : ℕ) → length (flash_read_cfg d m id maxsize).1 ≤ maxsize
  unfolding flash_read_cfg
  flash_read_cfg-length m id maxsize =
      let (saddr, m') = get_addr_bscfg d m in
      let (faddr, rh) = get_addr_idobj d m' (saddr + 2) (record { id = id % 256; size = 0 }) in
      let n = min rh.size maxsize in
      let P : Reply × List ℕ × Mem → Type 0 = λ r. length r.1 ≤ maxsize in
      by_test P (leb maxsize max_fobj_size)
        (λ _.
          by_test P (faddr == 0) (λ _. omega arith)
            (λ _.
              omega
                (arith, ap length (d.read_lem m' (faddr + 2) n), length-bytes_at m' (faddr + 2) n)))
        (λ _. omega arith)

  -- Whatever the flash holds, load_config makes the settings valid.
  load_config-IsValid :
      (rf_index : ℕ) (random : List ℕ) (w : Settings) (m : Mem)
      → rf_index ≢ 0
      → length w.tbl_scan_rsp.name ≡ 21
      → IsValid (load_config d rf_index random w m).0
  unfolding load_config load_name
  load_config-IsValid rf_index random w m some_power buffer =
      let m1 = (flash_supported_eep_ver d m 1 0x01000001).1 in
      let r = flash_read_cfg d m1 eep_id_dev_name max_dev_name_len in
      let old = w.tbl_scan_rsp.name in
      let read : length (overwrite old r.1) ≡ 21 =
        length-overwrite old r.1
          (omega (arith, flash_read_cfg-length m1 eep_id_dev_name max_dev_name_len, buffer))
        ∙ buffer in
      let P : List ℕ → Type 0 = λ l. length l ≡ 21 in
      test_dev_cfg-IsValid rf_index _ some_power
        (by_test P (is_positive r.0) (λ _. read) (λ _. length-set (overwrite old r.1) 0 0 ∙ read))

  load_config-pincode :
      (rf_index : ℕ) (random : List ℕ) (w : Settings) (m : Mem)
      → w.pincode ≡ 0
      → (load_config d rf_index random w m).0.pincode ≡ 0
  unfolding load_config load_pincode test_dev_cfg
  load_config-pincode rf_index random w m off = rw off (if_same _ 0)

  pin_codes-app_ble_init :
      (w : Settings) (more : List InitCall)
      → w.pincode ≡ 0
      → pin_codes (app_ble_init w ++ more) ≡ pin_codes more
  unfolding app_ble_init pin_codes
  pin_codes-app_ble_init w more off = rw off refl

  pin_codes_start :
      (w : Settings)
      → w.pincode ≡ 0
      → pin_codes (before_battery d 0 ++ (app_ble_init w ++ after_ble d 0)) ≡ []
  unfolding pin_codes
  pin_codes_start w off = pin_codes-app_ble_init w (after_ble d 0) off

  -- After the power was off, when the pincode in RAM is 0, with a transmit power constant other than 0 and
  -- the buffer of the name in its size: either the voltage is low, and the chip goes to
  -- sleep without having touched the flash and the settings; or it runs with valid settings,
  -- and without any pincode, whatever the flash holds.
  pub user_init_normal_lem :
      (rf_index : ℕ) (i : Start) (s : System)
      → rf_index ≢ 0
      → length s.settings.tbl_scan_rsp.name ≡ 21
      → s.settings.pincode ≡ 0
      → let low = (check_battery_level true i.vbat s.battery s.voltage).0 in
        let b = user_init_normal d rf_index i s in
        ((low ≡ true) × (b.off ≡ true) × (b.system.mem ≡ s.mem) × (b.system.settings ≡ s.settings))
        ⊎ ((low ≡ false) × (b.off ≡ false) × IsValid b.system.settings × (pin_codes b.calls ≡ []))
  unfolding user_init_normal
  user_init_normal_lem rf_index i s some_power buffer off =
      let w = (load_config d rf_index i.random s.settings s.mem).0 in
      elim (Bool-cases (check_battery_level true i.vbat s.battery s.voltage).0) [
        | inl e ↦ inl (rw e (refl, refl, refl, refl))
        | inr e ↦ inr (
            rw e (
              refl,
              refl,
              load_config-IsValid rf_index i.random s.settings s.mem some_power buffer,
              pin_codes_start w (load_config-pincode rf_index i.random s.settings s.mem off),
            ))
      ]
