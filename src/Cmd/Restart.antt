-- ===== src/Cmd/Restart.antt =====
-- A command of src/app_cmd.c and the start after it.
use b80_key.Prelude.{ℕ, ◌+◌, ◌<◌, ◌≡◌, ◌≢◌, ◌∙◌, refl, arith}
use b80_key.Prelude.{List, [], ◌∷◌, ◌++◌, false, ◌==◌, length, take, take-all}
use b80_key.Flash.{Mem, Flash, sector_size}
use b80_key.Eep.{Obj}
use b80_key.Eep.Log.{IsByte, All}
use b80_key.Eep.Config.{flash_write_cfg}
use b80_key.Eep.Holds.{Holds}
use b80_key.Eep.Repack.{IsPackable}
use b80_key.Eep.Switch.{packed_end}
use b80_key.Eep.Store.{Written, flash_write_cfg_lem}
use b80_key.Data.{
  DevConfig, TemperatureCfg, Settings, test_dev_cfg, dev_cfg_bytes, dev_cfg_of, temp_cfg_bytes,
  temp_cfg_of, load_config, save_dev_cfg, save_temp_cfg,
}
use b80_key.Data.Stored.{IsPacked, test_dev_cfg-IsPacked}
use b80_key.Data.Settled.{IsSettled, load_config-IsSettled}
use b80_key.Data.Update.{
  with_room, config-IsSettled, calibration-IsSettled, bindkey-IsSettled, test_dev_cfg-again,
}
use b80_key.Cmd.Buffer.{take-append_left}
use b80_key.Cmd.Ids.{cmd_value}
use b80_key.Cmd.{Device, Chip, dev_config, sensor_config, bind_key, switch, app_on_write_data}

-- What load_config finds at the next start, with a pincode of 0 in RAM
abbrev pub Restarts :
    Flash → ℕ → List ℕ → Settings → Mem → DevConfig → TemperatureCfg → List ℕ → Type 0
Restarts d rf_index random w m c t key =
    let (w', m') = load_config d rf_index random w m in
    (w'.dev_cfg ≡ c) × (w'.temperature_cfg ≡ t) × (w'.bindkey ≡ key) × (m' ≡ m)

IsStored-Restarts :
    (d : Flash) (rf_index : ℕ) (random : List ℕ) (w : Settings) (m : Mem) (s : ℕ) (log : List Obj)
    (c : DevConfig) (t : TemperatureCfg) (key : List ℕ)
    → Holds m s log
    → IsSettled rf_index log c t key
    → w.pincode ≡ 0
    → Restarts d rf_index random w m
        (test_dev_cfg rf_index (record w { dev_cfg = c })).dev_cfg
        t
        key
unfolding test_dev_cfg
IsStored-Restarts d rf_index random w m s log c t key h i off =
    rw (load_config-IsSettled d m s log h rf_index c t key i random w off) (refl, refl, refl, refl)

module _ (d : Flash) (v : Chip) (s : Device) (sector : ℕ) (log : List Obj)
    (h : Holds s.mem sector log) (pk : All IsPackable log) (on : s.rx_tx_value_in_ccc ≢ 0)
    (c : DevConfig) (t : TemperatureCfg) (key : List ℕ) (i : IsSettled v.rf_index log c t key)
    (random : List ℕ) (w : Settings) (off : w.pincode ≡ 0) where
  heard : s.rx_tx_value_in_ccc == 0 ≡ false
  heard = ground (arith, on)

  -- A configuration that a client has set by a command, with room in the store and all the other
  -- objects of the program stored, is the current one after the next start with the pincode 0 in RAM;
  -- the calibration and the bindkey are those that were stored, and the start writes nothing.
  pub load_config-dev_config :
      (b0 b1 b2 b3 b4 b5 : ℕ) (rest : List ℕ)
      → All IsByte (b0 ∷ b1 ∷ b2 ∷ b3 ∷ b4 ∷ b5 ∷ [])
      → v.rf_index < 256
      → packed_end log + 8 < sector_size
      → let s' =
          (app_on_write_data d v s
            (record { l2cap_len = 10; dat = 0x55 ∷ b0 ∷ b1 ∷ b2 ∷ b3 ∷ b4 ∷ b5 ∷ rest })).0 in
        Restarts d v.rf_index random w s'.mem s'.settings.dev_cfg t key
  unfolding app_on_write_data switch cmd_value dev_config save_dev_cfg
  load_config-dev_config b0 b1 b2 b3 b4 b5 rest (p0, (p1, (p2, (p3, (p4, (p5, _)))))) small room =
      let w0 = record (s.settings) { dev_cfg = dev_cfg_of (b0 ∷ b1 ∷ b2 ∷ b3 ∷ b4 ∷ b5 ∷ []) } in
      let packed : IsPacked w0.dev_cfg = record {
        adv_interval = omega (arith, p0, p1);
        measured_intervals = p2;
        rf_power = p3;
        flags = p4;
        pad = p5;
      } in
      let c' = (test_dev_cfg v.rf_index w0).dev_cfg in
      let p = test_dev_cfg-IsPacked v.rf_index w0 small packed in
      let written =
        flash_write_cfg_lem d s.mem sector log h (dev_cfg_bytes c') 1 6 pk (omega (arith, room))
          (omega arith) (omega arith) (omega arith)
          (
            omega arith,
            (omega arith, (p.measured_intervals, (p.rf_power, (p.flags, (p.pad, tt))))),
          ) in
      let st =
        with_room d log 1 (dev_cfg_bytes c') (flash_write_cfg d s.mem (dev_cfg_bytes c') 1 6)
          written room in
      let i' = config-IsSettled v.rf_index log st.log' c t key i c' p.adv_interval st.update in
      let r =
        IsStored-Restarts d v.rf_index random w (flash_write_cfg d s.mem (dev_cfg_bytes c') 1 6).1
          st.at st.log' c' t key st.holds i' off in
      rw heard (r.0 ∙ test_dev_cfg-again v.rf_index w0 w, r.1, r.2, r.3)

  -- The same for the calibration of the sensor.
  pub load_config-sensor_config :
      (b0 b1 b2 b3 : ℕ) (rest : List ℕ)
      → All IsByte (b0 ∷ b1 ∷ b2 ∷ b3 ∷ [])
      → packed_end log + 6 < sector_size
      → let s' =
          (app_on_write_data d v s
            (record { l2cap_len = 8; dat = 0x25 ∷ b0 ∷ b1 ∷ b2 ∷ b3 ∷ rest })).0 in
        Restarts d v.rf_index random w s'.mem
          (test_dev_cfg v.rf_index (record w { dev_cfg = c })).dev_cfg
          s'.settings.temperature_cfg
          key
  unfolding app_on_write_data switch cmd_value sensor_config save_temp_cfg
  load_config-sensor_config b0 b1 b2 b3 rest (p0, (p1, (p2, (p3, _)))) room =
      let t' = temp_cfg_of (b0 ∷ b1 ∷ b2 ∷ b3 ∷ []) in
      let bs = temp_cfg_bytes t' in
      let written =
        flash_write_cfg_lem d s.mem sector log h bs 4 4 pk (omega (arith, room)) (omega arith)
          (omega arith) (omega arith) (omega arith) in
      let st = with_room d log 4 bs (flash_write_cfg d s.mem bs 4 4) written room in
      let i' =
        calibration-IsSettled v.rf_index log st.log' c t key i t' (omega (arith, p0, p1))
          (omega (arith, p2, p3)) st.update in
      rw heard (
        IsStored-Restarts d v.rf_index random w (flash_write_cfg d s.mem bs 4 4).1 st.at st.log' c
          t' key st.holds i' off)

  -- A bindkey that a client has set by a command, under the same conditions, is the one that the next
  -- start loads, with the configuration and the calibration that were stored.
  pub load_config-bind_key :
      (b : ℕ) (bs rest : List ℕ)
      → length bs ≡ 15
      → All IsByte (b ∷ bs)
      → packed_end log + 18 < sector_size
      → let s' =
          (app_on_write_data d v s (record { l2cap_len = 20; dat = 0x18 ∷ b ∷ (bs ++ rest) })).0 in
        (s'.settings.bindkey ≡ b ∷ bs)
        × Restarts d v.rf_index random w s'.mem
            (test_dev_cfg v.rf_index (record w { dev_cfg = c })).dev_cfg
            t
            (b ∷ bs)
  unfolding app_on_write_data switch cmd_value bind_key
  load_config-bind_key b bs rest long bytes room =
      let kept : take 15 bs ≡ bs = take-all 15 bs (omega (arith, long)) in
      let cut : take 15 (bs ++ rest) ≡ bs =
        take-append_left 15 bs rest (omega (arith, long)) ∙ kept in
      let stored =
        flash_write_cfg_lem d s.mem sector log h (b ∷ bs) 5 16 pk (omega (arith, room))
          (omega arith) (omega arith) (omega (arith, long)) bytes in
      let written : Written log 5 (b ∷ bs) (flash_write_cfg d s.mem (b ∷ bs) 5 16) =
        rw kept at stored in
      let st =
        with_room d log 5 (b ∷ bs) (flash_write_cfg d s.mem (b ∷ bs) 5 16) written
          (omega (arith, room, long)) in
      let i' = bindkey-IsSettled v.rf_index log st.log' c t key i b bs long st.update in
      rw (heard, cut)
        (
          refl,
          IsStored-Restarts d v.rf_index random w (flash_write_cfg d s.mem (b ∷ bs) 5 16).1 st.at
              st.log' c t (b ∷ bs) st.holds i' off,
        )
