-- ===== src/Cmd/Saved.antt =====
-- What the commands of src/app_cmd.c that set something leave in the object store, and what they
-- answer.
use b80_key.Prelude.{ℕ, ◌+◌, ◌%◌, ◌/◌, ◌≤◌, ◌<◌, ◌≡◌, ◌≢◌, ◌⊎◌, inl, inr, ◌∙◌, refl, ap, arith}
use b80_key.Prelude.{
  List, [], ◌∷◌, ◌++◌, true, false, ◌==◌, leb, not, ◌&&◌, Bool-cases, length, take, set, take-all,
}
use b80_key.Flash.{Flash, sector_size}
use b80_key.Eep.{Obj}
use b80_key.Eep.Log.{IsByte, All}
use b80_key.Eep.Config.{size, flash_read_cfg, flash_write_cfg, u32_of, u32_bytes}
use b80_key.Eep.Holds.{Holds}
use b80_key.Eep.Repack.{IsPackable}
use b80_key.Eep.Switch.{packed_end}
use b80_key.Eep.ReadBack.{read-write}
use b80_key.Data.{
  test_dev_cfg, load_dev_cfg, load_temp_cfg, load_bindkey, dev_cfg_bytes, dev_cfg_of,
  temp_cfg_bytes, temp_cfg_of, save_dev_cfg, save_temp_cfg,
}
use b80_key.Data.Stored.{temp_cfg_of-temp_cfg_bytes, IsPacked, load-save_dev_cfg}
use b80_key.App.{has_bit, set_bit}
use b80_key.App.Events.{flg_reset_of_disconnect}
use b80_key.Cmd.Buffer.{
  take-append_left, reply_after_status, reply_after_command, status_lem, bytes_lem,
}
use b80_key.Cmd.Ids.{cmd_value}
use b80_key.Cmd.{
  Device, push_notify, erase_all_pairing, init_beacon, Chip, put_at, dev_config, sensor_config,
  set_pincode, bind_key, switch, app_on_write_data,
}

module _ (d : Flash) (v : Chip) (s : Device) (sector : ℕ) (log : List Obj)
    (h : Holds s.mem sector log) (pk : All IsPackable log) (on : s.rx_tx_value_in_ccc ≢ 0)
    (buffer : length s.send_buf ≡ 20) where
  heard : s.rx_tx_value_in_ccc == 0 ≡ false
  heard = ground (arith, on)

  -- With room in the store and the notifications on, a command with the six bytes of a configuration
  -- makes it the current one, with the limits of test_dev_cfg, and the one that load_dev_cfg finds.
  -- The answer has the first five of its bytes.
  pub app_on_write_data-dev_config :
      (b0 b1 b2 b3 b4 b5 : ℕ) (rest : List ℕ)
      → let bs = b0 ∷ b1 ∷ b2 ∷ b3 ∷ b4 ∷ b5 ∷ [] in
        All IsByte bs
        → v.rf_index < 256
        → packed_end log + 8 < sector_size
        → let (s', actions) =
            app_on_write_data d v s (record { l2cap_len = 10; dat = 0x55 ∷ (bs ++ rest) }) in
          (s'.settings ≡ test_dev_cfg v.rf_index (record (s.settings) { dev_cfg = dev_cfg_of bs }))
          × (load_dev_cfg d v.rf_index s'.mem ≡ (s'.settings.dev_cfg, s'.mem))
          × (actions ≡ push_notify (0x55 ∷ 0 ∷ take 5 (dev_cfg_bytes s'.settings.dev_cfg)) ∷ [])
  unfolding app_on_write_data switch cmd_value dev_config save_dev_cfg
  app_on_write_data-dev_config b0 b1 b2 b3 b4 b5 rest (p0, (p1, (p2, (p3, (p4, (p5, _)))))) small
        room =
      let w = record (s.settings) { dev_cfg = dev_cfg_of (b0 ∷ b1 ∷ b2 ∷ b3 ∷ b4 ∷ b5 ∷ []) } in
      let packed : IsPacked w.dev_cfg = record {
        adv_interval = omega (arith, p0, p1);
        measured_intervals = p2;
        rf_power = p3;
        flags = p4;
        pad = p5;
      } in
      let bytes = dev_cfg_bytes (test_dev_cfg v.rf_index w).dev_cfg in
      rw heard (
        refl,
        load-save_dev_cfg d s.mem sector log h pk v.rf_index w packed small room,
        ap (λ l. push_notify l ∷ [])
            (reply_after_status 0x55 5 bytes s.send_buf (omega (arith, buffer)) (omega arith)),
      )

  -- The same for the four bytes of the calibration of the sensor and load_temp_cfg. The answer has the
  -- first three of its bytes.
  pub app_on_write_data-sensor_config :
      (b0 b1 b2 b3 : ℕ) (rest : List ℕ)
      → let bs = b0 ∷ b1 ∷ b2 ∷ b3 ∷ [] in
        All IsByte bs
        → packed_end log + 6 < sector_size
        → let (s', actions) =
            app_on_write_data d v s (record { l2cap_len = 8; dat = 0x25 ∷ (bs ++ rest) }) in
          (s'.settings.temperature_cfg ≡ temp_cfg_of bs)
          × (load_temp_cfg d s'.mem ≡ (temp_cfg_of bs, s'.mem))
          × (actions ≡ push_notify (0x25 ∷ 0 ∷ take 3 (temp_cfg_bytes (temp_cfg_of bs))) ∷ [])
  unfolding app_on_write_data switch cmd_value sensor_config save_temp_cfg load_temp_cfg
  app_on_write_data-sensor_config b0 b1 b2 b3 rest (p0, (p1, (p2, (p3, _)))) room =
      let c = temp_cfg_of (b0 ∷ b1 ∷ b2 ∷ b3 ∷ []) in
      let r =
        read-write d s.mem sector log h 4 3 4 (c.coef % 256)
          (c.coef / 256 % 256 ∷ c.zero_point % 256 ∷ c.zero_point / 256 % 256 ∷ []) pk (omega arith)
          (omega arith) (omega arith) (omega arith) (omega arith) (omega (arith, room)) in
      rw heard (
        refl,
        rw (r.1, temp_cfg_of-temp_cfg_bytes c (omega (arith, p0, p1)) (omega (arith, p2, p3))) refl,
        ap (λ l. push_notify l ∷ [])
            (reply_after_status 0x25 3 (temp_cfg_bytes c) s.send_buf (omega (arith, buffer))
              (omega arith)),
      )

  -- The same for the sixteen bytes of a bindkey: load_bindkey finds it, and the advertising is started
  -- anew with it. The answer has the whole key.
  pub app_on_write_data-bind_key :
      (b : ℕ) (bs rest random : List ℕ)
      → length bs ≡ 15
      → All IsByte (b ∷ bs)
      → packed_end log + 18 < sector_size
      → let (s', actions) =
          app_on_write_data d v s (record { l2cap_len = 20; dat = 0x18 ∷ b ∷ (bs ++ rest) }) in
        (s'.settings.bindkey ≡ b ∷ bs)
        × (load_bindkey d random s'.mem ≡ (b ∷ bs, s'.mem))
        × (actions ≡ init_beacon ∷ push_notify (0x18 ∷ b ∷ bs) ∷ [])
  unfolding app_on_write_data switch cmd_value bind_key load_bindkey
  app_on_write_data-bind_key b bs rest random long bytes room =
      let w =
        read-write d s.mem sector log h 5 15 16 b bs pk (omega arith) (omega arith)
          (omega (arith, long)) bytes (omega arith) (omega (arith, room)) in
      let kept : take 15 bs ≡ bs = take-all 15 bs (omega (arith, long)) in
      let cut : take 15 (bs ++ rest) ≡ bs =
        take-append_left 15 bs rest (omega (arith, long)) ∙ kept in
      let reply : take 17 (put_at 1 (b ∷ bs) (set (set s.send_buf 0 0x18) 1 0)) ≡ 0x18 ∷ b ∷ bs =
        reply_after_command 0x18 16 (b ∷ bs) s.send_buf (omega (arith, buffer))
          (omega (arith, long))
        ∙ ap (λ l. 0x18 ∷ b ∷ l) kept in
      rw (heard, cut)
        (refl, rw (w.1, kept, kept) refl, ap (λ l. init_beacon ∷ push_notify l ∷ []) reply)

  set_bit_7 : (f : ℕ) → has_bit (set_bit f 7) 7 ≡ true
  set_bit_7 f = ground arith

  -- A command with four bytes of a pincode sets it if it is another one of at most six digits: it is
  -- in the store from then on if there is room, the device restarts when the connection ends, and the
  -- answer has the status 2. If not, settings and store remain, and the status is 3. The
  -- pairings are erased in both cases.
  pub app_on_write_data-set_pincode :
      (b0 b1 b2 b3 : ℕ) (rest : List ℕ)
      → let bs = b0 ∷ b1 ∷ b2 ∷ b3 ∷ [] in
        All IsByte bs
        → packed_end log + 6 < sector_size
        → let (s', actions) =
            app_on_write_data d v s (record { l2cap_len = 8; dat = 0x70 ∷ (bs ++ rest) }) in
          ((s.settings.pincode ≢ u32_of bs)
            × (u32_of bs ≤ 999999)
            × (s'.settings.pincode ≡ u32_of bs)
            × (flash_read_cfg d s'.mem 3 4 ≡ (size 4, bs, s'.mem))
            × (has_bit s'.ble_connected flg_reset_of_disconnect ≡ true)
            × (actions ≡ erase_all_pairing ∷ push_notify (0x70 ∷ 2 ∷ []) ∷ []))
          ⊎ (((s.settings.pincode ≡ u32_of bs) ⊎ (999999 < u32_of bs))
              × (s'.settings ≡ s.settings)
              × (s'.mem ≡ s.mem)
              × (s'.ble_connected ≡ s.ble_connected)
              × (actions ≡ erase_all_pairing ∷ push_notify (0x70 ∷ 3 ∷ []) ∷ []))
  unfolding app_on_write_data switch cmd_value set_pincode
  app_on_write_data-set_pincode b0 b1 b2 b3 rest (p0, (p1, (p2, (p3, _)))) room =
      let bs = b0 ∷ b1 ∷ b2 ∷ b3 ∷ [] in
      let p = u32_of bs in
      let status : (x : ℕ) → take 2 (set (set (set s.send_buf 0 0x70) 1 0) 1 x) ≡ 0x70 ∷ x ∷ [] =
        λ x. status_lem 0x70 x s.send_buf (omega (arith, buffer)) in
      let same : p % 256 ∷ p / 256 % 256 ∷ p / 65536 % 256 ∷ p / 16777216 % 256 ∷ [] ≡ bs =
        bytes_lem b0 b1 b2 b3 p0 p1 p2 p3 in
      let w =
        read-write d s.mem sector log h 3 3 4 (p % 256)
          (p / 256 % 256 ∷ p / 65536 % 256 ∷ p / 16777216 % 256 ∷ []) pk (omega arith) (omega arith)
          (omega arith) (omega arith) (omega arith) (omega (arith, room)) in
      elim (Bool-cases (not (s.settings.pincode == p) && leb p 999999)) [
        | inl e ↦ inl (
          ground (arith, e),
          ground (arith, e),
          rw (heard, e) refl,
          rw (heard, e)
              (w.1 ∙ ap (λ l. (size 4, l, (flash_write_cfg d s.mem (u32_bytes p) 3 4).1)) same),
          rw (heard, e) (set_bit_7 s.ble_connected),
          rw (heard, e) (ap (λ l. erase_all_pairing ∷ push_notify l ∷ []) (status 2)),
        )
        | inr e ↦ inr (
          ground (arith, e),
          rw (heard, e) refl,
          rw (heard, e) refl,
          rw (heard, e) refl,
          rw (heard, e) (ap (λ l. erase_all_pairing ∷ push_notify l ∷ []) (status 3)),
        )
      ]
