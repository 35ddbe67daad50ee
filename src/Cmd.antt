-- ===== src/Cmd.antt =====
-- src/app_cmd.c: the command service. One write to the characteristic is one call of
-- app_onWriteData, which answers by a notification.
pub mod Ids
mod State
pub mod Buffer
pub mod Ready
pub mod Replies
pub mod KeyReplies
pub mod Answers
pub mod Life
pub mod Restart
pub mod Saved
pub mod Mac
mod RestartTests
mod Tests
pub use State.{
  Device, Request, Action, push_notify, erase_all_pairing, init_beacon, Chip, Handled, dev_id_bytes,
  request_reset, at_most,
}
unfoldable pub use State.{put_at}
use b80_key.Prelude.{
  ℕ, zero, suc, ◌+◌, ◌-◌, ◌*◌, ◌/◌, ◌%◌, ◌^◌, List, [], ◌∷◌, ◌++◌, Bool, true, false, ◌&&◌, not,
}
use b80_key.Prelude.{ltb, leb, ◌==◌, if◌then◌else◌, set, take, drop, get_or, length}
use b80_key.Flash.{Mem, Flash}
use b80_key.Eep.Config.{same_bytes, flash_write_cfg, u32_bytes, u32_of}
use b80_key.Data.{
  Settings, DevConfig, TemperatureCfg, overwrite, dev_cfg_bytes, dev_cfg_of, dev_cfg_def,
  temp_cfg_bytes, temp_cfg_of, temperature_cfg_def, test_dev_cfg, save_dev_name, save_dev_cfg,
  save_temp_cfg, max_dev_name_len, eep_id_pincode, eep_id_bkey,
}
use b80_key.Cmd.Ids.{
  CmdId, cmd_value, cmd_dev_id, cmd_dname, cmd_cfg, cmd_cfg_def, cmd_dev_mac, cmd_cfs, cmd_cfs_def,
  cmd_pincode, cmd_bkey,
}

-- The cases of the switch, with the parameters of the command and their number.
module _ (d : Flash) (v : Chip) where
  unfoldable pub get_dev_id : Device → Handled
  get_dev_id s = record {
    device = record s {
      send_buf = put_at 0 (take 20 (dev_id_bytes ++ v.behind_dev_id)) s.send_buf;
    };
    olen = 12;
    actions = [];
  }

  abbrev pub set_dev_name : Device → ℕ → List ℕ → Device
  set_dev_name s len bs =
      if len == 0
      then s
      else (let (w, m) =
            save_dev_name d v.rf_index s.settings s.mem bs (at_most max_dev_name_len len) in
          record s { settings = w; mem = m })

  unfoldable pub dev_name : Device → ℕ → List ℕ → Handled
  dev_name s len bs =
      let s' = set_dev_name s len bs in
      let scan = s'.settings.tbl_scan_rsp in
      record {
        device = record s' { send_buf = put_at 1 (take (scan.len - 1) scan.name) s'.send_buf };
        olen = scan.len;
        actions = [];
      }

  abbrev pub set_dev_cfg : Device → ℕ → List ℕ → Device
  set_dev_cfg s len bs =
      if len == 0
      then s
      else (let c =
            dev_cfg_of (overwrite (dev_cfg_bytes s.settings.dev_cfg) (take (at_most 6 len) bs)) in
          let (w, m) = save_dev_cfg d v.rf_index (record (s.settings) { dev_cfg = c }) s.mem in
          record s { settings = w; mem = m })

  unfoldable pub dev_config : Device → ℕ → List ℕ → Handled
  dev_config s len bs =
      let s' = set_dev_cfg s len bs in
      record {
        device = record s' { send_buf = put_at 2 (dev_cfg_bytes s'.settings.dev_cfg) s'.send_buf };
        olen = 6 + 1;
        actions = [];
      }

  unfoldable pub default_dev_config : Device → Handled
  default_dev_config s = record {
    device = record s {
      settings = test_dev_cfg v.rf_index (record (s.settings) { dev_cfg = dev_cfg_def v.rf_index });
    };
    olen = 6 + 1;
    actions = [];
  }

  -- flash_erase_sector, then flash_write_page of 8 bytes
  abbrev pub write_mac : List ℕ → Mem → Mem
  write_mac bs m = d.write_page (d.erase_sector m v.mac_sector) v.mac_sector bs

  -- A new address of `n` bytes is written if it differs, with `more` behind it.
  abbrev pub change_mac : ℕ → List ℕ → Device → List ℕ → Device
  change_mac n more s bs =
      let new_mac = take n (drop 1 bs) in
      if same_bytes (take n (d.read_page s.mem v.mac_sector 8)) new_mac
      then s
      else request_reset (record s { mem = write_mac (new_mac ++ more) s.mem })

  abbrev pub set_mac : Device → ℕ → List ℕ → Device
  set_mac s len bs =
      let size = get_or bs 0 0 in
      if len == 1 && size == 0
      then (let (m, macs) = v.init_mac (d.erase_sector s.mem v.mac_sector) in
          request_reset (record s { mem = m; send_buf = put_at 2 macs s.send_buf }))
      else if len == 7 && size == 6
      then change_mac 6 v.random s bs
      else if len == 9 && size == 8
      then change_mac 8 [] s bs
      else s

  -- The reads and writes of send_buf in the cases are all hidden by the read at the end.
  unfoldable pub dev_mac : Device → ℕ → List ℕ → Handled
  dev_mac s len bs =
      let s' = set_mac s len bs in
      record {
        device = record s' {
          send_buf = set (put_at 2 (d.read_page s'.mem v.mac_sector 8) s'.send_buf) 1 8;
        };
        olen = 8 + 2;
        actions = [];
      }

  abbrev pub set_temp_cfg : Device → ℕ → List ℕ → Device
  set_temp_cfg s len bs =
      if len == 0
      then s
      else (let c =
            temp_cfg_of
              (overwrite (temp_cfg_bytes s.settings.temperature_cfg) (take (at_most 4 len) bs)) in
          record s {
            settings = record (s.settings) { temperature_cfg = c };
            mem = save_temp_cfg d c s.mem;
          })

  abbrev pub temp_cfg_reply : Device → Handled
  temp_cfg_reply s = record {
    device = record s {
      send_buf = put_at 2 (temp_cfg_bytes s.settings.temperature_cfg) s.send_buf;
    };
    olen = 4 + 1;
    actions = [];
  }

  unfoldable pub sensor_config : Device → ℕ → List ℕ → Handled
  sensor_config s len bs = temp_cfg_reply (set_temp_cfg s len bs)

  unfoldable pub default_sensor_config : Device → Handled
  default_sensor_config s =
      temp_cfg_reply
        (record s { settings = record (s.settings) { temperature_cfg = temperature_cfg_def } })

  -- A command of four bytes sets the pincode, and the pairings are erased in any case.
  unfoldable pub set_pincode : Device → ℕ → List ℕ → Handled
  set_pincode s len bs =
      let new_pincode = u32_of bs in
      let pincode = s.settings.pincode in
      if len == 4
      then record {
        device =
            if not (pincode == new_pincode) && leb new_pincode 999999
            then request_reset (record s {
              settings = record (s.settings) { pincode = new_pincode };
              mem = (flash_write_cfg d s.mem (u32_bytes new_pincode) eep_id_pincode 4).1;
              send_buf = set s.send_buf 1 2;
            })
            else record s { send_buf = set s.send_buf 1 3 };
        olen = 2;
        actions = erase_all_pairing ∷ [];
      }
      else record {
        device = record s { send_buf = if pincode == 0 then s.send_buf else set s.send_buf 1 1 };
        olen = 2;
        actions = [];
      }

  abbrev pub set_bindkey : Device → List ℕ → Device
  set_bindkey s bs = record s {
    settings = record (s.settings) { bindkey = take 16 bs };
    mem = (flash_write_cfg d s.mem (take 16 bs) eep_id_bkey 16).1;
  }

  unfoldable pub bind_key : Device → ℕ → List ℕ → Handled
  bind_key s len bs =
      let s' = if len == 16 then set_bindkey s bs else s in
      record {
        device = record s' { send_buf = put_at 1 s'.settings.bindkey s'.send_buf };
        olen = 16 + 1;
        actions = if len == 16 then init_beacon ∷ [] else [];
      }

  unfoldable pub unknown_command : Device → Handled
  unknown_command s = record {
    device = record s { send_buf = set s.send_buf 1 0xff };
    olen = 2;
    actions = [];
  }

  unfoldable pub switch : ℕ → Device → ℕ → List ℕ → Handled
  unfolding cmd_value
  switch cmd s len bs =
      if cmd == cmd_value cmd_dev_id
      then get_dev_id s
      else if cmd == cmd_value cmd_dname
      then dev_name s len bs
      else if cmd == cmd_value cmd_cfg
      then dev_config s len bs
      else if cmd == cmd_value cmd_cfg_def
      then default_dev_config s
      else if cmd == cmd_value cmd_dev_mac
      then dev_mac s len bs
      else if cmd == cmd_value cmd_cfs
      then sensor_config s len bs
      else if cmd == cmd_value cmd_cfs_def
      then default_sensor_config s
      else if cmd == cmd_value cmd_pincode
      then set_pincode s len bs
      else if cmd == cmd_value cmd_bkey
      then bind_key s len bs
      else unknown_command s

  -- req->l2capLen - 3, in 32 bits
  abbrev pub request_len : Request → ℕ
  request_len r = (r.l2cap_len + (2 ^ 32 - 3)) % 2 ^ 32

  abbrev pub send : Handled → Device × List Action
  send h = (
    h.device,
    h.actions ++ (if h.olen == 0 then [] else push_notify (take h.olen h.device.send_buf) ∷ []),
  )

  abbrev pub start_reply : ℕ → Device → Device
  start_reply cmd s = record s { send_buf = set (set s.send_buf 0 cmd) 1 0 }

  unfoldable pub app_on_write_data : Device → Request → Device × List Action
  app_on_write_data s r =
      let cmd = get_or r.dat 0 0 in
      let len = request_len r in
      if not (s.rx_tx_value_in_ccc == 0) && ltb 0 len
      then send (switch cmd (start_reply cmd s) (len - 1) (drop 1 r.dat))
      else (s, [])
