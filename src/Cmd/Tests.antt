-- ===== src/Cmd/Tests.antt =====
-- Concrete commands.
use b80_key.Prelude.{some}
use b80_key.Prelude.{
  ℕ, ◌≤◌, ◌<◌, ◌≡◌, ◌≢◌, ◌⊎◌, refl, arith, List, [], ◌∷◌, true, length, take, get_or, replicate,
}
use b80_key.Eep.Config.{size, flash_read_cfg, u32_of}
use b80_key.Eep.Tests.{nor, memory, records, memory-Holds, records-IsPackable, records-packed}
use b80_key.Data.{
  Settings, test_dev_cfg, load_dev_cfg, load_temp_cfg, load_bindkey, dev_cfg_bytes, dev_cfg_of,
  temp_cfg_bytes, temp_cfg_of, temperature_cfg_def,
}
use b80_key.App.{has_bit}
use b80_key.App.Events.{flg_reset_of_disconnect}
use b80_key.Cmd.Ids.{cmd_value}
use b80_key.Cmd.{
  Device, Chip, Request, push_notify, erase_all_pairing, init_beacon, app_on_write_data,
}
use b80_key.Cmd.Ready.{IsReady, IsChip, notified}
use b80_key.Cmd.Answers.{app_on_write_data-IsReady, app_on_write_data-unknown_command}
use b80_key.Cmd.Saved.{
  app_on_write_data-dev_config, app_on_write_data-sensor_config, app_on_write_data-bind_key,
  app_on_write_data-set_pincode,
}

abbrev pub chip : Chip
chip = record {
  rf_index = 7;
  mac_sector = 0x1F000;
  init_mac = λ m. (m, replicate 12 0xA4);
  random = 17 ∷ 34 ∷ [];
  behind_dev_id = replicate 8 0;
}

chip-IsChip : IsChip chip
chip-IsChip = record { rf_index = omega arith; macs = λ m. refl; behind = omega arith }

abbrev pub named_key : Settings
named_key = record {
  dev_cfg = record {
    adv_interval = 8000;
    measured_intervals = 2;
    rf_power = 7;
    flags = 0;
    pad = 0;
  };
  tbl_scan_rsp = record { len = 3; id = 9; name = 75 ∷ 69 ∷ 89 ∷ replicate 18 0 };
  temperature_cfg = temperature_cfg_def;
  pincode = 123456;
  bindkey = replicate 16 5;
  measure_interval = some 160000000;
}

abbrev pub device : Device
device = record {
  settings = named_key;
  mem = memory;
  send_buf = replicate 20 0;
  ble_connected = 1;
  rx_tx_value_in_ccc = 1;
}

device-IsReady : IsReady device
device-IsReady = record {
  settings = record {
    interval_low = omega arith;
    interval_high = omega arith;
    measured = omega arith;
    power = omega arith;
    name_low = omega arith;
    name_high = omega arith;
    buffer = refl;
  };
  bindkey = refl;
  buffer = refl;
}

-- A new name, "TAG"
abbrev name_request : Request
name_request = record { l2cap_len = 7; dat = 1 ∷ 84 ∷ 65 ∷ 71 ∷ replicate 16 0 }

app_on_write_data-IsReady_example :
    let (s', actions) = app_on_write_data nor chip device name_request in
    IsReady s'
    × ((out : List ℕ) × (notified actions ≡ out ∷ [])
        × (1 ≤ length out)
        × (length out ≤ 20)
        × (get_or out 0 0 ≡ 1))
app_on_write_data-IsReady_example =
    app_on_write_data-IsReady nor chip chip-IsChip device name_request device-IsReady (omega arith)
      (omega arith) (omega arith) (omega arith)

app_on_write_data-unknown_command_example :
    app_on_write_data nor chip device (record { l2cap_len = 4; dat = 0x33 ∷ [] }) ≡ (
      record device { send_buf = 0x33 ∷ 0xff ∷ replicate 18 0 },
      push_notify (0x33 ∷ 0xff ∷ []) ∷ [],
    )
unfolding cmd_value
app_on_write_data-unknown_command_example =
    app_on_write_data-unknown_command nor chip chip-IsChip device
      (record { l2cap_len = 4; dat = 0x33 ∷ [] }) 0 0 (replicate 18 0) refl (omega arith)
      (omega arith) (omega arith) (omega arith)

dev_config_example :
    let bs : List ℕ = 0x40 ∷ 0x1F ∷ 3 ∷ 10 ∷ 1 ∷ 0 ∷ [] in
    let (s', actions) =
      app_on_write_data nor chip device (record { l2cap_len = 10; dat = 0x55 ∷ bs }) in
    (s'.settings ≡ test_dev_cfg 7 (record named_key { dev_cfg = dev_cfg_of bs }))
    × (load_dev_cfg nor 7 s'.mem ≡ (s'.settings.dev_cfg, s'.mem))
    × (actions ≡ push_notify (0x55 ∷ 0 ∷ take 5 (dev_cfg_bytes s'.settings.dev_cfg)) ∷ [])
dev_config_example =
    app_on_write_data-dev_config nor chip device 0xC000 records memory-Holds records-IsPackable
      (omega arith) refl 0x40 0x1F 3 10 1 0 [] (omega arith) (omega arith)
      (omega (arith, records-packed))

sensor_config_example :
    let bs : List ℕ = 1 ∷ 2 ∷ 3 ∷ 4 ∷ [] in
    let (s', actions) =
      app_on_write_data nor chip device (record { l2cap_len = 8; dat = 0x25 ∷ bs }) in
    (s'.settings.temperature_cfg ≡ temp_cfg_of bs)
    × (load_temp_cfg nor s'.mem ≡ (temp_cfg_of bs, s'.mem))
    × (actions ≡ push_notify (0x25 ∷ 0 ∷ take 3 (temp_cfg_bytes (temp_cfg_of bs))) ∷ [])
sensor_config_example =
    app_on_write_data-sensor_config nor chip device 0xC000 records memory-Holds records-IsPackable
      (omega arith) refl 1 2 3 4 [] (omega arith) (omega (arith, records-packed))

bind_key_example :
    let (s', actions) =
      app_on_write_data nor chip device
        (record { l2cap_len = 20; dat = 0x18 ∷ 9 ∷ replicate 15 8 }) in
    (s'.settings.bindkey ≡ 9 ∷ replicate 15 8)
    × (load_bindkey nor [] s'.mem ≡ (9 ∷ replicate 15 8, s'.mem))
    × (actions ≡ init_beacon ∷ push_notify (0x18 ∷ 9 ∷ replicate 15 8) ∷ [])
bind_key_example =
    app_on_write_data-bind_key nor chip device 0xC000 records memory-Holds records-IsPackable
      (omega arith) refl 9 (replicate 15 8) [] [] refl (omega arith) (omega (arith, records-packed))

set_pincode_example :
    let bs : List ℕ = 0x3F ∷ 0x42 ∷ 0x0F ∷ 0 ∷ [] in
    let (s', actions) =
      app_on_write_data nor chip device (record { l2cap_len = 8; dat = 0x70 ∷ bs }) in
    ((123456 ≢ u32_of bs)
      × (u32_of bs ≤ 999999)
      × (s'.settings.pincode ≡ u32_of bs)
      × (flash_read_cfg nor s'.mem 3 4 ≡ (size 4, bs, s'.mem))
      × (has_bit s'.ble_connected flg_reset_of_disconnect ≡ true)
      × (actions ≡ erase_all_pairing ∷ push_notify (0x70 ∷ 2 ∷ []) ∷ []))
    ⊎ (((123456 ≡ u32_of bs) ⊎ (999999 < u32_of bs))
        × (s'.settings ≡ named_key)
        × (s'.mem ≡ memory)
        × (s'.ble_connected ≡ 1)
        × (actions ≡ erase_all_pairing ∷ push_notify (0x70 ∷ 3 ∷ []) ∷ []))
set_pincode_example =
    app_on_write_data-set_pincode nor chip device 0xC000 records memory-Holds records-IsPackable
      (omega arith) refl 0x3F 0x42 0x0F 0 [] (omega arith) (omega (arith, records-packed))
