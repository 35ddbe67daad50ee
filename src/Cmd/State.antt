-- ===== src/Cmd/State.antt =====
-- The state of the command service of src/app_cmd.c, its requests and what a command does.
use b80_key.Prelude.{ℕ, ◌+◌, ◌/◌, ◌%◌, List, ◌∷◌, ◌++◌, ltb, if◌then◌else◌, take, drop}
use b80_key.Flash.{Mem}
use b80_key.Eep.Config.{u32_bytes}
use b80_key.Data.{Settings, overwrite}
use b80_key.App.{set_bit}
use b80_key.App.Events.{flg_reset_of_disconnect}
use b80_key.Services.{id_sensors, dev_services}

-- What the commands read and change: the settings, the flash, send_buf, wrk.bleConnected and
-- services.RxTxValueInCCC.
pub record Device : Type 0 where
  pub settings : Settings
  pub mem : Mem
  pub send_buf : List ℕ
  pub ble_connected : ℕ
  pub rx_tx_value_in_ccc : ℕ

-- rf_packet_att_data_t: the fields that are read
pub record Request : Type 0 where
  pub l2cap_len : ℕ
  pub dat : List ℕ

-- The calls of the vendor's stack and of bthome_beacon_init
pub data Action : Type 0 where
  push_notify : List ℕ → Action
  erase_all_pairing : Action
  init_beacon : Action

-- What the vendor's code and the build fix: MY_RF_POWER_INDEX, flash_sector_mac_address,
-- blc_initMacAddress (on an erased sector, with the two addresses that it returns), the bytes of
-- generateRandomNum, and the bytes that follow dev_id in the memory.
pub record Chip : Type 0 where
  pub rf_index : ℕ
  pub mac_sector : ℕ
  pub init_mac : Mem → Mem × List ℕ
  pub random : List ℕ
  pub behind_dev_id : List ℕ

-- After a command: the state, olen and the calls.
pub record Handled : Type 0 where
  pub device : Device
  pub olen : ℕ
  pub actions : List Action

-- memcpy(&buf[i], bs, ..)
unfoldable pub put_at : ℕ → List ℕ → List ℕ → List ℕ
put_at i bs buf = take i buf ++ overwrite (drop i buf) bs

-- dev_id_t dev_id, as it lies in the memory
abbrev pub dev_id_bytes : List ℕ
dev_id_bytes =
    0
    ∷ 1
    ∷ (1 + 0x100) % 256
    ∷ (1 + 0x100) / 256
    ∷ 0x0100 % 256
    ∷ 0x0100 / 256
    ∷ id_sensors % 256
    ∷ id_sensors / 256
    ∷ u32_bytes dev_services

abbrev pub request_reset : Device → Device
request_reset s = record s { ble_connected = set_bit s.ble_connected flg_reset_of_disconnect }

-- min(len, size), as the handlers limit their lengths
abbrev pub at_most : ℕ → ℕ → ℕ
at_most size len = if ltb size len then size else len
