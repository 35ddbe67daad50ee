-- ===== src/Boot.antt =====
-- The start of the program: user_init_normal and user_init_deepRetn of src/app_main.c, app_ble_init of
-- src/app_ble.c and main of src/main.c, as the calls that they make and the state that they leave.
-- The values are those of the build for MCU_CORE_B80B, with a public address.
pub mod Cold
mod Tests
use b80_key.Prelude.{ℕ, zero, suc, List, [], ◌∷◌, ◌++◌, Bool, true, false, ◌&&◌, not, ℤ}
use mathlib.Core.Option
use b80_key.Prelude.{leb, ◌==◌, if◌then◌else◌}
use b80_key.Flash.{Mem, Flash}
use b80_key.Data.{Settings, load_config}
use b80_key.Battery.{Battery, Voltage, check_battery_level}
use b80_key.Temp.{Temperature, calk_temp}
use b80_key.App.{
  App, Input, Run, continue, and_then, measure_vbat, measure_temp, app_start_adv, main_loop,
}

-- The calls of the start-up code, in the words of the vendor's functions
pub data InitCall : Type 0 where
  call_sws_init random_generator_init read_flash_mid load_parameters_normal : InitCall
  init_go_sleep init_mac_address beacon_init init_basic_mcu init_standby_module : InitCall
  init_advertising_module init_slave_role_module set_acl_conn_max_octets : InitCall
  init_acl_conn_tx_fifo init_acl_conn_rx_fifo gap_peripheral_init gatt_init : InitCall
  l2cap_register_handler l2cap_init_rx_data_buffer smp_storage_addr : InitCall
  smp_bonding_device_max_number : ℕ → InitCall
  smp_set_security_level smp_enable_auth_mitm smp_set_io_capability : InitCall
  smp_peripheral_init smp_security_request_sending : InitCall
  gap_register_host_event_handler gap_set_event_mask : InitCall
  smp_manual_set_pin_code : ℕ → InitCall
  ota_init_server_module : InitCall
  ota_set_process_timeout : ℕ → InitCall
  ota_register_start_cmd_cb ota_register_result_indicate_cb : InitCall
  rf_set_power_level_index : ℕ → InitCall
  register_controller_event_handler hci_set_event_mask : InitCall
  init_power_management init_deepsleep_retention pm_set_suspend_mask : InitCall
  pm_set_retention_threshold : InitCall
  pm_set_retention_early_wakeup : ℕ → InitCall
  pm_register_before_suspend start_adv_init setup_key : InitCall
  load_parameters_deep_retn recover_deep_retention : InitCall
  pm_select_32k_crystal ota_set_firmware_size cpu_wakeup_init rf_drv_ble_init clock_init : InitCall
  gpio_init : Bool → InitCall
  irq_enable : InitCall

-- The state that the start-up code makes. services.flg_update is a field of `voltage` and of `app`.
pub record System : Type 0 where
  pub settings : Settings
  pub mem : Mem
  pub battery : Battery
  pub voltage : Voltage
  pub temperature : Temperature
  pub temp : ℤ
  pub app : App

pub record Booted : Type 0 where
  pub system : System
  pub calls : List InitCall
  pub off : Bool

-- With a pincode of at most six digits other than 0, pairing is set up.
abbrev pub smp_init : ℕ → List InitCall
smp_init pincode =
    if not (pincode == 0) && leb pincode 999999
    then smp_storage_addr
      ∷ smp_bonding_device_max_number 4
      ∷ smp_set_security_level
      ∷ smp_enable_auth_mitm
      ∷ smp_set_io_capability
      ∷ smp_peripheral_init
      ∷ smp_security_request_sending
      ∷ gap_register_host_event_handler
      ∷ gap_set_event_mask
      ∷ smp_manual_set_pin_code pincode
      ∷ []
    else []

unfoldable pub app_ble_init : Settings → List InitCall
app_ble_init w =
    init_mac_address
    ∷ beacon_init
    ∷ init_basic_mcu
    ∷ init_standby_module
    ∷ init_advertising_module
    ∷ init_slave_role_module
    ∷ set_acl_conn_max_octets
    ∷ init_acl_conn_tx_fifo
    ∷ init_acl_conn_rx_fifo
    ∷ gap_peripheral_init
    ∷ gatt_init
    ∷ l2cap_register_handler
    ∷ l2cap_init_rx_data_buffer
    ∷ (smp_init w.pincode
        ++ ota_init_server_module
          ∷ ota_set_process_timeout 60
          ∷ ota_register_start_cmd_cb
          ∷ ota_register_result_indicate_cb
          ∷ rf_set_power_level_index w.dev_cfg.rf_power
          ∷ register_controller_event_handler
          ∷ hci_set_event_mask
          ∷ [])

-- entry_ota_mode, when an update starts
unfoldable pub entry_ota_mode : App → List InitCall × App
entry_ota_mode a = (ota_set_process_timeout 240 ∷ [], record a { ota_is_working = true })

-- What the start-up code reads: the voltage, the ADC of the temperature, the key (which is pressed
-- when its pin is low), what blc_initMacAddress does to the flash, and
-- the measuring interval where its product overflows.
pub record Start : Type 0 where
  pub vbat : ℕ
  pub adc : ℕ
  pub key : Bool
  pub random : List ℕ
  pub init_mac : Mem → Mem
  pub overflow : ℕ

module _ (d : Flash) (rf_index : ℕ) where
  abbrev pub before_battery : List InitCall
  before_battery =
      call_sws_init ∷ random_generator_init ∷ read_flash_mid ∷ load_parameters_normal ∷ []

  abbrev pub after_ble : List InitCall
  after_ble =
      init_power_management
      ∷ init_deepsleep_retention
      ∷ pm_set_suspend_mask
      ∷ pm_set_retention_threshold
      ∷ pm_set_retention_early_wakeup 550
      ∷ pm_register_before_suspend
      ∷ start_adv_init
      ∷ setup_key
      ∷ []

  -- With a low voltage the chip goes to sleep, from which it starts anew.
  unfoldable pub user_init_normal : Start → System → Booted
  user_init_normal i s =
      let (low, battery, voltage) = check_battery_level true i.vbat s.battery s.voltage in
      let (w, m) = load_config d rf_index i.random s.settings s.mem in
      let (temp, temperature) =
        calk_temp i.adc (record (s.temperature) { cfg = w.temperature_cfg }) in
      if low
      then record {
        system = record s { battery = battery; voltage = voltage };
        calls = before_battery ++ init_go_sleep ∷ [];
        off = true;
      }
      else record {
        system = record {
          settings = w;
          mem = i.init_mac m;
          battery = battery;
          voltage = record voltage { flg_update = measure_temp voltage.flg_update };
          temperature = temperature;
          temp = temp;
          app = record (app_start_adv 0 (s.app)) {
            measure_interval = Option.get_or w.measure_interval i.overflow;
            key_pressed = not i.key;
            flg_update = measure_temp (measure_vbat low s.app.flg_update);
          };
        };
        calls = before_battery ++ (app_ble_init w ++ after_ble);
        off = false;
      }

  unfoldable pub user_init_deep_retn : System → Booted
  user_init_deep_retn s = record {
    system = s;
    calls =
        load_parameters_deep_retn
        ∷ init_basic_mcu
        ∷ rf_set_power_level_index s.settings.dev_cfg.rf_power
        ∷ recover_deep_retention
        ∷ [];
    off = false;
  }

  -- main up to its loop: `deep_ret_wake_up` is pm_is_MCU_deepRetentionWakeup().
  unfoldable pub start_up : Bool → Start → System → Booted
  start_up deep_ret_wake_up i s =
      let booted = if deep_ret_wake_up then user_init_deep_retn s else user_init_normal i s in
      record booted {
        calls =
            pm_select_32k_crystal
            ∷ ota_set_firmware_size
            ∷ cpu_wakeup_init
            ∷ rf_drv_ble_init
            ∷ clock_init
            ∷ gpio_init (not deep_ret_wake_up)
            ∷ (booted.calls ++ (if booted.off then [] else irq_enable ∷ []));
      }

  -- The loop of main, for the inputs of its rounds, until the chip goes off
  unfoldable pub main_loops : List Input → App → Run
  main_loops [] a = continue a []
  main_loops (i ∷ is) a = and_then (main_loop i a) (main_loops is)
