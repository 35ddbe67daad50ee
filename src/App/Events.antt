-- ===== src/App/Events.antt =====
-- The events of src/app_ble.c.
use b80_key.Prelude.{ℕ, ◌^◌, ◌==◌, List, [], ◌∷◌, not, if◌then◌else◌}
use b80_key.App.{
  App, Run, continue, switch_off, and_then, has_bit, set_bit, app_start_adv, set_connect_adv,
  set_work_adv, request_conn_param_update, sws_buffer_flush, start_reboot, set_rf_power,
}

-- The events of app_event_handler in src/app_ble.c that do something; the others only print.
pub data Event : Type 0 where
  adv_duration_timeout connect terminate data_length_exchange conn_para_update : Event
  suspend_exit other_event : Event

-- CONNECTED_FLG_ENABLE and the others
abbrev pub flg_enable : ℕ
flg_enable = 0

abbrev pub flg_par_update : ℕ
flg_par_update = 1

abbrev pub flg_data_length_exchange : ℕ
flg_data_length_exchange = 3

abbrev pub flg_reset_of_disconnect : ℕ
flg_reset_of_disconnect = 7

unfoldable pub app_event_handler : Event → App → Run
app_event_handler adv_duration_timeout a =
    continue (app_start_adv 0 a)
      (if not (a.adv_event == 0) then set_connect_adv ∷ [] else set_work_adv ∷ [])
app_event_handler connect a =
    continue (record a { ble_connected = 2 ^ flg_enable }) (request_conn_param_update ∷ [])
app_event_handler terminate a =
    if has_bit a.ble_connected flg_reset_of_disconnect
    then switch_off a (sws_buffer_flush ∷ start_reboot ∷ [])
    else continue (app_start_adv 0 (record a { ble_connected = 0 })) (set_work_adv ∷ [])
app_event_handler data_length_exchange a =
    continue (record a { ble_connected = set_bit a.ble_connected flg_data_length_exchange }) []
app_event_handler conn_para_update a =
    continue (record a { ble_connected = set_bit a.ble_connected flg_par_update }) []
app_event_handler suspend_exit a = continue a (set_rf_power ∷ [])
app_event_handler other_event a = continue a []

-- The events one after another, until the chip goes off.
unfoldable pub run_events : List Event → App → Run
run_events [] a = continue a []
run_events (e ∷ es) a = and_then (app_event_handler e a) (run_events es)
