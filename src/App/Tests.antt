-- ===== src/App/Tests.antt =====
-- Concrete rounds of main_loop.
use b80_key.Prelude.{
  List, ℕ, ◌+◌, ◌%◌, ◌^◌, ◌≡◌, refl, inr, arith, [], ◌∷◌, ◌++◌, Bool, true, false, ◌&&◌, not, ◌==◌,
}
use b80_key.App.Link.{is_linked, run_events-is_linked}
use b80_key.App.{
  led_on, led_off, set_wake_up, erase_all_cfg, sws_buffer_flush, start_reboot, App, Input,
  call_calk_temp, set_adv_data, call_check_battery, sdk_main_loop, notify_battery, notify_temp,
  measure, notify, notify_vbat, notify_temperature, and_then, button, Call, main_loop,
  measure_timer, advertise, power, has_bit, vbat_adv, vbat_ntf, temp_ntf,
}
use b80_key.App.Events.{
  run_events, connect, data_length_exchange, terminate, flg_enable, flg_reset_of_disconnect,
}
use b80_key.App.Button.{button-held, button-released}
use b80_key.App.Wakeup.{last_calls, main_loop-wakeup}
use b80_key.App.Measure.{sent, measure-by_turns, notify_lem}

abbrev pub idle : App
idle = record {
  measure_tick = 0;
  measure_interval = 160000000;
  timer_wake_up_tick = 0;
  key_counter = 4;
  start_measure = true;
  ota_is_working = false;
  ble_connected = 0;
  key_pressed = false;
  battery_value_in_ccc = 1;
  temp_value_in_ccc = 0;
  flg_update = 0;
  adv_event = 0;
  send_count = 9;
}

abbrev round : ℕ → ℕ → Bool → Input
round tt now on = record {
  tt = tt;
  now = now;
  button_on = on;
  low_power = false;
  callbacks = λ a. a;
}

button-held_example :
    let pressed = (button (round 100 120 true) idle).app in
    let held = button (round 250000000 250000100 true) pressed in
    (held.off ≡ true)
    × (held.calls
        ≡ led_on
          ∷ led_off
          ∷ set_wake_up 0 false
          ∷ erase_all_cfg
          ∷ sws_buffer_flush
          ∷ start_reboot
          ∷ [])
    × (held.app ≡ record pressed { timer_wake_up_tick = 0 })
    × (pressed.key_pressed ≡ true)
button-held_example =
    button-held idle (round 100 120 true) (round 250000000 250000100 true) 250000000 refl
      (omega arith) refl refl refl (inr (omega arith, omega arith))

abbrev held : App
held = record idle { key_pressed = true; timer_wake_up_tick = 240000101 }

button-released_example :
    let released = (button (round 100 120 false) held).app in
    (released.timer_wake_up_tick ≡ 0) × ((button (round 200 240000200 true) released).off ≡ false)
button-released_example =
    button-released held (round 100 120 false) (round 200 240000200 true) refl refl

measure_example :
    let first = measure (round 100 120 false) idle in
    let second = measure (round 200 220 false) (record (first.app) { start_measure = true }) in
    (first.calls ≡ call_check_battery ∷ [])
    × (second.calls ≡ call_calk_temp ∷ set_adv_data ∷ [])
    × (second.app.send_count ≡ (9 + 1) % 2 ^ 32)
    × (has_bit second.app.flg_update vbat_adv ≡ false)
measure_example =
    measure-by_turns (round 100 120 false) (round 200 220 false) idle refl refl refl refl refl

abbrev connected : App
connected = record idle { ble_connected = 1; flg_update = 15 }

notify_example :
    let r = notify (round 100 120 false) connected in
    (r.calls
      ≡ sdk_main_loop
        ∷ (sent (has_bit 15 vbat_ntf && not (1 == 0)) notify_battery
            ++ sent (has_bit 15 temp_ntf && not (0 == 0)) notify_temp))
    × ((and_then (notify_vbat r.app) notify_temperature).calls ≡ [])
notify_example = notify_lem (round 100 120 false) connected (omega arith)

run_events_example :
    let r = run_events (connect ∷ data_length_exchange ∷ terminate ∷ connect ∷ []) idle in
    (r.off ≡ false)
    × (has_bit r.app.ble_connected flg_reset_of_disconnect ≡ false)
    × (has_bit r.app.ble_connected flg_enable
        ≡ is_linked
            (connect ∷ data_length_exchange ∷ terminate ∷ connect ∷ [])
            (has_bit idle.ble_connected flg_enable))
run_events_example =
    run_events-is_linked (connect ∷ data_length_exchange ∷ terminate ∷ connect ∷ []) idle refl

-- A round in which the button is pressed
round_stays_on : (main_loop (round 100 120 true) idle).off ≡ false
unfolding main_loop notify measure_timer measure advertise button power and_then
round_stays_on = refl

main_loop-wakeup_example :
    let r = main_loop (round 100 120 true) idle in
    (r.app.key_pressed ≡ true)
    × ((front : List Call) × (r.calls ≡ front ++ last_calls r.app.ota_is_working true))
main_loop-wakeup_example = main_loop-wakeup (round 100 120 true) idle round_stays_on
