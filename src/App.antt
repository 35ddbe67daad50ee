-- ===== src/App.antt =====
-- src/app_main.c and the event handler of src/app_ble.c: one round of main_loop and one event, as
-- steps on the state of the program that list the calls they make.
pub mod Button
pub mod Measure
pub mod Events
pub mod Led
pub mod Dump
pub mod Wakeup
pub mod Link
pub mod Tests
use b80_key.Prelude.{
  ℕ, zero, suc, ◌+◌, ◌-◌, ◌*◌, ◌/◌, ◌%◌, ◌^◌, List, [], ◌∷◌, ◌++◌, Bool, true, false, ◌&&◌, ◌||◌,
  not,
}
use b80_key.Prelude.{ltb, leb, ◌==◌, if◌then◌else◌}

-- work_t, and what main_loop reads of services_t and adv_buf_t.
pub record App : Type 0 where
  pub measure_tick : ℕ
  pub measure_interval : ℕ
  pub timer_wake_up_tick : ℕ
  pub key_counter : ℕ
  pub start_measure : Bool
  pub ota_is_working : Bool
  pub ble_connected : ℕ
  pub key_pressed : Bool
  pub battery_value_in_ccc : ℕ
  pub temp_value_in_ccc : ℕ
  pub flg_update : ℕ
  pub adv_event : ℕ
  pub send_count : ℕ

-- The calls out of the program that matter here.
pub data Call : Type 0 where
  sdk_main_loop notify_battery notify_temp set_adv_data go_sleep : Call
  call_calk_temp call_check_battery led_on led_off : Call
  set_event_adv set_connect_adv set_work_adv : Call
  set_wake_up : ℕ → Bool → Call
  erase_all_cfg start_reboot request_conn_param_update : Call
  set_rf_power suspend_disable suspend_sleep set_wakeup_source sws_buffer_flush : Call
  set_gpio_wakeup : Bool → Call

-- A step: the state, the calls in their order, and whether the chip went off (sleep or reboot),
-- where the rest of the code does not run.
pub record Run : Type 0 where
  pub app : App
  pub calls : List Call
  pub off : Bool

abbrev pub continue : App → List Call → Run
continue a calls = record { app = a; calls = calls; off = false }

abbrev pub switch_off : App → List Call → Run
switch_off a calls = record { app = a; calls = calls; off = true }

unfoldable pub and_then : Run → (App → Run) → Run
and_then r f =
    if r.off
    then r
    else (let r' = f r.app in record { app = r'.app; calls = r.calls ++ r'.calls; off = r'.off })

-- Bits of a byte: BIT(MEAS_BIT_..) and BIT(CONNECTED_FLG_..)
abbrev pub has_bit : ℕ → ℕ → Bool
has_bit flg i = flg / 2 ^ i % 2 == 1

abbrev pub clear_bit : ℕ → ℕ → ℕ
clear_bit flg i = if has_bit flg i then flg - 2 ^ i else flg

abbrev pub set_bit : ℕ → ℕ → ℕ
set_bit flg i = if has_bit flg i then flg else flg + 2 ^ i

abbrev pub vbat_adv : ℕ
vbat_adv = 0

abbrev pub vbat_ntf : ℕ
vbat_ntf = 1

abbrev pub temp_adv : ℕ
temp_adv = 2

abbrev pub temp_ntf : ℕ
temp_ntf = 3

-- What a round of main_loop reads: the clock at its start and later, the button, and whether the
-- power is low; `callbacks` is what the callbacks do in blc_sdk_main_loop.
pub record Input : Type 0 where
  pub tt : ℕ
  pub now : ℕ
  pub button_on : Bool
  pub low_power : Bool
  pub callbacks : App → App

-- The first lines: is it time to measure?
unfoldable pub measure_timer : ℕ → App → App
measure_timer tt a =
    if leb a.measure_interval ((tt + (2 ^ 32 - a.measure_tick)) % 2 ^ 32)
    then record a { measure_tick = tt; start_measure = true }
    else a

unfoldable pub notify_vbat : App → Run
notify_vbat a =
    if has_bit a.flg_update vbat_ntf && not (a.battery_value_in_ccc == 0)
    then continue (record a { flg_update = clear_bit a.flg_update vbat_ntf }) (notify_battery ∷ [])
    else continue a []

unfoldable pub notify_temperature : App → Run
notify_temperature a =
    if has_bit a.flg_update temp_ntf && not (a.temp_value_in_ccc == 0)
    then continue (record a { flg_update = clear_bit a.flg_update temp_ntf }) (notify_temp ∷ [])
    else continue a []

-- if (wrk.bleConnected) .. : the stack runs, then the notifications are sent.
unfoldable pub notify : Input → App → Run
notify i a =
    if a.ble_connected == 0
    then continue a []
    else and_then (and_then (continue (i.callbacks a) (sdk_main_loop ∷ [])) notify_vbat)
        notify_temperature

-- check_battery_level and calk_temp as far as they set flags; see also src/app_battery.c.
abbrev pub measure_vbat : Bool → ℕ → ℕ
measure_vbat low flg = if low then flg else set_bit (set_bit flg vbat_adv) vbat_ntf

abbrev pub measure_temp : ℕ → ℕ
measure_temp flg = set_bit (set_bit flg temp_adv) temp_ntf

-- The advertisement is renewed unless connected or during an event.
abbrev pub renew_adv : App → App × List Call
renew_adv a =
    if a.ble_connected == 0 && a.adv_event == 0
    then (record a { send_count = (a.send_count + 1) % 2 ^ 32 }, set_adv_data ∷ [])
    else (a, [])

-- if (wrk.startMeasure) .. : temperature and advertisement, or the battery, by turns.
unfoldable pub measure : Input → App → Run
measure i a =
    if not a.start_measure
    then continue a []
    else if has_bit a.flg_update vbat_adv
    then (let a1 = record a { start_measure = false; flg_update = measure_temp a.flg_update } in
        let (a2, calls) = renew_adv a1 in
        continue
          (record a2 {
            flg_update = clear_bit (clear_bit a2.flg_update vbat_adv) temp_adv;
            measure_tick = i.tt;
          })
          (call_calk_temp ∷ calls))
    else (let a1 = record a {
      start_measure = false;
      flg_update = measure_vbat i.low_power a.flg_update;
    } in
        if i.low_power
        then switch_off a1 (call_check_battery ∷ go_sleep ∷ [])
        else continue (record a1 { measure_tick = i.tt }) (call_check_battery ∷ []))

unfoldable pub advertise : Input → App → Run
advertise i a =
    if a.ble_connected == 0 then continue (i.callbacks a) (sdk_main_loop ∷ []) else continue a []

-- app_start_adv of src/app_ble.c: the state that it changes. The packet itself is in Bthome.
unfoldable pub app_start_adv : ℕ → App → App
app_start_adv adv_type a = record a {
  adv_event = adv_type;
  send_count = (a.send_count + 1) % 2 ^ 32;
}

-- if(!wrk.bleConnected) app_set_event_adv();
abbrev pub start_event : App → App
start_event a = record a {
  adv_event = if a.ble_connected == 0 then (app_start_adv 1 a).adv_event else a.adv_event;
  send_count = if a.ble_connected == 0 then (app_start_adv 1 a).send_count else a.send_count;
}

-- SYSTEM_TIMER_TICK_1S and BLT_TIMER_SAFE_MARGIN_PRE
abbrev pub tick_1s : ℕ
tick_1s = 16000000

abbrev pub safe_margin_pre : ℕ
safe_margin_pre = 2048

-- (tt + 15 * SYSTEM_TIMER_TICK_1S) | 1
abbrev pub wake_up_at : ℕ → ℕ
wake_up_at tt = (tt + 15 * tick_1s) % 2 ^ 32 / 2 * 2 + 1

-- wrk.timerWakeUpTick is set, and was reached less than four seconds ago.
abbrev pub held_long : ℕ → App → Bool
held_long now a =
    not (a.timer_wake_up_tick == 0)
    && ltb ((now + safe_margin_pre + (2 ^ 32 - a.timer_wake_up_tick)) % 2 ^ 32) (4 * tick_1s)

unfoldable pub button : Input → App → Run
button i a =
    if i.button_on
    then (if not a.key_pressed
        then (let a1 = record a {
          timer_wake_up_tick = wake_up_at i.tt;
          key_counter = (a.key_counter + 1) % 2 ^ 32;
        } in
            continue (record (start_event a1) { key_pressed = true })
              (led_on
                ∷ set_wake_up (wake_up_at i.tt) true
                ∷ (if a.ble_connected == 0 then set_event_adv ∷ [] else [])))
        else if held_long i.now a
        then switch_off (record a { timer_wake_up_tick = 0 })
            (led_on
              ∷ led_off
              ∷ set_wake_up 0 false
              ∷ erase_all_cfg
              ∷ sws_buffer_flush
              ∷ start_reboot
              ∷ [])
        else continue a (led_on ∷ []))
    else (if a.key_pressed
        then continue (record (start_event a) { timer_wake_up_tick = 0; key_pressed = false })
            (led_off
              ∷ ((if a.ble_connected == 0 then set_event_adv ∷ [] else [])
                  ++ set_wake_up 0 false ∷ []))
        else continue a [])

-- With GPIO_KEY_ON 0, the level of the pin that wakes the chip is wrk.keyPressed.
unfoldable pub power : App → Run
power a = continue a (
    if a.ota_is_working
    then suspend_disable ∷ []
    else set_gpio_wakeup a.key_pressed ∷ set_wakeup_source ∷ sws_buffer_flush ∷ suspend_sleep ∷ [])

unfoldable pub main_loop : Input → App → Run
main_loop i a =
    and_then
      (and_then (and_then (and_then (notify i (measure_timer i.tt a)) (measure i)) (advertise i))
        (button i))
      power
