-- ===== src/App/Link.antt =====
-- The connection flags under the events of src/app_ble.c.
use b80_key.Prelude.{ℕ, ◌≡◌, ◌∙◌, refl, arith}
use b80_key.Prelude.{List, [], ◌∷◌, Bool, true, false}
use b80_key.App.{App, has_bit, set_bit, and_then, app_start_adv}
use b80_key.App.Events.{
  Event, adv_duration_timeout, connect, terminate, data_length_exchange, conn_para_update,
  suspend_exit, other_event, app_event_handler, run_events, flg_enable, flg_reset_of_disconnect,
}

-- Whether there is a connection after the events: the last one of connect and terminate says so.
unfoldable pub is_linked : List Event → Bool → Bool
is_linked [] before = before
is_linked (connect ∷ es) before = is_linked es true
is_linked (terminate ∷ es) before = is_linked es false
is_linked (adv_duration_timeout ∷ es) before = is_linked es before
is_linked (data_length_exchange ∷ es) before = is_linked es before
is_linked (conn_para_update ∷ es) before = is_linked es before
is_linked (suspend_exit ∷ es) before = is_linked es before
is_linked (other_event ∷ es) before = is_linked es before

kept_0_3 : (f : ℕ) → has_bit (set_bit f 3) 0 ≡ has_bit f 0
kept_0_3 f = ground arith

kept_0_1 : (f : ℕ) → has_bit (set_bit f 1) 0 ≡ has_bit f 0
kept_0_1 f = ground arith

kept_7_3 : (f : ℕ) → has_bit (set_bit f 3) 7 ≡ has_bit f 7
kept_7_3 f = ground arith

kept_7_1 : (f : ℕ) → has_bit (set_bit f 1) 7 ≡ has_bit f 7
kept_7_1 f = ground arith

-- Whatever the events, with no reset asked for before them: the chip stays on, no reset is asked for,
-- and the connection flag says whether there is a connection.
pub run_events-is_linked :
    (es : List Event) (a : App)
    → has_bit a.ble_connected flg_reset_of_disconnect ≡ false
    → let r = run_events es a in
      (r.off ≡ false)
      × (has_bit r.app.ble_connected flg_reset_of_disconnect ≡ false)
      × (has_bit r.app.ble_connected flg_enable ≡ is_linked es (has_bit a.ble_connected flg_enable))
unfolding run_events and_then app_event_handler is_linked app_start_adv
run_events-is_linked [] a h = (refl, h, refl)
run_events-is_linked (connect ∷ es) a h = run_events-is_linked es _ refl
run_events-is_linked (terminate ∷ es) a h =
    rw h (run_events-is_linked es (app_start_adv 0 (record a { ble_connected = 0 })) refl)
run_events-is_linked (adv_duration_timeout ∷ es) a h = run_events-is_linked es (app_start_adv 0 a) h
run_events-is_linked (data_length_exchange ∷ es) a h = rw (← kept_0_3 a.ble_connected) (
    run_events-is_linked es (record a { ble_connected = set_bit a.ble_connected 3 })
      (kept_7_3 a.ble_connected ∙ h))
run_events-is_linked (conn_para_update ∷ es) a h = rw (← kept_0_1 a.ble_connected) (
    run_events-is_linked es (record a { ble_connected = set_bit a.ble_connected 1 })
      (kept_7_1 a.ble_connected ∙ h))
run_events-is_linked (suspend_exit ∷ es) a h = run_events-is_linked es a h
run_events-is_linked (other_event ∷ es) a h = run_events-is_linked es a h
