-- ===== src/App/Measure.antt =====
-- Measuring and notifying in main_loop of src/app_main.c.
use b80_key.Prelude.{ℕ, ◌+◌, ◌%◌, ◌^◌, ◌≡◌, ◌≢◌, refl, inl, inr, arith}
use b80_key.Prelude.{
  List, [], ◌∷◌, ◌++◌, Bool, true, false, ◌&&◌, not, ◌==◌, if◌then◌else◌, Bool-cases,
}
use b80_key.App.{
  App, Call, Input, notify_battery, notify_temp, sdk_main_loop, set_adv_data, call_calk_temp,
  call_check_battery, continue, and_then, has_bit, clear_bit, set_bit, vbat_adv, vbat_ntf, temp_adv,
  temp_ntf, notify, notify_vbat, notify_temperature, measure,
}

cleared : (f : ℕ) → has_bit (clear_bit (clear_bit f vbat_adv) temp_adv) vbat_adv ≡ false
cleared f = ground arith

-- With no low power, two rounds that measure, the first with no voltage waiting, renew the
-- advertisement in the second if nothing is connected and no event is shown, and leave no voltage
-- waiting.
pub measure-by_turns :
    (i j : Input) (a : App)
    → has_bit a.flg_update vbat_adv ≡ false
    → a.start_measure ≡ true
    → i.low_power ≡ false
    → a.ble_connected ≡ 0
    → a.adv_event ≡ 0
    → let first = measure i a in
      let second = measure j (record (first.app) { start_measure = true }) in
      (first.calls ≡ call_check_battery ∷ [])
      × (second.calls ≡ call_calk_temp ∷ set_adv_data ∷ [])
      × (second.app.send_count ≡ (a.send_count + 1) % 2 ^ 32)
      × (has_bit second.app.flg_update vbat_adv ≡ false)
unfolding measure
measure-by_turns i j a none start fine free quiet =
    let a1 = record a {
      start_measure = false;
      flg_update = set_bit (set_bit a.flg_update vbat_adv) vbat_ntf;
      measure_tick = i.tt;
    } in
    let first : measure i a ≡ continue a1 (call_check_battery ∷ []) = rw (start, none, fine) refl in
    let waiting : has_bit a1.flg_update vbat_adv ≡ true = ground (arith, none) in
    rw (first, waiting, free, quiet)
      (refl, refl, refl, cleared (set_bit (set_bit a1.flg_update temp_adv) temp_ntf))

abbrev pub sent : Bool → Call → List Call
sent due call = if due then call ∷ [] else []

cleared_ntf : (f : ℕ) → has_bit (clear_bit f vbat_ntf) vbat_ntf ≡ false
cleared_ntf f = ground arith

cleared_temp : (f : ℕ) → has_bit (clear_bit f temp_ntf) temp_ntf ≡ false
cleared_temp f = ground arith

kept_ntf : (f : ℕ) → has_bit (clear_bit f vbat_ntf) temp_ntf ≡ has_bit f temp_ntf
kept_ntf f = ground arith

kept_ntf' : (f : ℕ) → has_bit (clear_bit f temp_ntf) vbat_ntf ≡ has_bit f vbat_ntf
kept_ntf' f = ground arith

quiet :
    (b : App)
    → (has_bit b.flg_update vbat_ntf && not (b.battery_value_in_ccc == 0)) ≡ false
    → (has_bit b.flg_update temp_ntf && not (b.temp_value_in_ccc == 0)) ≡ false
    → (and_then (notify_vbat b) notify_temperature).calls ≡ []
unfolding and_then notify_vbat notify_temperature
quiet b e g = rw (e, g) refl

abbrev wants_vbat : App → Bool
wants_vbat b = has_bit b.flg_update vbat_ntf && not (b.battery_value_in_ccc == 0)

abbrev wants_temp : App → Bool
wants_temp b = has_bit b.flg_update temp_ntf && not (b.temp_value_in_ccc == 0)

-- The flags after a pass of the notifications.
abbrev flags_left : App → ℕ
flags_left b =
    let f = if wants_vbat b then clear_bit b.flg_update vbat_ntf else b.flg_update in
    if wants_temp b then clear_bit f temp_ntf else f

notify-flags :
    (i : Input) (a : App)
    → a.ble_connected ≢ 0
    → let b = i.callbacks a in
      notify i a
      ≡ continue
          (record b { flg_update = flags_left b })
          (sdk_main_loop ∷ (sent (wants_vbat b) notify_battery ++ sent (wants_temp b) notify_temp))
unfolding notify and_then notify_vbat notify_temperature
notify-flags i a connected =
    let b = i.callbacks a in
    let on : (a.ble_connected == 0) ≡ false = ground (arith, connected) in
    rw on (elim (Bool-cases (wants_vbat b)) [
      | inl e ↦ elim (Bool-cases (wants_temp b)) [
        | inl g ↦ rw (e, kept_ntf b.flg_update, g) refl
        | inr g ↦ rw (e, kept_ntf b.flg_update, g) refl
      ]
      | inr e ↦ elim (Bool-cases (wants_temp b)) [ inl g ↦ rw (e, g) refl | inr g ↦ rw (e, g) refl ]
    ])

flags_left-vbat :
    (b : App) → (has_bit (flags_left b) vbat_ntf && not (b.battery_value_in_ccc == 0)) ≡ false
flags_left-vbat b = elim (Bool-cases (wants_vbat b)) [
  | inl e ↦ elim (Bool-cases (wants_temp b)) [
    | inl g ↦ rw (e, g, kept_ntf' (clear_bit b.flg_update vbat_ntf), cleared_ntf b.flg_update) refl
    | inr g ↦ rw (e, g, cleared_ntf b.flg_update) refl
  ]
  | inr e ↦ elim (Bool-cases (wants_temp b)) [
    | inl g ↦ rw (e, g, kept_ntf' b.flg_update, e) refl
    | inr g ↦ rw (e, g, e) refl
  ]
]

flags_left-temp :
    (b : App) → (has_bit (flags_left b) temp_ntf && not (b.temp_value_in_ccc == 0)) ≡ false
flags_left-temp b = elim (Bool-cases (wants_vbat b)) [
  | inl e ↦ elim (Bool-cases (wants_temp b)) [
    | inl g ↦ rw (e, g, cleared_temp (clear_bit b.flg_update vbat_ntf)) refl
    | inr g ↦ rw (e, g, kept_ntf b.flg_update, g) refl
  ]
  | inr e ↦ elim (Bool-cases (wants_temp b)) [
    | inl g ↦ rw (e, g, cleared_temp b.flg_update) refl
    | inr g ↦ rw (e, g, g) refl
  ]
]

-- In a connection the stack runs first; then each value whose flag is set is sent if the client has
-- asked for it, the voltage before the temperature. A second pass would send nothing.
pub notify_lem :
    (i : Input) (a : App)
    → a.ble_connected ≢ 0
    → let b = i.callbacks a in
      let r = notify i a in
      (r.calls
        ≡ sdk_main_loop
          ∷ (sent
                (has_bit b.flg_update vbat_ntf && not (b.battery_value_in_ccc == 0))
                notify_battery
              ++ sent
                  (has_bit b.flg_update temp_ntf && not (b.temp_value_in_ccc == 0))
                  notify_temp))
      × ((and_then (notify_vbat r.app) notify_temperature).calls ≡ [])
notify_lem i a connected =
    let b = i.callbacks a in
    rw (notify-flags i a connected)
      (refl, quiet (record b { flg_update = flags_left b }) (flags_left-vbat b) (flags_left-temp b))
