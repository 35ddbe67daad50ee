-- ===== src/App/Button.antt =====
-- The button in main_loop of src/app_main.c: a long press erases the settings.
use b80_key.Prelude.{ℕ, ◌+◌, ◌-◌, ◌*◌, ◌%◌, ◌^◌, ◌≤◌, ◌<◌, ◌≡◌, ◌⊎◌, refl, inl, inr, arith}
use b80_key.Prelude.{true, false, ltb, leb, if◌then◌else◌, ◌==◌, Bool-cases, lt→ltb}
use b80_key.Prelude.{[], ◌∷◌}
use b80_key.App.{
  App, Input, button, wake_up_at, tick_1s, led_on, led_off, set_wake_up, erase_all_cfg,
  sws_buffer_flush, start_reboot,
}

-- The clock `elapsed` ticks after `tt`.
abbrev pub later : ℕ → ℕ → ℕ
later tt elapsed = (tt + elapsed) % 2 ^ 32

-- The comparison that held_long makes, for a timer set at `tt`.
abbrev overdue : ℕ → ℕ → ℕ
overdue tt elapsed = (later tt elapsed + 2048 + (2 ^ 32 - wake_up_at tt)) % 2 ^ 32

overdue-long :
    (tt elapsed : ℕ)
    → tt < 2 ^ 32
    → 240000000 ≤ elapsed
    → elapsed < 288000000
    → overdue tt elapsed < 64000000
overdue-long tt elapsed word long bound = omega arith

overdue-short : (tt elapsed : ℕ) → tt < 2 ^ 32 → elapsed < 238400000 → 64000000 ≤ overdue tt elapsed
overdue-short tt elapsed word short = omega arith

-- A press of the button at a 32-bit clock, and a round with the button still on less than 14.9 or
-- 15 to 18 seconds after it: in the second case the round erases the settings and reboots, with the
-- timer cleared; in the first it makes no call but that of the LED and leaves the state as the press
-- did. The press is noted.
pub button-held :
    (a : App) (i j : Input) (elapsed : ℕ)
    → a.key_pressed ≡ false
    → i.tt < 2 ^ 32
    → i.button_on ≡ true
    → j.button_on ≡ true
    → j.now ≡ later i.tt elapsed
    → (elapsed < 14900 * 16000) ⊎ ((15 * tick_1s ≤ elapsed) × (elapsed < 18 * tick_1s))
    → let pressed = (button i a).app in
      let held = button j pressed in
      (held.off ≡ leb (15 * tick_1s) elapsed)
      × (held.calls ≡ (
          if leb (15 * tick_1s) elapsed
          then led_on
            ∷ led_off
            ∷ set_wake_up 0 false
            ∷ erase_all_cfg
            ∷ sws_buffer_flush
            ∷ start_reboot
            ∷ []
          else led_on ∷ []))
      × (held.app ≡ record pressed {
        timer_wake_up_tick = if leb (15 * tick_1s) elapsed then 0 else pressed.timer_wake_up_tick;
      })
      × (pressed.key_pressed ≡ true)
unfolding button
button-held a i j elapsed up word on on' clock (inl short) =
    let armed : (wake_up_at i.tt == 0) ≡ false = ground arith in
    let due : ltb (overdue i.tt elapsed) (4 * tick_1s) ≡ false =
      ground (arith, overdue-short i.tt elapsed word short) in
    let early : leb (15 * tick_1s) elapsed ≡ false = ground (arith, short) in
    rw (on, up, on', clock, armed, due, early) (refl, refl, refl, refl)
button-held a i j elapsed up word on on' clock (inr (long, bound)) =
    let armed : (wake_up_at i.tt == 0) ≡ false = ground arith in
    let due : ltb (overdue i.tt elapsed) (4 * tick_1s) ≡ true =
      lt→ltb _ _ (overdue-long i.tt elapsed word long bound) in
    let late : leb (15 * tick_1s) elapsed ≡ true = ground (arith, long) in
    rw (on, up, on', clock, armed, due, late) (refl, refl, refl, refl)

-- Releasing the button disarms the timer: the next round does not erase the settings.
pub button-released :
    (a : App) (i j : Input)
    → i.button_on ≡ false
    → a.key_pressed ≡ true
    → let released = (button i a).app in
      (released.timer_wake_up_tick ≡ 0) × ((button j released).off ≡ false)
unfolding button
button-released a i j off down =
    rw (off, down) (refl, elim (Bool-cases j.button_on) [ inl e ↦ rw e refl | inr e ↦ rw e refl ])
