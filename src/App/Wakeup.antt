-- ===== src/App/Wakeup.antt =====
-- What wakes the chip after a round of main_loop in src/app_main.c.
use b80_key.Prelude.{
  ◌≡◌, ◌∙◌, refl, sym, ap, Bool, false, if◌then◌else◌, List, [], ◌∷◌, ◌++◌, arith, Bool-cases, inl,
  inr,
}
use b80_key.App.{
  App, Call, Run, Input, and_then, notify, measure_timer, measure, advertise, button, power,
  main_loop, suspend_disable, suspend_sleep, set_gpio_wakeup, set_wakeup_source, sws_buffer_flush,
}

-- The calls behind those of the stages before
abbrev pub last_calls : Bool → Bool → List Call
last_calls ota pressed =
    if ota
    then suspend_disable ∷ []
    else set_gpio_wakeup pressed ∷ set_wakeup_source ∷ sws_buffer_flush ∷ suspend_sleep ∷ []

button-key_pressed :
    (i : Input) (a : App) → (button i a).off ≡ false → (button i a).app.key_pressed ≡ i.button_on
unfolding button
button-key_pressed i a on = ground arith

-- A run that stays on went through both its parts.
record StaysOn (r : Run) (f : App → Run) : Type 0 where
  first : r.off ≡ false
  second : (f r.app).off ≡ false
  app : (and_then r f).app ≡ (f r.app).app
  calls : (and_then r f).calls ≡ r.calls ++ (f r.app).calls

stays_on : (r : Run) (f : App → Run) → (and_then r f).off ≡ false → StaysOn r f
unfolding and_then
stays_on r f on = elim (Bool-cases r.off) [
  | inl e ↦ absurd (ground (arith, on, e))
  | inr e ↦ record { first = e; second = ground (arith, on, e); app = rw e refl; calls = rw e refl }
]

-- A round of main_loop that leaves the chip on notes whether the button is on. Its last calls keep the
-- chip awake during an update; otherwise they let it sleep until the pin of the button has the level
-- wrk.keyPressed, which with a button that is on when low is the level that the pin does not have.
pub main_loop-wakeup :
    (i : Input) (a : App)
    → (main_loop i a).off ≡ false
    → let r = main_loop i a in
      (r.app.key_pressed ≡ i.button_on)
      × ((front : List Call) × (r.calls ≡ front ++ last_calls r.app.ota_is_working i.button_on))
unfolding main_loop power
main_loop-wakeup i a on =
    let before = and_then (and_then (notify i (measure_timer i.tt a)) (measure i)) (advertise i) in
    let pressed = and_then before (button i) in
    let end_ = stays_on pressed power on in
    let press = stays_on before (button i) end_.first in
    let key : pressed.app.key_pressed ≡ i.button_on =
      ap (λ (s : App). s.key_pressed) press.app ∙ button-key_pressed i before.app press.second in
    (
      ap (λ (s : App). s.key_pressed) end_.app ∙ key,
      (
        pressed.calls,
        end_.calls
            ∙ ap (λ b. pressed.calls ++ last_calls pressed.app.ota_is_working b) key
            ∙ ap (λ (s : App). pressed.calls ++ last_calls s.ota_is_working i.button_on)
                (sym end_.app),
      ),
    )
