-- ===== src/App/Led.antt =====
-- The LED of src/app_main.c. LED_ON is not defined there, so that the tests of it are false.
use b80_key.Prelude.{ℕ, Bool, true, false, if◌then◌else◌}

-- PM_PIN_PULLUP_10K and PM_PIN_PULLDOWN_100K
pub data Pull : Type 0 where
  pullup_10k pulldown_100k : Pull

-- GPIO_LED: its output and its resistor
pub record LedPin : Type 0 where
  pub output_en : Bool
  pub pull : Pull

abbrev pub is_led_on_defined : Bool
is_led_on_defined = false

abbrev pub led_on : LedPin → LedPin
led_on p = record {
  output_en = true;
  pull = if is_led_on_defined then pullup_10k else pulldown_100k;
}

abbrev pub led_off : LedPin → LedPin
led_off p = record {
  output_en = false;
  pull = if is_led_on_defined then pulldown_100k else pullup_10k;
}

-- The stack asks before it suspends; the answer is always 1.
abbrev pub app_suspend_enter : ℕ
app_suspend_enter = 1
