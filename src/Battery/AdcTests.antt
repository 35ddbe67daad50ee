-- ===== src/Battery/AdcTests.antt =====
-- A driver whose hardware is its set-up, and measurements with it.
use b80_key.Prelude.{◌+◌, ◌≡◌, inl, refl, arith, true, false}
use b80_key.Battery
use b80_key.Battery.Adc.{Setup, Driver, Adc, get_adc}
use b80_key.Battery.Channel.{IsIdle, IsMeasuring}
use b80_key.Battery.Measurement.{get_adc-IsIdle}

-- TEMPERATURE_SENSOR_P_EE, TEMPERATURE_SENSOR_N_EE and GND as channels 14, 14 and 15; the words are
-- the channel and an index.
abbrev plain : Driver
plain = record {
  temperature_p = 14;
  temperature_n = 14;
  gnd = 15;
  Hardware = Setup;
  setup = λ h. h;
  write_sensor = λ v h. record h { sensor = v };
  write_vbat_div = λ v h. record h { vbat_div = v };
  adc_init = λ h. record h { powered = false; fifo = false };
  adc_set_ain_chn_misc = λ p n h. record h { input = (p, n) };
  adc_power_on_sar_adc = λ b h. record h { powered = b };
  adc_reset_adc_module = λ h. h;
  adc_config_misc_channel_buf = λ h. h;
  dfifo_enable_dfifo2 = λ h. record h { fifo = true };
  dfifo_disable_dfifo2 = λ h. record h { fifo = false };
  adc_dat_buf = λ h k. h.input.0 + k;
  setup-write_sensor = λ v h. refl;
  setup-write_vbat_div = λ v h. refl;
  setup-adc_init = λ h. refl;
  setup-adc_set_ain_chn_misc = λ p n h. refl;
  setup-adc_power_on_sar_adc = λ b h. refl;
  setup-adc_reset_adc_module = λ h. refl;
  setup-adc_config_misc_channel_buf = λ h. refl;
  setup-dfifo_enable_dfifo2 = λ h. refl;
  setup-dfifo_disable_dfifo2 = λ h. refl;
}

abbrev after_reset : Adc plain
after_reset = record {
  hw_initialized = 0;
  hw = record { input = (0, 0); powered = false; fifo = false; sensor = 0x1f; vbat_div = 0x00 };
}

after_reset-IsIdle : IsIdle plain after_reset
after_reset-IsIdle = record {
  unpowered = refl;
  sensor = refl;
  sensor_byte = omega arith;
  div_byte = omega arith;
  channel = inl refl;
}

-- The temperature, on a converter that was not used yet
get_adc-IsIdle_example :
    let (sum, a') = get_adc plain 14 after_reset in
    ((h : Setup) × IsMeasuring plain 14 h × (sum ≡ Battery.get_adc (λ k. h.input.0 + k)))
    × IsIdle plain a'
    × (a'.hw_initialized ≡ 14)
get_adc-IsIdle_example = get_adc-IsIdle plain 14 after_reset after_reset-IsIdle (omega arith)
