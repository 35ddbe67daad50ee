-- ===== src/Battery/Adc.antt =====
-- The set-up of the converter by get_adc of src/app_battery.c. The vendor's driver is the parameter
-- Driver; its calls act on a hardware state of which the code relies on five parts.
use b80_key.Prelude.{ℕ, ◌≡◌, Bool, true, false, bit_and, bit_or}
use b80_key.Prelude.{if◌then◌else◌, ◌==◌}
use b80_key.Battery

-- The inputs of the converter, its power, its FIFO, the register 0x00, of which bit 4 switches the
-- temperature sensor off, and areg_adc_vref_vbat_div, of which bits 2 and 3 divide the voltage.
pub record Setup : Type 0 where
  pub input : ℕ × ℕ
  pub powered : Bool
  pub fifo : Bool
  pub sensor : ℕ
  pub vbat_div : ℕ

-- The driver: the channels, the calls and what they do to the set-up. `adc_dat_buf` are the words
-- that the converter stores in a state, and a conversion leaves the set-up as it is.
pub record Driver : Type 1 where
  pub temperature_p : ℕ
  pub temperature_n : ℕ
  pub gnd : ℕ
  pub Hardware : Type 0
  pub setup : Hardware → Setup
  pub write_sensor : ℕ → Hardware → Hardware
  pub write_vbat_div : ℕ → Hardware → Hardware
  pub adc_init : Hardware → Hardware
  pub adc_set_ain_chn_misc : ℕ → ℕ → Hardware → Hardware
  pub adc_power_on_sar_adc : Bool → Hardware → Hardware
  pub adc_reset_adc_module : Hardware → Hardware
  pub adc_config_misc_channel_buf : Hardware → Hardware
  pub dfifo_enable_dfifo2 : Hardware → Hardware
  pub dfifo_disable_dfifo2 : Hardware → Hardware
  pub adc_dat_buf : Hardware → ℕ → ℕ
  pub setup-write_sensor :
      (v : ℕ) (h : Hardware) → setup (write_sensor v h) ≡ record (setup h) { sensor = v }
  pub setup-write_vbat_div :
      (v : ℕ) (h : Hardware) → setup (write_vbat_div v h) ≡ record (setup h) { vbat_div = v }
  pub setup-adc_init :
      (h : Hardware) → setup (adc_init h) ≡ record (setup h) { powered = false; fifo = false }
  pub setup-adc_set_ain_chn_misc :
      (p n : ℕ) (h : Hardware)
      → setup (adc_set_ain_chn_misc p n h) ≡ record (setup h) { input = (p, n) }
  pub setup-adc_power_on_sar_adc :
      (b : Bool) (h : Hardware)
      → setup (adc_power_on_sar_adc b h) ≡ record (setup h) { powered = b }
  pub setup-adc_reset_adc_module : (h : Hardware) → setup (adc_reset_adc_module h) ≡ setup h
  pub setup-adc_config_misc_channel_buf :
      (h : Hardware) → setup (adc_config_misc_channel_buf h) ≡ setup h
  pub setup-dfifo_enable_dfifo2 :
      (h : Hardware) → setup (dfifo_enable_dfifo2 h) ≡ record (setup h) { fifo = true }
  pub setup-dfifo_disable_dfifo2 :
      (h : Hardware) → setup (dfifo_disable_dfifo2 h) ≡ record (setup h) { fifo = false }

module _ (d : Driver) where
  -- adc_hw_initialized and the hardware
  pub record Adc : Type 0 where
    pub hw_initialized : ℕ
    pub hw : d.Hardware

  -- The divider is off for the temperature sensor, and one fourth for the others.
  abbrev pub with_divider : ℕ → ℕ → ℕ
  with_divider p_ain v =
      if p_ain == d.temperature_p then bit_and v 0xf3 else bit_or (bit_and v 0xf3) 4

  abbrev pub negative_input : ℕ → ℕ
  negative_input p_ain = if p_ain == d.temperature_p then d.temperature_n else d.gnd

  -- if (adc_hw_initialized != p_ain) ..
  unfoldable pub select_channel : ℕ → Adc → Adc
  select_channel p_ain a =
      if a.hw_initialized == p_ain
      then a
      else let h = d.adc_init a.hw in
        let h' = d.write_vbat_div (with_divider p_ain (d.setup h).vbat_div) h in
        record {
          hw_initialized = p_ain;
          hw = d.adc_set_ain_chn_misc p_ain (negative_input p_ain) h';
        }

  -- The sensor is switched on for the measurement of the temperature.
  abbrev pub sensor_on : ℕ → d.Hardware → d.Hardware
  sensor_on p_ain h =
      if p_ain == d.temperature_p then d.write_sensor (bit_and (d.setup h).sensor 0xef) h else h

  abbrev pub sensor_off : ℕ → d.Hardware → d.Hardware
  sensor_off p_ain h =
      if p_ain == d.temperature_p then d.write_sensor (bit_or (d.setup h).sensor 0x10) h else h

  abbrev pub start_converter : d.Hardware → d.Hardware
  start_converter h =
      d.dfifo_enable_dfifo2
        (d.adc_config_misc_channel_buf (d.adc_reset_adc_module (d.adc_power_on_sar_adc true h)))

  abbrev pub stop_converter : d.Hardware → d.Hardware
  stop_converter h = d.adc_power_on_sar_adc false (d.dfifo_disable_dfifo2 h)

  unfoldable pub get_adc : ℕ → Adc → ℕ × Adc
  get_adc p_ain a =
      let a1 = select_channel p_ain a in
      let h = start_converter (sensor_on p_ain a1.hw) in
      (Battery.get_adc (d.adc_dat_buf h), record a1 { hw = sensor_off p_ain (stop_converter h) })
