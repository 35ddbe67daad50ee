-- ===== src/Battery/Measurement.antt =====
-- The measurements of get_adc in src/app_battery.c: the set-up during each, and the state of the
-- converter between them.
use b80_key.Prelude.{ℕ, ◌<◌, ◌≡◌, ◌≢◌, inl, inr, ◌∙◌, refl, sym, ap, true, false, bit_and, bit_or}
use b80_key.Prelude.{if◌then◌else◌, ◌==◌, Bool-cases}
use mathlib.Core.Path.{subst}
use b80_key.Battery
use b80_key.Battery.Masks.{masks}
use b80_key.Battery.Adc.{
  Setup, Driver, Adc, select_channel, sensor_on, sensor_off, start_converter, stop_converter,
  get_adc,
}
use b80_key.Battery.Channel.{IsConfigured, IsIdle, IsMeasuring, select_channel-IsSelected}

module _ (d : Driver) where
  setup-start :
      (h : d.Hardware)
      → d.setup (start_converter d h) ≡ record (d.setup h) { powered = true; fifo = true }
  setup-start h = simp (
    d.setup-dfifo_enable_dfifo2, d.setup-adc_config_misc_channel_buf, d.setup-adc_reset_adc_module,
    d.setup-adc_power_on_sar_adc,
  )

  setup-stop :
      (h : d.Hardware)
      → d.setup (stop_converter d h) ≡ record (d.setup h) { powered = false; fifo = false }
  setup-stop h = simp (d.setup-dfifo_disable_dfifo2, d.setup-adc_power_on_sar_adc)

  setup-sensor_on :
      (p_ain : ℕ) (h : d.Hardware)
      → d.setup (sensor_on d p_ain h) ≡ record (d.setup h) {
        sensor =
            if p_ain == d.temperature_p
            then bit_and (d.setup h).sensor 0xef
            else (d.setup h).sensor;
      }
  setup-sensor_on p_ain h = elim (Bool-cases (p_ain == d.temperature_p)) [
    | inl e ↦ rw e (d.setup-write_sensor (bit_and (d.setup h).sensor 0xef) h)
    | inr e ↦ rw e refl
  ]

  setup-sensor_off :
      (p_ain : ℕ) (h : d.Hardware)
      → d.setup (sensor_off d p_ain h) ≡ record (d.setup h) {
        sensor =
            if p_ain == d.temperature_p then bit_or (d.setup h).sensor 0x10 else (d.setup h).sensor;
      }
  setup-sensor_off p_ain h = elim (Bool-cases (p_ain == d.temperature_p)) [
    | inl e ↦ rw e (d.setup-write_sensor (bit_or (d.setup h).sensor 0x10) h)
    | inr e ↦ rw e refl
  ]

  -- The set-ups of the measurement and after it
  abbrev measuring : ℕ → Setup → Setup
  measuring p_ain s = record {
    input = s.input;
    powered = true;
    fifo = true;
    sensor = if p_ain == d.temperature_p then bit_and s.sensor 0xef else s.sensor;
    vbat_div = s.vbat_div;
  }

  abbrev measured : ℕ → Setup → Setup
  measured p_ain s = record {
    input = s.input;
    powered = false;
    fifo = false;
    sensor = if p_ain == d.temperature_p then bit_or s.sensor 0x10 else s.sensor;
    vbat_div = s.vbat_div;
  }

  setup-measuring :
      (p_ain : ℕ) (h : d.Hardware)
      → d.setup (start_converter d (sensor_on d p_ain h)) ≡ measuring p_ain (d.setup h)
  setup-measuring p_ain h =
      setup-start (sensor_on d p_ain h)
      ∙ ap (λ (s : Setup). record s { powered = true; fifo = true }) (setup-sensor_on p_ain h)

  setup-measured :
      (p_ain : ℕ) (h : d.Hardware)
      → d.setup (sensor_off d p_ain (stop_converter d h)) ≡ measured p_ain (d.setup h)
  setup-measured p_ain h =
      setup-sensor_off p_ain (stop_converter d h)
      ∙ ap
          (λ (s : Setup). record s {
            sensor = if p_ain == d.temperature_p then bit_or s.sensor 0x10 else s.sensor;
          })
          (setup-stop h)

  measuring-IsMeasuring :
      (p_ain : ℕ) (s : Setup)
      → IsConfigured d p_ain s
      → bit_and s.sensor 0x10 ≡ 0x10
      → s.sensor < 256
      → IsMeasuring d p_ain (measuring p_ain s)
  measuring-IsMeasuring p_ain s c off byte =
      let channel : IsConfigured d p_ain (measuring p_ain s) = record {
        input = c.input;
        divider = c.divider;
        div_byte = c.div_byte;
      } in
      elim (Bool-cases (p_ain == d.temperature_p)) [
        | inl e ↦ record {
          channel = channel;
          powered = refl;
          fifo = refl;
          sensor = rw e ((masks s.sensor byte).on);
        }
        | inr e ↦ record { channel = channel; powered = refl; fifo = refl; sensor = rw e off }
      ]

  -- The sensor is off again.
  IsOff-measured :
      (p_ain : ℕ) (s : Setup)
      → bit_and s.sensor 0x10 ≡ 0x10
      → s.sensor < 256
      → (bit_and (measured p_ain (measuring p_ain s)).sensor 0x10 ≡ 0x10)
        × ((measured p_ain (measuring p_ain s)).sensor < 256)
  IsOff-measured p_ain s off byte = elim (Bool-cases (p_ain == d.temperature_p)) [
    | inl e ↦
        let m = masks (bit_and s.sensor 0xef) ((masks s.sensor byte).on_byte) in
        rw e (m.off, m.off_byte)
    | inr e ↦ rw e (off, byte)
  ]

  -- A measurement by get_adc on an idle converter takes its samples with the input and the divider of
  -- the channel that is asked for, with the power and the FIFO on and the temperature sensor on exactly
  -- for its own channel, whatever channel was measured before. Afterwards the converter is idle again
  -- and the channel is the one that is set up.
  pub get_adc-IsIdle :
      (p_ain : ℕ) (a : Adc d)
      → IsIdle d a
      → p_ain ≢ 0
      → let (sum, a') = get_adc d p_ain a in
        ((h : d.Hardware) × IsMeasuring d p_ain (d.setup h)
          × (sum ≡ Battery.get_adc (d.adc_dat_buf h)))
        × IsIdle d a'
        × (a'.hw_initialized ≡ p_ain)
  unfolding get_adc
  get_adc-IsIdle p_ain a idle used =
      let sel = select_channel-IsSelected d p_ain a idle used in
      let a1 = select_channel d p_ain a in
      let s1 = d.setup a1.hw in
      let h = start_converter d (sensor_on d p_ain a1.hw) in
      let off = ap (λ x. bit_and x 0x10) sel.sensor ∙ idle.sensor in
      let byte = subst (λ x. x < 256) (sym sel.sensor) idle.sensor_byte in
      let end_ = setup-measured p_ain h ∙ ap (measured p_ain) (setup-measuring p_ain a1.hw) in
      let again = IsOff-measured p_ain s1 off byte in
      let c = sel.channel in
      let last : IsConfigured d p_ain (measured p_ain (measuring p_ain s1)) = record {
        input = c.input;
        divider = c.divider;
        div_byte = c.div_byte;
      } in
      (
        (
          h,
          subst (IsMeasuring d p_ain) (sym (setup-measuring p_ain a1.hw))
              (measuring-IsMeasuring p_ain s1 c off byte),
          refl,
        ),
        record {
          unpowered = ap (λ (s : Setup). s.powered) end_;
          sensor = ap (λ (s : Setup). bit_and s.sensor 0x10) end_ ∙ again.0;
          sensor_byte = subst (λ (s : Setup). s.sensor < 256) (sym end_) again.1;
          div_byte = subst (λ (s : Setup). s.vbat_div < 256) (sym end_) last.div_byte;
          channel = inr (
              subst (λ p. IsConfigured d p (d.setup (get_adc d p_ain a).1.hw)) (sym sel.initialized)
                (subst (IsConfigured d p_ain) (sym end_) last));
        },
        sel.initialized,
      )
