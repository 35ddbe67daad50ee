-- ===== src/Battery/Channel.antt =====
-- The channel that select_channel of get_adc in src/app_battery.c sets up, and what it means that the
-- converter is idle or measures.
use b80_key.Prelude.{ℕ, ◌<◌, ◌≡◌, ◌≢◌, ◌⊎◌, inl, inr, ◌∙◌, refl, sym, ap, true, false, bit_and}
use b80_key.Prelude.{if◌then◌else◌, ◌==◌, ==_iff, Bool-cases}
use mathlib.Core.Path.{subst}
use b80_key.Battery.Masks.{masks}
use b80_key.Battery.Adc.{Setup, Driver, Adc, with_divider, negative_input, select_channel}

module _ (d : Driver) where
  -- The input and the divider of a channel
  pub record IsConfigured (p_ain : ℕ) (s : Setup) : Type 0 where
    pub input : s.input ≡ (p_ain, negative_input d p_ain)
    pub divider : bit_and s.vbat_div 0x0c ≡ (if p_ain == d.temperature_p then 0 else 4)
    pub div_byte : s.vbat_div < 256

  -- The converter is off, the sensor too, and the channel that was set up last is as it was.
  pub record IsIdle (a : Adc d) : Type 0 where
    pub unpowered : (d.setup a.hw).powered ≡ false
    pub sensor : bit_and (d.setup a.hw).sensor 0x10 ≡ 0x10
    pub sensor_byte : (d.setup a.hw).sensor < 256
    pub div_byte : (d.setup a.hw).vbat_div < 256
    pub channel : (a.hw_initialized ≡ 0) ⊎ IsConfigured a.hw_initialized (d.setup a.hw)

  -- The state in which the samples are taken
  pub record IsMeasuring (p_ain : ℕ) (s : Setup) : Type 0 where
    pub channel : IsConfigured p_ain s
    pub powered : s.powered ≡ true
    pub fifo : s.fifo ≡ true
    pub sensor : bit_and s.sensor 0x10 ≡ (if p_ain == d.temperature_p then 0 else 0x10)

  -- The set-up after select_channel has changed the channel
  abbrev changed : ℕ → Setup → Setup
  changed p_ain s = record {
    input = (p_ain, negative_input d p_ain);
    powered = false;
    fifo = false;
    sensor = s.sensor;
    vbat_div = with_divider d p_ain s.vbat_div;
  }

  setup-changed :
      (p_ain : ℕ) (h : d.Hardware)
      → d.setup (
          d.adc_set_ain_chn_misc p_ain (negative_input d p_ain) (
            d.write_vbat_div
              (with_divider d p_ain (d.setup (d.adc_init h)).vbat_div)
              (d.adc_init h)))
        ≡ changed p_ain (d.setup h)
  setup-changed p_ain h =
      simp (d.setup-adc_set_ain_chn_misc, d.setup-write_vbat_div, d.setup-adc_init)

  changed-IsConfigured :
      (p_ain : ℕ) (s : Setup) → s.vbat_div < 256 → IsConfigured p_ain (changed p_ain s)
  changed-IsConfigured p_ain s byte =
      let m = masks s.vbat_div byte in
      elim (Bool-cases (p_ain == d.temperature_p)) [
        | inl e ↦ record {
          input = refl;
          divider = rw e m.undivided;
          div_byte = rw e m.undivided_byte;
        }
        | inr e ↦ record { input = refl; divider = rw e m.divided; div_byte = rw e m.divided_byte }
      ]

  -- What select_channel leaves
  pub record IsSelected (p_ain : ℕ) (a : Adc d) (s : Setup) : Type 0 where
    pub initialized : a.hw_initialized ≡ p_ain
    pub channel : IsConfigured p_ain (d.setup a.hw)
    pub sensor : (d.setup a.hw).sensor ≡ s.sensor

  same_channel :
      (p_ain : ℕ) (a : Adc d)
      → a.hw_initialized ≡ p_ain
      → p_ain ≢ 0
      → (a.hw_initialized ≡ 0) ⊎ IsConfigured a.hw_initialized (d.setup a.hw)
      → IsConfigured p_ain (d.setup a.hw)
  same_channel p_ain a e used (inl z) = absurd (used (sym e ∙ z))
  same_channel p_ain a e used (inr c) = subst (λ p. IsConfigured p (d.setup a.hw)) e c

  pub select_channel-IsSelected :
      (p_ain : ℕ) (a : Adc d)
      → IsIdle a
      → p_ain ≢ 0
      → IsSelected p_ain (select_channel d p_ain a) (d.setup a.hw)
  unfolding select_channel
  select_channel-IsSelected p_ain a idle used = elim (Bool-cases (a.hw_initialized == p_ain)) [
    | inl e ↦ rw e (
        let same = (==_iff a.hw_initialized p_ain).0 e in
        record {
          initialized = same;
          channel = same_channel p_ain a same used idle.channel;
          sensor = refl;
        })
    | inr e ↦ rw e (
        let to = setup-changed p_ain a.hw in
        record {
          initialized = refl;
          channel =
              subst (IsConfigured p_ain) (sym to)
                (changed-IsConfigured p_ain (d.setup a.hw) idle.div_byte);
          sensor = ap (λ (s : Setup). s.sensor) to;
        })
  ]
