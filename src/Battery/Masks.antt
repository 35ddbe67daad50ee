-- ===== src/Battery/Masks.antt =====
-- The masks that get_adc of src/app_battery.c puts on its two registers, at every byte.
use b80_key.Prelude.{ℕ, ◌<◌, ◌≡◌, refl, arith, Bool, true, ◌&&◌, bit_and, bit_or}
use b80_key.Prelude.{◌==◌, ltb, every_below, every_below_lem}

-- What the masks do to every byte of the two registers
masks_test : ℕ → Bool
masks_test x =
    bit_and (bit_and x 0xef) 0x10 == 0
    && bit_and (bit_or x 0x10) 0x10 == 0x10
    && bit_and (bit_and x 0xf3) 0x0c == 0
    && bit_and (bit_or (bit_and x 0xf3) 4) 0x0c == 4
    && ltb (bit_and x 0xef) 256
    && ltb (bit_or x 0x10) 256
    && ltb (bit_and x 0xf3) 256
    && ltb (bit_or (bit_and x 0xf3) 4) 256

masks_table : every_below 256 masks_test ≡ true
unfolding every_below masks_test
masks_table = refl

pub record Masks (x : ℕ) : Type 0 where
  pub on : bit_and (bit_and x 0xef) 0x10 ≡ 0
  pub off : bit_and (bit_or x 0x10) 0x10 ≡ 0x10
  pub undivided : bit_and (bit_and x 0xf3) 0x0c ≡ 0
  pub divided : bit_and (bit_or (bit_and x 0xf3) 4) 0x0c ≡ 4
  pub on_byte : bit_and x 0xef < 256
  pub off_byte : bit_or x 0x10 < 256
  pub undivided_byte : bit_and x 0xf3 < 256
  pub divided_byte : bit_or (bit_and x 0xf3) 4 < 256

pub masks : (x : ℕ) → x < 256 → Masks x
unfolding masks_test
masks x byte =
    let test = every_below_lem 256 masks_test x masks_table byte in
    record {
      on = ground (arith, test);
      off = ground (arith, test);
      undivided = ground (arith, test);
      divided = ground (arith, test);
      on_byte = ground (arith, test);
      off_byte = ground (arith, test);
      undivided_byte = ground (arith, test);
      divided_byte = ground (arith, test);
    }
