-- ===== src/Printf/Serial.antt =====
-- The output of src/sws_printf.c by a pin (GPIO_PRINTF_MODE): the values that sws_putchar writes to
-- the port, one for each bit time, and the receiver at the other end. The eight pins of a port share
-- its register; `k` is the number of DEBUG_INFO_TX_PIN in it.
use b80_key.Prelude.{
  ℕ, suc, ◌+◌, ◌-◌, ◌*◌, ◌/◌, ◌%◌, ◌^◌, ◌<◌, ◌≡◌, ◌∙◌, refl, ap, ap₂, arith, bit_and, bit_or, Bool,
  true, false, not, ◌&&◌, Option, none, some, List, [], ◌∷◌, ◌++◌, map,
}
use b80_key.Prelude.{
  if◌then◌else◌, ◌==◌, ==_iff, ltb, ltb→lt, length, replicate, every_below, every_below_lem,
}
use mathlib.Core.Option
use mathlib.Core.List.{map-append, map-map}
use b80_key.Eep.Log.{IsByte, All}

-- The pin: its function, its output, its resistor, and the register reg_gpio_out of its port.
pub record Pin : Type 0 where
  pub as_gpio : Bool
  pub output_en : Bool
  pub pullup_1m : Bool
  pub out : ℕ

-- tmp_bit0 and tmp_bit1
unfoldable pub low : ℕ → ℕ → ℕ
low k out = bit_and out (255 - 2 ^ k)

unfoldable pub high : ℕ → ℕ → ℕ
high k out = bit_or out (2 ^ k)

abbrev pub bit_value : ℕ → ℕ → Bool → ℕ
bit_value k out b = if b then high k out else low k out

unfoldable pub sws_init : ℕ → Pin → Pin
sws_init k p = record {
  as_gpio = true;
  output_en = true;
  pullup_1m = true;
  out = bit_value k p.out true;
}

-- (c >> i) & 0x01 for i from 0 to 7, after the start bit and before the stop bit
abbrev pub bits : ℕ → List Bool
bits c =
    false
    ∷ (c % 2 == 1)
    ∷ (c / 2 % 2 == 1)
    ∷ (c / 4 % 2 == 1)
    ∷ (c / 8 % 2 == 1)
    ∷ (c / 16 % 2 == 1)
    ∷ (c / 32 % 2 == 1)
    ∷ (c / 64 % 2 == 1)
    ∷ (c / 128 % 2 == 1)
    ∷ true
    ∷ []

-- The values written to the port, and the port then.
unfoldable pub sws_putchar : ℕ → ℕ → ℕ → List ℕ × ℕ
sws_putchar k c out = (map (bit_value k out) (bits c), high k out)

unfoldable pub sws_puts : ℕ → List ℕ → ℕ → List ℕ × ℕ
sws_puts k [] out = ([], out)
sws_puts k (c ∷ cs) out =
    let (writes, out') = sws_putchar k c out in
    let (more, out'') = sws_puts k cs out' in (writes ++ more, out'')

-- A receiver with eight data bits, the lowest first, and one stop bit, on the levels of the line.
abbrev value : Bool → ℕ
value b = if b then 1 else 0

pub receive : List Bool → Option (List ℕ)
receive [] = some []
receive (false ∷ b0 ∷ b1 ∷ b2 ∷ b3 ∷ b4 ∷ b5 ∷ b6 ∷ b7 ∷ true ∷ rest) =
    let c =
      value b0
      + value b1 * 2
      + value b2 * 4
      + value b3 * 8
      + value b4 * 16
      + value b5 * 32
      + value b6 * 64
      + value b7 * 128 in
    Option.map (λ cs. c ∷ cs) (receive rest)
receive other = none

abbrev pub level : ℕ → ℕ → Bool
level k v = not (bit_and v (2 ^ k) == 0)

-- The seven other pins
abbrev pub others : ℕ → ℕ → ℕ
others k v = bit_and v (255 - 2 ^ k)

levels_test : ℕ → ℕ → Bool
levels_test k out =
    not (level k (low k out))
    && level k (high k out)
    && others k (low k out) == others k out
    && others k (high k out) == others k out
    && ltb (high k out) 256

levels_table : every_below 8 (λ k. every_below 256 (levels_test k)) ≡ true
unfolding every_below levels_test low high
levels_table = refl

-- What the two values have in common with the port and where they differ.
record Levels (k out : ℕ) : Type 0 where
  shown : (b : Bool) → level k (bit_value k out b) ≡ b
  kept : (b : Bool) → others k (bit_value k out b) ≡ others k out
  small : high k out < 256

levels : (k out : ℕ) → k < 8 → out < 256 → Levels k out
unfolding levels_test
levels k out pin byte =
    let row = every_below_lem 8 (λ k. every_below 256 (levels_test k)) k levels_table pin in
    let test = every_below_lem 256 (levels_test k) out row byte in
    let lows : level k (low k out) ≡ false = ground (arith, test) in
    let highs : level k (high k out) ≡ true = ground (arith, test) in
    let low_kept : others k (low k out) ≡ others k out = ground (arith, test) in
    let high_kept : others k (high k out) ≡ others k out = ground (arith, test) in
    let less : ltb (high k out) 256 ≡ true = ground (arith, test) in
    record {
      shown = λ b. elim b as (λ b. level k (bit_value k out b) ≡ b) [ true ↦ highs | false ↦ lows ];
      kept = λ b. elim b as (λ b. others k (bit_value k out b) ≡ others k out) [
        | true ↦ high_kept
        | false ↦ low_kept
      ];
      small = ltb→lt (high k out) 256 less;
    }

abbrev sum_of_bits : ℕ → ℕ
sum_of_bits c =
    value (c % 2 == 1)
    + value (c / 2 % 2 == 1) * 2
    + value (c / 4 % 2 == 1) * 4
    + value (c / 8 % 2 == 1) * 8
    + value (c / 16 % 2 == 1) * 16
    + value (c / 32 % 2 == 1) * 32
    + value (c / 64 % 2 == 1) * 64
    + value (c / 128 % 2 == 1) * 128

bits_table : every_below 256 (λ c. sum_of_bits c == c) ≡ true
unfolding every_below
bits_table = refl

receive-bits :
    (c : ℕ) (rest : List Bool)
    → c < 256
    → receive (bits c ++ rest) ≡ Option.map (λ cs. c ∷ cs) (receive rest)
unfolding receive
receive-bits c rest byte =
    ap (λ n. Option.map (λ cs. n ∷ cs) (receive rest))
      ((==_iff _ c).0 (every_below_lem 256 (λ c. sum_of_bits c == c) c bits_table byte))

map-unchanged {ℓ κ} :
    {A : Type ℓ} {B : Type κ} (f : A → B) (g : A → B) (xs : List A)
    → ((x : A) → f x ≡ g x)
    → map f xs ≡ map g xs
map-unchanged f g [] same = refl
map-unchanged f g (x ∷ xs) same = λ i. same x i ∷ map-unchanged f g xs same i

shown-bits : (k out c : ℕ) → Levels k out → map (level k) (map (bit_value k out) (bits c)) ≡ bits c
shown-bits k out c l =
    map-map (level k) (bit_value k out) (bits c)
    ∙ map-unchanged (λ b. level k (bit_value k out b)) (λ b. b) (bits c) l.shown

kept-bits :
    (k out c : ℕ)
    → Levels k out
    → map (others k) (map (bit_value k out) (bits c)) ≡ replicate 10 (others k out)
kept-bits k out c l =
    map-map (others k) (bit_value k out) (bits c)
    ∙ map-unchanged (λ b. others k (bit_value k out b)) (λ b. others k out) (bits c) l.kept

frames : (n v : ℕ) → replicate 10 v ++ replicate (n * 10) v ≡ replicate (suc n * 10) v
frames n v =
    let ten : suc (suc (suc (suc (suc (suc (suc (suc (suc (suc (n * 10)))))))))) ≡ suc n * 10 =
      omega arith in
    ap (λ m. replicate m v) ten

-- What goes over the pin for a string of bytes is read back by a receiver with eight data bits and a
-- stop bit, and none of the writes changes the seven other pins of the port, nor does the last one.
pub receive-sws_puts :
    (k : ℕ) (cs : List ℕ) (out : ℕ)
    → k < 8
    → out < 256
    → All IsByte cs
    → let (writes, out') = sws_puts k cs out in
      (receive (map (level k) writes) ≡ some cs)
      × (map (others k) writes ≡ replicate (length cs * 10) (others k out))
      × (others k out' ≡ others k out)
unfolding sws_puts sws_putchar receive
receive-sws_puts k [] out pin byte bytes = (refl, refl, refl)
receive-sws_puts k (c ∷ cs) out pin byte (c_byte, bytes) =
    let l = levels k out pin byte in
    let writes = map (bit_value k out) (bits c) in
    let (more, out'') = sws_puts k cs (high k out) in
    let rest = receive-sws_puts k cs (high k out) pin l.small bytes in
    (
      ap receive (map-append (level k) writes more)
          ∙ ap (λ w. receive (w ++ map (level k) more)) (shown-bits k out c l)
          ∙ receive-bits c (map (level k) more) c_byte
          ∙ ap (Option.map (λ cs. c ∷ cs)) rest.0,
      map-append (others k) writes more
          ∙ ap₂ (λ a b. a ++ b) (kept-bits k out c l)
              (rest.1 ∙ ap (λ v. replicate (length cs * 10) v) (l.kept true))
          ∙ frames (length cs) (others k out),
      rest.2 ∙ l.kept true,
    )
