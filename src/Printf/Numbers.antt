-- ===== src/Printf/Numbers.antt =====
-- The numbers that src/sws_printf.c prints, read back.
use b80_key.Prelude.{
  ℕ, zero, suc, ◌+◌, ◌-◌, ◌*◌, ◌/◌, ◌%◌, ◌^◌, ◌≤◌, ◌<◌, ◌≡◌, ◌⊎◌, inl, inr, ◌∙◌, refl, sym, ap,
  arith,
}
use b80_key.Prelude.{
  List, [], ◌∷◌, true, if◌then◌else◌, ◌==◌, ==_iff, ltb, not, ◌&&◌, Bool-cases, length, get_or,
  every_below, every_below_lem,
}
use b80_key.Printf.{tab_hex_ascii, puti_loop, pad, puti}

-- The value of a digit, and that of a row of digits behind the value so far
unfoldable pub digit : ℕ → ℕ
digit c = if ltb c 58 then c - 48 else c - 55

unfoldable pub read_digits : ℕ → ℕ → List ℕ → ℕ
read_digits base v [] = v
read_digits base v (c ∷ cs) = read_digits base (v * base + digit c) cs

digit_table : every_below 16 (λ d. digit (get_or tab_hex_ascii d 0) == d) ≡ true
unfolding every_below digit
digit_table = refl

pub digit_lem : (d : ℕ) → d < 16 → digit (get_or tab_hex_ascii d 0) ≡ d
digit_lem d small = (==_iff _ d).0 (every_below_lem 16 _ d digit_table small)

-- A division of the loop, for the two bases that are used
record Divides (base num : ℕ) : Type 0 where
  small : num % base < 16
  whole : num / base * base + num % base ≡ num
  less : num / base ≤ num / 2

divides : (base num : ℕ) → (base ≡ 10) ⊎ (base ≡ 16) → Divides base num
divides base num (inl e) =
    rw e (record { small = omega arith; whole = omega arith; less = omega arith })
divides base num (inr e) =
    rw e (record { small = omega arith; whole = omega arith; less = omega arith })

single : (base num : ℕ) → Divides base num → num / base ≡ 0 → num % base ≡ num
single base num e z =
    let whole : 0 * base + num % base ≡ num = ap (λ q. q * base + num % base) (sym z) ∙ e.whole in
    omega (arith, whole)

first_digit :
    (base num : ℕ) (chars : List ℕ)
    → Divides base num
    → read_digits base 0 (get_or tab_hex_ascii (num % base) 0 ∷ chars)
      ≡ read_digits base (num % base) chars
unfolding read_digits
first_digit base num chars e =
    ap (λ v. read_digits base v chars) (omega (arith, digit_lem (num % base) e.small))

half_bits : (num q fuel : ℕ) → q ≤ num / 2 → num < 2 ^ suc (suc fuel) → q < 2 ^ suc fuel
half_bits num q fuel less bits = omega (arith, less, bits)

-- With rounds enough for the bits of the number, the loop puts its digits before the characters.
puti_loop_lem :
    (fuel num base cnt : ℕ) (chars : List ℕ)
    → (base ≡ 10) ⊎ (base ≡ 16)
    → num < 2 ^ suc fuel
    → cnt + fuel ≤ 48
    → read_digits base 0 (puti_loop (suc fuel) num base cnt chars).1 ≡ read_digits base num chars
unfolding puti_loop read_digits
puti_loop_lem zero num base cnt chars known bits room =
    let e = divides base num known in
    let z : num / base ≡ 0 = omega (arith, e.less, bits) in
    let stop : num / base == 0 ≡ true = ground (arith, z) in
    rw stop
      (first_digit base num chars e ∙ ap (λ v. read_digits base v chars) (single base num e z))
puti_loop_lem (suc fuel) num base cnt chars known bits room =
    let e = divides base num known in
    let chars' = get_or tab_hex_ascii (num % base) 0 ∷ chars in
    let go : ltb (cnt + 1) 49 ≡ true = ground (arith, room) in
    elim (Bool-cases (num / base == 0)) [
      | inl z ↦ rw z (
          first_digit base num chars e
          ∙ ap (λ v. read_digits base v chars) (single base num e ((==_iff _ 0).0 z)))
      | inr z ↦
          rw (z, go)
            (puti_loop_lem fuel (num / base) base (cnt + 1) chars' known
                (half_bits num (num / base) fuel e.less bits) (omega arith)
              ∙ ap (λ v. read_digits base v chars)
                  (ap (λ x. num / base * base + x) (digit_lem (num % base) e.small) ∙ e.whole))
    ]

read_digits-pad :
    (n base : ℕ) (chars : List ℕ) → read_digits base 0 (pad n chars) ≡ read_digits base 0 chars
unfolding pad read_digits digit
read_digits-pad zero base chars = refl
read_digits-pad (suc n) base chars =
    read_digits-pad n base (48 ∷ chars) ∙ ap (λ v. read_digits base v chars) (omega arith)

length-pad : (n : ℕ) (chars : List ℕ) → length (pad n chars) ≡ n + length chars
unfolding pad
length-pad zero chars = omega arith
length-pad (suc n) chars = omega (arith, length-pad n (48 ∷ chars))

-- The loop counts the characters.
puti_loop-cnt :
    (fuel num base cnt : ℕ) (chars : List ℕ)
    → length chars ≡ cnt
    → let (cnt', chars') = puti_loop fuel num base cnt chars in
      (length chars' ≡ cnt') × (cnt' ≤ cnt + fuel)
unfolding puti_loop
puti_loop-cnt zero num base cnt chars e = (e, omega arith)
puti_loop-cnt (suc fuel) num base cnt chars e =
    let chars' = get_or tab_hex_ascii (num % base) 0 ∷ chars in
    let rest = puti_loop-cnt fuel (num / base) base (cnt + 1) chars' (omega arith) in
    elim (Bool-cases (not (num / base == 0) && ltb (cnt + 1) 49)) [
      | inl go ↦ rw go (rest.0, omega (arith, rest.1))
      | inr stop ↦ rw stop (omega arith, omega arith)
    ]

whole_number :
    (num base : ℕ)
    → (base ≡ 10) ⊎ (base ≡ 16)
    → num < 2 ^ 32
    → read_digits base 0 (puti_loop 49 num base 0 []).1 ≡ num
unfolding read_digits
whole_number num base known word =
    puti_loop_lem 48 num base 0 [] known (omega (arith, word)) (omega arith)

-- A 32-bit number that is printed in base 10 or 16 with a width of at most 49 is read back from the
-- characters, which are no fewer than the width and no more than the 49 of the buffer.
pub puti_lem :
    (num base w : ℕ)
    → num < 2 ^ 32
    → (base ≡ 10) ⊎ (base ≡ 16)
    → w ≤ 49
    → (read_digits base 0 (puti num base w) ≡ num)
      × (w ≤ length (puti num base w))
      × (length (puti num base w) ≤ 49)
unfolding puti
puti_lem num base w word known fits =
    let out = puti_loop 49 num base 0 [] in
    let digits : read_digits base 0 out.1 ≡ num = whole_number num base known word in
    let counted = puti_loop-cnt 49 num base 0 [] refl in
    let long = length-pad (w - out.0) out.1 in
    (
      read_digits-pad (w - out.0) base out.1 ∙ digits,
      omega (arith, long, counted.0),
      omega (arith, long, counted.0, counted.1, fits),
    )
