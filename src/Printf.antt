-- ===== src/Printf.antt =====
-- src/sws_printf.c and src/sws_printf.h: the debug output. The characters of a call are a list of
-- bytes; Printf/Console sends them through the buffer that the host reads.
pub mod Console
pub mod Numbers
pub mod Send
pub mod Serial
pub mod Wait
mod OutputTests
mod Tests
use b80_key.Prelude.{
  ℕ, zero, suc, ◌+◌, ◌-◌, ◌*◌, ◌/◌, ◌%◌, ◌^◌, List, [], ◌∷◌, ◌++◌, Bool, true, false, ◌&&◌, not,
}
use b80_key.Prelude.{ltb, leb, ◌==◌, if◌then◌else◌, get_or, drop}

-- tab_hex_ascii: "0123456789ABCDEF"
abbrev pub tab_hex_ascii : List ℕ
tab_hex_ascii = 48 ∷ 49 ∷ 50 ∷ 51 ∷ 52 ∷ 53 ∷ 54 ∷ 55 ∷ 56 ∷ 57 ∷ 65 ∷ 66 ∷ 67 ∷ 68 ∷ 69 ∷ 70 ∷ []

-- The do loop of puti: `chars` are the characters from addr on; at most 49 rounds.
unfoldable pub puti_loop : ℕ → ℕ → ℕ → ℕ → List ℕ → ℕ × List ℕ
puti_loop zero num base cnt chars = (cnt, chars)
puti_loop (suc fuel) num base cnt chars =
    let num' = num / base in
    let chars' = get_or tab_hex_ascii (num % base) 0 ∷ chars in
    let rest = puti_loop fuel num' base (cnt + 1) chars' in
    if not (num' == 0) && ltb (cnt + 1) 49 then rest else (cnt + 1, chars')

-- for ( ; w > cnt; --w): w - cnt zeros. The buffer has room for 49 characters.
unfoldable pub pad : ℕ → List ℕ → List ℕ
pad zero chars = chars
pad (suc n) chars = pad n (48 ∷ chars)

unfoldable pub puti : ℕ → ℕ → ℕ → List ℕ
puti num base w = let (cnt, chars) = puti_loop 49 num base 0 [] in pad (w - cnt) chars

unfoldable pub sws_print_hex_dump : List ℕ → List ℕ
sws_print_hex_dump [] = []
sws_print_hex_dump (c ∷ cs) =
    get_or tab_hex_ascii (c / 16) 0 ∷ get_or tab_hex_ascii (c % 16) 0 ∷ sws_print_hex_dump cs

-- Where sws_printf is in the format: in the text, behind a '%' with the width so far (an int in the
-- code, for widths below 2 ^ 31), or at the end.
pub data Mode : Type 0 where
  in_text : Mode
  in_width : ℕ → Mode
  ended : Mode

-- What one character of the format does.
pub record Output : Type 0 where
  pub chars : List ℕ
  pub mode : Mode
  pub args : List ℕ

abbrev pub echo : ℕ → Mode → List ℕ → Output
echo c mode args = record { chars = c ∷ []; mode = mode; args = args }

abbrev pub next_mode : Mode → List ℕ → Output
next_mode mode args = record { chars = []; mode = mode; args = args }

-- An int among the arguments, as 32 bits: its sign and its digits.
abbrev pub print_int : ℕ → ℕ → List ℕ
print_int arg w = if leb (2 ^ 31) arg then 45 ∷ puti (2 ^ 32 - arg) 10 w else puti arg 10 w

-- `memory` reads bytes and `string` a string at a pointer among the arguments.
module _ (memory : ℕ → ℕ → List ℕ) (string : ℕ → List ℕ) where
  -- The conversions: %c, %d, %s, %p, %x; another character is printed.
  abbrev pub convert : ℕ → ℕ → List ℕ → Output
  convert c w args =
      let arg = get_or args 0 0 in
      let rest = drop 1 args in
      if c == 99
      then echo (arg % 256) in_text rest
      else if c == 100
      then record { chars = print_int arg w; mode = in_text; args = rest }
      else if c == 115
      then record { chars = string arg; mode = in_text; args = rest }
      else if c == 112
      then record { chars = sws_print_hex_dump (memory arg w); mode = in_text; args = rest }
      else if c == 120
      then record { chars = puti arg 16 w; mode = in_text; args = rest }
      else if c == 0
      then next_mode ended args
      else echo c in_text args

  unfoldable pub printf_step : Mode → ℕ → List ℕ → Output
  printf_step in_text c args =
      if c == 0
      then next_mode ended args
      else if c == 37
      then next_mode (in_width 0) args
      else echo c in_text args
  printf_step (in_width w) c args =
      if leb 48 c && leb c 57
      then next_mode (in_width (w * 10 + (c - 48))) args
      else convert c w args
  printf_step ended c args = next_mode ended args

  unfoldable pub printf_loop : Mode → List ℕ → List ℕ → List ℕ
  printf_loop mode [] args = []
  printf_loop mode (c ∷ format) args =
      let out = printf_step mode c args in out.chars ++ printf_loop out.mode format out.args

  abbrev pub printed_chars : List ℕ → List ℕ → List ℕ
  printed_chars format args = printf_loop in_text format args
