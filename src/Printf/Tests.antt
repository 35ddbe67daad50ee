-- ===== src/Printf/Tests.antt =====
-- Concrete output.
use b80_key.Prelude.{◌≤◌, ◌≡◌, inr, refl, arith, [], ◌∷◌, length}
use b80_key.Printf.{
  puti, puti_loop, pad, printf_loop, printf_step, sws_print_hex_dump, printed_chars,
}
use b80_key.Printf.Numbers.{read_digits, puti_lem}

puti_example :
    (read_digits 16 0 (puti 0xBEEF 16 6) ≡ 0xBEEF)
    × (6 ≤ length (puti 0xBEEF 16 6))
    × (length (puti 0xBEEF 16 6) ≤ 49)
puti_example = puti_lem 0xBEEF 16 6 (omega arith) (inr refl) (omega arith)

-- "00BEEF"
puti_zeros : puti 0xBEEF 16 6 ≡ 48 ∷ 48 ∷ 66 ∷ 69 ∷ 69 ∷ 70 ∷ []
unfolding puti puti_loop pad
puti_zeros = refl

-- "T=%d, %02p" with -5 and the bytes 1, 0xA2: "T=-5, 01A2"
printf_text :
    printed_chars
      (λ a n. 1 ∷ 0xA2 ∷ [])
      (λ a. [])
      (84 ∷ 61 ∷ 37 ∷ 100 ∷ 44 ∷ 32 ∷ 37 ∷ 48 ∷ 50 ∷ 112 ∷ [])
      (0xFFFFFFFB ∷ 7 ∷ [])
    ≡ 84 ∷ 61 ∷ 45 ∷ 53 ∷ 44 ∷ 32 ∷ 48 ∷ 49 ∷ 65 ∷ 50 ∷ []
unfolding printf_loop printf_step sws_print_hex_dump puti puti_loop pad
printf_text = refl
