-- ===== src/App/Dump.antt =====
-- test_otp of src/app_main.c: the text that it prints, and the registers of the OTP memory then.
use b80_key.Prelude.{ℕ, zero, suc, ◌+◌, List, [], ◌∷◌, ◌++◌}
use b80_key.Prelude.{Bool, take, drop}
use b80_key.Eep.Config.{u32_bytes}
use b80_key.Otp.{Registers, otp_set_active_mode, otp_read, otp_set_deep_standby_mode}
use b80_key.Printf.{printed_chars}

-- "%03x: %16p\n" and "OTP dump:\n"
abbrev pub line_format : List ℕ
line_format = 37 ∷ 48 ∷ 51 ∷ 120 ∷ 58 ∷ 32 ∷ 37 ∷ 49 ∷ 54 ∷ 112 ∷ 10 ∷ []

abbrev pub dump_title : List ℕ
dump_title = 79 ∷ 84 ∷ 80 ∷ 32 ∷ 100 ∷ 117 ∷ 109 ∷ 112 ∷ 58 ∷ 10 ∷ []

-- The loop for `lines` lines of four words, at the address and the pointer of the first; `memory`
-- reads bytes.
unfoldable pub dump_loop : (ℕ → ℕ → List ℕ) → ℕ → ℕ → ℕ → List ℕ
dump_loop memory zero addr p = []
dump_loop memory (suc lines) addr p =
    printed_chars memory (λ s. []) line_format (addr ∷ p ∷ [])
    ++ dump_loop memory lines (addr + 0x10) (p + 16)

-- The buffer as bytes
unfoldable pub word_bytes : List ℕ → List ℕ
word_bytes [] = []
word_bytes (v ∷ vs) = u32_bytes v ++ word_bytes vs

-- 16 words from 0x3FC0 on, four in each line; pointers count from the start of the buffer.
unfoldable pub test_otp : Bool → (ℕ → ℕ) → Registers → List ℕ × Registers
test_otp program cells r =
    let (buf, r') = otp_read program cells 0x3fc0 16 (otp_set_active_mode program r) in
    (
      dump_title ++ dump_loop (λ p n. take n (drop p (word_bytes buf))) 4 0x3fc0 0,
      otp_set_deep_standby_mode r',
    )
