-- ===== src/Otp/Words.antt =====
-- The words that otp_read of src/otp.c reads, and the interrupts after it.
use b80_key.Prelude.{ℕ, zero, suc, ◌%◌, ◌^◌, ◌≡◌, refl, ap, Bool, true, false, ◌∷◌, replicate}
use b80_key.Otp.{
  Registers, otp_start, read_words, otp_read_cycle, otp_auto_pce_restore, otp_pce_timeout_exceed,
  otp_read,
}

read_words-replicate :
    (program : Bool) (cells : ℕ → ℕ) (addr word_len : ℕ) (r : Registers)
    → let (buff, r') = read_words program cells addr word_len r in
      (buff ≡ replicate word_len (cells (addr % 2 ^ 16))) × (r'.g_irq_en ≡ r.g_irq_en)
unfolding read_words
read_words-replicate program cells addr zero r = (refl, refl)
read_words-replicate program cells addr (suc word_len) r =
    let rest = read_words-replicate program cells addr word_len (record r { pa = addr % 2 ^ 16 }) in
    (ap (λ l. cells (addr % 2 ^ 16) ∷ l) rest.0, rest.1)

-- otp_read fills the buffer with one word, that of the first address, as many times as words are asked
-- for, and switches the interrupts on again as they were.
otp_read_lem :
    (program : Bool) (cells : ℕ → ℕ) (addr word_len : ℕ) (r : Registers)
    → let (buff, r') = otp_read program cells addr word_len r in
      (buff ≡ replicate word_len (cells (addr % 2 ^ 16))) × (r'.irq_en ≡ r.irq_en)
unfolding otp_read otp_read_cycle otp_auto_pce_restore otp_start
otp_read_lem true cells addr word_len r =
    read_words-replicate true cells addr word_len (otp_start true 0 (otp_pce_timeout_exceed r))
otp_read_lem false cells addr word_len r =
    read_words-replicate false cells addr word_len (otp_start false 0 (otp_pce_timeout_exceed r))
