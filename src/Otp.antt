-- ===== src/Otp.antt =====
-- src/otp.c: reading the OTP memory by its registers. The waits for the hardware and the delays are
-- left out. The file is for MCU_CORE_B80, and does not compile as it stands: a semicolon is missing in
-- otp_auto_pce_restore.
mod Words
use b80_key.Prelude.{
  ℕ, zero, suc, ◌%◌, ◌^◌, Bool, true, false, if◌then◌else◌, not, bit_and, bit_or, List, [], ◌∷◌,
}

-- reg_otp_ctrl0, reg_otp_ctrl1, reg_otp_pa, reg_irq_en and g_irq_en
pub record Registers : Type 0 where
  pub ctrl0 : ℕ
  pub ctrl1 : ℕ
  pub pa : ℕ
  pub irq_en : ℕ
  pub g_irq_en : ℕ

-- &= ~FLD_OTP_PCE and |= FLD_OTP_PCE, bit 1 of reg_otp_ctrl0
abbrev pub clear_pce : Registers → Registers
clear_pce r = record r { ctrl0 = bit_and r.ctrl0 0xfd }

abbrev pub set_pce : Registers → Registers
set_pce r = record r { ctrl0 = bit_or r.ctrl0 0x02 }

-- The interrupts are kept and switched off.
abbrev pub otp_pce_timeout_exceed : Registers → Registers
otp_pce_timeout_exceed r = record r { g_irq_en = r.irq_en; irq_en = 0 }

-- ~FLD_OTP_PLDO | FLD_OTP_PDSTD, with the bits 4 and 5
abbrev pub otp_set_deep_standby_mode : Registers → Registers
otp_set_deep_standby_mode r =
    let r' = clear_pce r in record r' { ctrl1 = bit_and r'.ctrl1 (bit_or 0xef 0x20) }

-- `program` is otp_program_flag.
module _ (program : Bool) where
  unfoldable pub otp_start : ℕ → Registers → Registers
  otp_start ptm_mode r =
      let r1 = if program then r else clear_pce r in
      let r2 = set_pce (record r1 { ctrl1 = bit_or (bit_and r1.ctrl1 0xf0) ptm_mode }) in
      if program then record r2 { ctrl0 = bit_or r2.ctrl0 0x01 } else r2

  unfoldable pub otp_auto_pce_restore : Registers → Registers
  otp_auto_pce_restore r =
      let r' = if program then set_pce (record r { ctrl1 = bit_and r.ctrl1 0xf0 }) else r in
      record r' { irq_en = r'.g_irq_en }

  unfoldable pub otp_set_active_mode : Registers → Registers
  otp_set_active_mode r =
      let r' = record r { ctrl1 = bit_or (bit_or r.ctrl1 0x10) 0x20 } in
      if program then set_pce r' else r'

  -- `cells` is the word that reg_otp_rd_dat has for an address in reg_otp_pa.
  module _ (cells : ℕ → ℕ) where
    -- The loop over the words: the buffer, and the registers.
    unfoldable pub read_words : ℕ → ℕ → Registers → List ℕ × Registers
    read_words addr zero r = ([], r)
    read_words addr (suc word_len) r =
        let r1 = record r { pa = addr % 2 ^ 16 } in
        let (buff, r2) = read_words addr word_len r1 in (cells r1.pa ∷ buff, r2)

    unfoldable pub otp_read_cycle : ℕ → ℕ → ℕ → Registers → List ℕ × Registers
    otp_read_cycle ptm_mode addr word_len r =
        let (buff, r') = read_words addr word_len (otp_start ptm_mode r) in (buff, clear_pce r')

    unfoldable pub otp_read : ℕ → ℕ → Registers → List ℕ × Registers
    otp_read addr word_len r =
        let (buff, r') = otp_read_cycle 0 addr word_len (otp_pce_timeout_exceed r) in
        (buff, otp_auto_pce_restore r')
