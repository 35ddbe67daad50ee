-- ===== src/Protect.antt =====
-- src/app_flash_protect.c: the flash is locked, but for the time of an update over the air.
pub mod Locked
mod Tests
use b80_key.Prelude.{ℕ, List, [], ◌∷◌, Option, none, some, if◌then◌else◌, ◌==◌}

-- FLASH_OP_EVT_..
pub data FlashOp : Type 0 where
  app_initialization clear_old_fw_begin clear_old_fw_end : FlashOp
  write_new_fw_begin write_new_fw_end other_op : FlashOp

-- flash_lockBlock_cmd, and what flash_lock and flash_unlock have made of the chip: the blocks that are
-- locked.
pub record Protection : Type 0 where
  pub lock_block_cmd : ℕ
  pub locked : Option ℕ

-- The vendor's part: the boot address, the constants FLASH_LOCK_FW_LOW_.., and
-- flash_change_app_lock_block_to_flash_lock_block
pub record Vendor : Type 0 where
  pub multi_boot_address : ℕ
  pub low_128k : ℕ
  pub low_256k : ℕ
  pub low_512k : ℕ
  pub to_flash_lock_block : ℕ → ℕ

abbrev pub app_lock_block : Vendor → ℕ
app_lock_block v =
    if v.multi_boot_address == 0x10000
    then v.low_128k
    else if v.multi_boot_address == 0x20000
    then v.low_256k
    else if v.multi_boot_address == 0x40000
    then v.low_512k
    else 0xffffffff

abbrev pub flash_lock : ℕ → Protection → Protection
flash_lock cmd p = record p { locked = some cmd }

abbrev pub flash_unlock : Protection → Protection
flash_unlock p = record p { locked = none }

unfoldable pub app_flash_protection_operation : Vendor → FlashOp → Protection → Protection
app_flash_protection_operation v app_initialization p =
    let cmd = v.to_flash_lock_block (app_lock_block v) in
    flash_lock cmd (record p { lock_block_cmd = cmd })
app_flash_protection_operation v clear_old_fw_begin p = flash_unlock p
app_flash_protection_operation v clear_old_fw_end p = flash_lock p.lock_block_cmd p
app_flash_protection_operation v write_new_fw_begin p = flash_unlock p
app_flash_protection_operation v write_new_fw_end p = flash_lock p.lock_block_cmd p
app_flash_protection_operation v other_op p = p

unfoldable pub operations : Vendor → List FlashOp → Protection → Protection
operations v [] p = p
operations v (op ∷ ops) p = operations v ops (app_flash_protection_operation v op p)
