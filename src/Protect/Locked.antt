-- ===== src/Protect/Locked.antt =====
-- When src/app_flash_protect.c has the flash locked.
use b80_key.Prelude.{◌≡◌, refl, ap, List, [], ◌∷◌, Bool, true, false, none, some, if◌then◌else◌}
use b80_key.Protect.{
  FlashOp, app_initialization, clear_old_fw_begin, clear_old_fw_end, write_new_fw_begin,
  write_new_fw_end, other_op, Protection, Vendor, app_lock_block, app_flash_protection_operation,
  operations,
}

-- Whether the last of the operations that count begins an update.
unfoldable pub is_updating : List FlashOp → Bool → Bool
is_updating [] before = before
is_updating (app_initialization ∷ ops) before = is_updating ops false
is_updating (clear_old_fw_begin ∷ ops) before = is_updating ops true
is_updating (clear_old_fw_end ∷ ops) before = is_updating ops false
is_updating (write_new_fw_begin ∷ ops) before = is_updating ops true
is_updating (write_new_fw_end ∷ ops) before = is_updating ops false
is_updating (other_op ∷ ops) before = is_updating ops before

operations-from :
    (v : Vendor) (ops : List FlashOp) (p : Protection) (before : Bool)
    → let cmd = v.to_flash_lock_block (app_lock_block v) in
      p.lock_block_cmd ≡ cmd
      → p.locked ≡ (if before then none else some cmd)
      → (operations v ops p).locked ≡ (if is_updating ops before then none else some cmd)
unfolding operations app_flash_protection_operation is_updating
operations-from v [] p before c l = l
operations-from v (app_initialization ∷ ops) p before c l = operations-from v ops _ false refl refl
operations-from v (clear_old_fw_begin ∷ ops) p before c l = operations-from v ops _ true c refl
operations-from v (clear_old_fw_end ∷ ops) p before c l =
    operations-from v ops _ false c (ap some c)
operations-from v (write_new_fw_begin ∷ ops) p before c l = operations-from v ops _ true c refl
operations-from v (write_new_fw_end ∷ ops) p before c l =
    operations-from v ops _ false c (ap some c)
operations-from v (other_op ∷ ops) p before c l = operations-from v ops p before c l

-- After the initialization, whatever operations follow: the flash is unlocked while an update that was
-- begun last has not ended, and otherwise the blocks for the boot address are locked.
pub operations-is_updating :
    (v : Vendor) (ops : List FlashOp) (p : Protection)
    → (operations v (app_initialization ∷ ops) p).locked
      ≡ (if is_updating ops false then none else some (v.to_flash_lock_block (app_lock_block v)))
unfolding operations app_flash_protection_operation
operations-is_updating v ops p = operations-from v ops _ false refl refl
