-- ===== src/Protect/Tests.antt =====
-- An update over the air.
use b80_key.Prelude.{◌≡◌, [], ◌∷◌, none, some, false, if◌then◌else◌, ◌+◌}
use b80_key.Protect.{
  app_initialization, write_new_fw_begin, write_new_fw_end, other_op, Vendor, operations,
  app_lock_block,
}
use b80_key.Protect.Locked.{is_updating, operations-is_updating}

abbrev vendor : Vendor
vendor = record {
  multi_boot_address = 0x10000;
  low_128k = 1;
  low_256k = 2;
  low_512k = 3;
  to_flash_lock_block = λ n. n + 16;
}

operations_example :
    (operations vendor
      (app_initialization ∷ write_new_fw_begin ∷ other_op ∷ write_new_fw_end ∷ [])
      (record { lock_block_cmd = 0; locked = none })).locked
    ≡ (if is_updating (write_new_fw_begin ∷ other_op ∷ write_new_fw_end ∷ []) false
        then none
        else some (app_lock_block vendor + 16))
operations_example =
    operations-is_updating vendor (write_new_fw_begin ∷ other_op ∷ write_new_fw_end ∷ [])
      (record { lock_block_cmd = 0; locked = none })
