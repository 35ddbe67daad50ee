-- ===== src/Eep/Version.antt =====
-- The version object of src/flash_eep.c, kept or replaced when the program starts.
use b80_key.Prelude.{ℕ, ◌%◌, ◌<◌, ◌≡◌, ◌⊎◌, refl, inl, inr}
use b80_key.Prelude.{
  List, [], Option, none, some, Bool, true, false, ◌&&◌, not, arith, leb, ◌==◌, Bool-cases, length,
}
use b80_key.Prelude.{take-all}
use b80_key.Flash.{Mem, Flash, sector_size}
use b80_key.Eep.{Obj, eep_base}
use b80_key.Eep.Log.{IsByte, All, log_end}
use b80_key.Eep.Compact.{pack_log}
use b80_key.Eep.Config.{
  Reply, flash_write_cfg, flash_erase_all_cfg, u32_bytes, u32_of, is_supported,
  flash_supported_eep_ver,
}
use b80_key.Eep.Holds.{Holds}
use b80_key.Eep.Repack.{IsPackable}
use b80_key.Eep.Switch.{packed_end}
use b80_key.Eep.Store.{value, answer, Written, flash_read_cfg_lem, flash_write_cfg_lem}
use b80_key.Eep.Fresh.{
  NoSector, fresh, fresh-Holds, flash_write_cfg-NoSector, flash_erase_all_cfg-NoSector,
}

-- Whether the stored version has four bytes, the same hardware version in its low half, and is not
-- older than `min_ver`.
abbrev pub accepts : Option (List ℕ) → ℕ → ℕ → Bool
accepts none min_ver new_ver = false
accepts (some bs) min_ver new_ver =
    length bs == 4 && u32_of bs % 65536 == new_ver % 65536 && leb min_ver (u32_of bs)

abbrev pub is_new : Option (List ℕ) → ℕ → Bool
is_new none new_ver = false
is_new (some bs) new_ver = not (u32_of bs == new_ver)

-- The outcome of some flash_write_cfg that left the memory `m`.
pub record Leaves (log : List Obj) (id : ℕ) (bs : List ℕ) (m : Mem) : Type 0 where
  pub reply : Reply
  pub written : Written log id bs (reply, m)

pub accepts_lem :
    (v : Option (List ℕ)) (min_ver new_ver : ℕ)
    → is_supported (answer v 4).0 (u32_of (answer v 4).1) min_ver new_ver
      ≡ accepts v min_ver new_ver
accepts_lem none min_ver new_ver = refl
accepts_lem (some bs) min_ver new_ver = elim (Bool-cases (length bs == 4)) [
  | inl e ↦ rw (take-all 4 bs (ground (arith, e))) refl
  | inr e ↦ rw e refl
]

is_new_lem :
    (v : Option (List ℕ)) (min_ver new_ver : ℕ)
    → (is_supported (answer v 4).0 (u32_of (answer v 4).1) min_ver new_ver
        && not (u32_of (answer v 4).1 == new_ver))
      ≡ (accepts v min_ver new_ver && is_new v new_ver)
is_new_lem none min_ver new_ver = refl
is_new_lem (some bs) min_ver new_ver = elim (Bool-cases (length bs == 4)) [
  | inl e ↦ rw (take-all 4 bs (ground (arith, e))) refl
  | inr e ↦ rw e refl
]

pub u32_bytes-IsByte : (v : ℕ) → All IsByte (u32_bytes v)
u32_bytes-IsByte v = omega arith

module _ (d : Flash) (m : Mem) (s : ℕ) (log : List Obj) (h : Holds m s log) where
  -- A stored version that is accepted stays with its store, and true is returned if it is another one
  -- than the new version; otherwise the store is erased and false returned. In both cases the new
  -- version is then written to the store.
  pub flash_supported_eep_ver_lem :
      (min_ver new_ver : ℕ)
      → All IsPackable log
      → packed_end log < sector_size
      → let (ok, m') = flash_supported_eep_ver d m min_ver new_ver in
        ((accepts (value 0 log) min_ver new_ver ≡ true)
          × (ok ≡ is_new (value 0 log) new_ver)
          × Leaves log 0 (u32_bytes new_ver) m')
        ⊎ ((accepts (value 0 log) min_ver new_ver ≡ false)
            × (ok ≡ false)
            × Leaves [] 0 (u32_bytes new_ver) m')
  unfolding flash_supported_eep_ver log_end pack_log
  flash_supported_eep_ver_lem min_ver new_ver pk room =
      let erased = flash_erase_all_cfg d m in
      let gone : NoSector erased = flash_erase_all_cfg-NoSector d m in
      rw
        (
          flash_read_cfg_lem d m s log h 0 4 (omega arith) (omega arith),
          is_new_lem (value 0 log) min_ver new_ver,
          accepts_lem (value 0 log) min_ver new_ver,
        )
        (elim (Bool-cases (accepts (value 0 log) min_ver new_ver)) [
          | inl e ↦ rw e (
              inl (
                refl,
                refl,
                record {
                  reply = (flash_write_cfg d m (u32_bytes new_ver) 0 4).0;
                  written =
                      flash_write_cfg_lem d m s log h (u32_bytes new_ver) 0 4 pk room (omega arith)
                        (omega arith) (omega arith) (u32_bytes-IsByte new_ver);
                },
              ))
          | inr e ↦ rw e (
              inr (
                refl,
                refl,
                record {
                  reply = (flash_write_cfg d erased (u32_bytes new_ver) 0 4).0;
                  written =
                      rw
                        (flash_write_cfg-NoSector d erased gone (u32_bytes new_ver) 0 4
                          (omega arith))
                        (flash_write_cfg_lem d (fresh d erased) eep_base []
                          (fresh-Holds d erased gone) (u32_bytes new_ver) 0 4 tt (omega arith)
                          (omega arith) (omega arith) (omega arith) (u32_bytes-IsByte new_ver));
                },
              ))
        ])
