-- ===== src/Eep/Fresh.antt =====
-- The bank of src/flash_eep.c with no current sector: how it is set up and erased.
use b80_key.Prelude.{ℕ, ◌+◌, ◌*◌, ◌/◌, ◌≤◌, ◌<◌, ◌≡◌, ◌≢◌, ◌⊎◌, ◌∙◌, refl, ap, inl, inr}
use b80_key.Prelude.{
  List, [], ◌∷◌, true, false, ◌&&◌, arith, ltb, leb, ◌==◌, ==_iff, if◌then◌else◌, tests, Bool-cases,
  bit_and,
}
use b80_key.Prelude.{bit_and-zero}
use b80_key.Flash.{Mem, Flash, sector_size}
use b80_key.Eep.{max_fobj_size, head_sector, eep_base, eep_banks_size, find_sector, get_addr_bscfg}
use b80_key.Eep.Log.{log_end}
use b80_key.Eep.Search.{read_head_lem}
use b80_key.Eep.Config.{flash_write_cfg, flash_read_cfg, erase_from, flash_erase_all_cfg}
use b80_key.Eep.Holds.{Holds, get_addr_bscfg-Holds}

-- No sector of the bank is marked as the current one.
abbrev pub NoSector : Mem → Type 0
NoSector m = (m 0xC000 + 256 * m 0xC001 ≢ head_sector) × (m 0xD000 + 256 * m 0xD001 ≢ head_sector)

abbrev pub fresh : Flash → Mem → Mem
fresh d m = d.write_page (d.erase_sector m eep_base) (eep_base + 1) (0 ∷ [])

fresh-outside : (d : Flash) (m : Mem) (x : ℕ) → x < 0xC000 ⊎ (0xD000 ≤ x) → fresh d m x ≡ m x
fresh-outside d m x out =
    d.write_outside (d.erase_sector m eep_base) (eep_base + 1) (0 ∷ []) x
      (elim out [ inl q ↦ inl (omega arith) | inr q ↦ inr (omega arith) ])
    ∙ d.erase_outside m eep_base x (omega (arith, out))

fresh-erased :
    (d : Flash) (m : Mem) (x : ℕ) → 0xC000 ≤ x → x < 0xD000 → x ≢ 0xC001 → fresh d m x ≡ 255
fresh-erased d m x p q ne =
    d.write_outside (d.erase_sector m eep_base) (eep_base + 1) (0 ∷ []) x
      (beside (Bool-cases (ltb x (eep_base + 1))))
    ∙ d.erase_inside m eep_base x (omega arith)
  where
    beside :
        (ltb x (eep_base + 1) ≡ true) ⊎ (ltb x (eep_base + 1) ≡ false)
        → (x < eep_base + 1) ⊎ (eep_base + 2 ≤ x)
    beside (inl e) = inl (omega (tests, e))
    beside (inr e) = inr (ground (arith, e, ne))

pub fresh-Holds : (d : Flash) (m : Mem) → NoSector m → Holds (fresh d m) eep_base []
unfolding log_end
fresh-Holds d m none_there =
    let second : m 0xD000 + 256 * m 0xD001 ≢ head_sector = none_there.1 in
    let out0 = fresh-outside d m 0xD000 (inr (omega arith)) in
    let out1 = fresh-outside d m 0xD001 (inr (omega arith)) in
    let erased = d.erase_inside m eep_base 0xC001 (omega arith) in
    record {
      sector = inl refl;
      mark_id = fresh-erased d m 0xC000 (omega arith) (omega arith) (omega arith);
      mark_size =
          d.write_inside (d.erase_sector m eep_base) (eep_base + 1) (0 ∷ []) 0 (omega arith)
          ∙ ap (λ b. bit_and b 0) erased
          ∙ bit_and-zero 255 (omega arith);
      other = λ e. second (omega (arith, out0, out1, e));
      has_log = record {
        entries = tt;
        stored = tt;
        room = omega arith;
        erased = λ x p q. fresh-erased d m x (omega arith) (omega arith) (omega arith);
      };
    }

module _ (d : Flash) (m : Mem) (none_there : NoSector m) where
  get_addr_bscfg-fresh : get_addr_bscfg d m ≡ (eep_base, fresh d m)
  unfolding get_addr_bscfg find_sector
  get_addr_bscfg-fresh =
      let first : m 0xC000 + 256 * m 0xC001 ≢ head_sector = none_there.0 in
      let second : m 0xD000 + 256 * m 0xD001 ≢ head_sector = none_there.1 in
      rw (read_head_lem d m 0xC000, read_head_lem d m 0xD000) (ground (arith, first, second))

  -- With no current sector, the search erases the first one and marks it; it is then the current
  -- one, with an empty log.
  pub get_addr_bscfg-NoSector : let (s, m') = get_addr_bscfg d m in (s ≡ eep_base) × Holds m' s []
  get_addr_bscfg-NoSector = rw get_addr_bscfg-fresh (refl, fresh-Holds d m none_there)

  -- A write then goes to that sector.
  pub flash_write_cfg-NoSector :
      (ptr : List ℕ) (id n : ℕ)
      → n ≤ max_fobj_size
      → flash_write_cfg d m ptr id n ≡ flash_write_cfg d (fresh d m) ptr id n
  unfolding flash_write_cfg
  flash_write_cfg-NoSector ptr id n fits =
      let ok : ltb max_fobj_size n ≡ false = ground arith in
      rw
        (
          ok,
          get_addr_bscfg-fresh,
          get_addr_bscfg-Holds d (fresh d m) eep_base [] (fresh-Holds d m none_there),
        )
        refl

  -- A read finds the empty log of that sector.
  pub flash_read_cfg-NoSector :
      (id maxsize : ℕ)
      → maxsize ≤ max_fobj_size
      → flash_read_cfg d m id maxsize ≡ flash_read_cfg d (fresh d m) id maxsize
  unfolding flash_read_cfg
  flash_read_cfg-NoSector id maxsize fits =
      let ok : leb maxsize max_fobj_size ≡ true = ground arith in
      rw
        (
          ok,
          get_addr_bscfg-fresh,
          get_addr_bscfg-Holds d (fresh d m) eep_base [] (fresh-Holds d m none_there),
        )
        refl

erase_sector_lem :
    (d : Flash) (m : Mem) (a x : ℕ)
    → d.erase_sector m a x ≡ (if x / sector_size == a / sector_size then 255 else m x)
erase_sector_lem d m a x = elim (Bool-cases (x / sector_size == a / sector_size)) [
  | inl e ↦ rw e (d.erase_inside m a x ((==_iff _ _).0 e))
  | inr e ↦ rw e (d.erase_outside m a x (λ same. ground (arith, e, same)))
]

module _ (d : Flash) (m : Mem) where
  -- Erasing all leaves every byte of the bank erased, and the others as they were.
  pub flash_erase_all_cfg_lem :
      (x : ℕ)
      → flash_erase_all_cfg d m x
        ≡ (if leb eep_base x && ltb x (eep_base + eep_banks_size) then 255 else m x)
  unfolding flash_erase_all_cfg erase_from
  flash_erase_all_cfg_lem x =
      rw
        (
          erase_sector_lem d (d.erase_sector m eep_base) (eep_base + sector_size) x,
          erase_sector_lem d m eep_base x,
        )
        (ground arith)

  pub flash_erase_all_cfg-NoSector : NoSector (flash_erase_all_cfg d m)
  flash_erase_all_cfg-NoSector = (
    rw (flash_erase_all_cfg_lem 0xC000, flash_erase_all_cfg_lem 0xC001) (omega arith),
    rw (flash_erase_all_cfg_lem 0xD000, flash_erase_all_cfg_lem 0xD001) (omega arith),
  )
