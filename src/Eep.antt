-- ===== src/Eep.antt =====
-- src/flash_eep.c: objects stored as a log of (id, size, data) records in one of two sectors.
-- This file has the records and the three searches; the children have the rest.
-- FLASH_BASE_ADDR is 0, USE_EEP_BANKS is 0 and the sector bank starts at 0xC000, so that no
-- address computation wraps.
pub mod Log
pub mod Search
pub mod Write
pub mod Pack
pub mod Config
pub mod Flags
pub mod Compact
pub mod Holds
pub mod Repack
pub mod PackLoop
pub mod Switch
pub mod Append
pub mod Store
pub mod Tests
pub mod Repeat
pub mod Unchanged
pub mod Version
pub mod Fresh
pub mod ReadBack
pub mod PowerCut
use b80_key.Prelude.{ℕ, zero, suc, ◌+◌, ◌-◌, ◌*◌, ◌/◌, ◌<◌, List, [], ◌∷◌, Bool, ◌&&◌}
use b80_key.Prelude.{ltb, leb, ◌==◌, if◌then◌else◌, get_or}
use b80_key.Flash.{Mem, Flash, sector_size}

abbrev pub max_fobj_size : ℕ
max_fobj_size = 32

abbrev pub head_sector : ℕ
head_sector = 0x00ff

abbrev pub fobj_x_free : ℕ
fobj_x_free = 0xffff

abbrev pub eep_base : ℕ
eep_base = 0xC000

-- 1 << FMEMORY_EEP_BANKS_SHL sectors
abbrev pub eep_sectors : ℕ
eep_sectors = 2

abbrev pub eep_banks_size : ℕ
eep_banks_size = 8192

-- fobj_head_t: the view `n` as fields, the view `x` as a function.
pub record Head : Type 0 where
  pub id : ℕ
  pub size : ℕ

abbrev pub head_x : Head → ℕ
head_x h = h.id + 256 * h.size

-- feep_obj_t, with the `size` bytes of data that are in use.
pub record Obj : Type 0 where
  pub id : ℕ
  pub size : ℕ
  pub bytes : List ℕ

-- How far the searches step over the data of a record.
abbrev pub span : ℕ → ℕ
span size = if leb size max_fobj_size then size else max_fobj_size

-- (faddr + FLASH_SECTOR_SIZE) & ~(FLASH_SECTOR_SIZE - 1)
abbrev pub sector_end : ℕ → ℕ
sector_end faddr = (faddr + sector_size) / sector_size * sector_size

abbrev pub head_of : List ℕ → Head
head_of bs = record { id = get_or bs 0 0; size = get_or bs 1 0 }

-- The bytes of the first call of _flash_write_obj: the size and the data.
abbrev pub first_call : Obj → List ℕ
first_call o = o.size ∷ o.bytes

module _ (d : Flash) where
  unfoldable pub read_head : Mem → ℕ → Head
  read_head m addr = head_of (d.read_page m addr 2)

  -- The size and the data first, the id last.
  unfoldable pub write_obj : Mem → ℕ → Obj → Mem
  write_obj m faddr o = d.write_page (d.write_page m (faddr + 1) (first_call o)) faddr (o.id ∷ [])

  -- The do-while over the sectors of the bank, with the sectors left.
  unfoldable pub find_sector : ℕ → Mem → ℕ → ℕ → ℕ
  find_sector zero m faddr reta = reta
  find_sector (suc left) m faddr reta =
      find_sector left m (faddr + sector_size)
        (if head_x (read_head m faddr) == head_sector then faddr else reta)

  unfoldable pub get_addr_bscfg : Mem → ℕ × Mem
  get_addr_bscfg m =
      let reta = find_sector eep_sectors m eep_base 0 in
      if reta == 0
      then (eep_base, d.write_page (d.erase_sector m eep_base) (eep_base + 1) (0 ∷ []))
      else (reta, m)

  -- The do-while on fuel: each round moves on by two bytes or more.
  unfoldable pub wrobj_loop : ℕ → Mem → ℕ → ℕ → ℕ
  wrobj_loop zero m faddr fend = 0
  wrobj_loop (suc fuel) m faddr fend =
      let h = read_head m faddr in
      let next = faddr + (span h.size + 2) in
      let rest = wrobj_loop fuel m next fend in
      if head_x h == fobj_x_free then faddr else if ltb next fend then rest else 0

  unfoldable pub get_addr_wrobj : Mem → ℕ → ℕ
  get_addr_wrobj m faddr = wrobj_loop sector_size m faddr (sector_end faddr)

  -- `pobj` is the object looked for; its size becomes that of the last record with its id.
  unfoldable pub idobj_loop : ℕ → Mem → ℕ → ℕ → ℕ → Head → ℕ × Head
  idobj_loop zero m faddr fend reta pobj = (reta, pobj)
  idobj_loop (suc fuel) m faddr fend reta pobj =
      let h = read_head m faddr in
      let next = faddr + (span h.size + 2) in
      let hit = leb h.size max_fobj_size && h.id == pobj.id in
      let reta' = if hit then faddr else reta in
      let pobj' = if hit then record pobj { size = h.size } else pobj in
      let rest = idobj_loop fuel m next fend reta' pobj' in
      if head_x h == fobj_x_free
      then (reta, pobj)
      else if ltb next fend
      then rest
      else (reta', pobj')

  unfoldable pub get_addr_idobj : Mem → ℕ → Head → ℕ × Head
  get_addr_idobj m faddr pobj = idobj_loop sector_size m faddr (sector_end faddr) 0 pobj
