-- ===== src/Eep/Tests.antt =====
-- Concrete runs of src/flash_eep.c on a small memory.
use b80_key.Prelude.{ℕ, ◌+◌, ◌-◌, ◌/◌, ◌≤◌, ◌<◌, ◌≡◌, ◌≢◌, ◌⊎◌, refl, inl}
use b80_key.Prelude.{
  List, [], ◌∷◌, ◌++◌, true, false, ◌&&◌, arith, ltb, leb, ◌==◌, if◌then◌else◌, length, get_or,
  bit_and,
}
use b80_key.Flash.{Mem, Flash, sector_size, bytes_at}
use b80_key.Eep.{Obj, max_fobj_size, eep_base, eep_banks_size, get_addr_bscfg, head_sector}
use b80_key.Eep.Log.{IsEntry, IsByte, All, log_end}
use b80_key.Eep.Pack.{no_flags, pack_eep_fmem}
use b80_key.Eep.Compact.{pack_log, visible, visible-pack_log}
use b80_key.Eep.Config.{
  size, flash_write_cfg, flash_read_cfg, flash_erase_all_cfg, u32_bytes, flash_supported_eep_ver,
}
use b80_key.Eep.Holds.{other_sector, Holds}
use b80_key.Eep.Repack.{IsPackable}
use b80_key.Eep.Switch.{packed_end, pack_eep_fmem-Holds}
use b80_key.Eep.Store.{value, Written, flash_read_cfg_lem, flash_write_cfg_lem}
use b80_key.Eep.ReadBack.{read-write}
use b80_key.Eep.PowerCut.{interrupted, write_obj-interrupted}
use b80_key.Eep.Fresh.{get_addr_bscfg-NoSector, flash_erase_all_cfg_lem}
use b80_key.Eep.Version.{accepts, is_new, Leaves, flash_supported_eep_ver_lem}
use b80_key.Eep.Repeat.{rounds, item, pack_log-rounds}

abbrev program : Mem → ℕ → List ℕ → Mem
program m a bs x =
    if leb a x && ltb x (a + length bs) then bit_and (m x) (get_or bs (x - a) 0) else m x

abbrev erase : Mem → ℕ → Mem
erase m a x = if x / sector_size == a / sector_size then 255 else m x

pub program-inside :
    (m : Mem) (a : ℕ) (bs : List ℕ) (i : ℕ)
    → i < length bs
    → program m a bs (a + i) ≡ bit_and (m (a + i)) (get_or bs i 0)
program-inside m a bs i p =
    let low : leb a (a + i) ≡ true = ground arith in
    let high : ltb (a + i) (a + length bs) ≡ true = ground arith in
    let at_i : a + i - a ≡ i = omega arith in rw (low, high, at_i) refl

pub program-outside :
    (m : Mem) (a : ℕ) (bs : List ℕ) (x : ℕ) → (x < a) ⊎ (a + length bs ≤ x) → program m a bs x ≡ m x
program-outside m a bs x p =
    let out : (leb a x && ltb x (a + length bs)) ≡ false = ground (arith, p) in rw out refl

pub erase-inside : (m : Mem) (a x : ℕ) → x / sector_size ≡ a / sector_size → erase m a x ≡ 255
erase-inside m a x p = rw p (ground arith)

pub erase-outside : (m : Mem) (a x : ℕ) → x / sector_size ≢ a / sector_size → erase m a x ≡ m x
erase-outside m a x p = ground (arith, p)

-- A NOR flash.
abbrev pub nor : Flash
nor = record {
  read_page = bytes_at;
  write_page = program;
  erase_sector = erase;
  read_lem = λ m a n. refl;
  write_inside = program-inside;
  write_outside = program-outside;
  erase_inside = erase-inside;
  erase_outside = erase-outside;
}

-- One object, and the rest of the bank erased.
abbrev pub memory : Mem
memory x =
    if x == 0xC001
    then 0
    else if x == 0xC002
    then 1
    else if x == 0xC003
    then 2
    else if x == 0xC004
    then 7
    else if x == 0xC005
    then 9
    else 255

abbrev pub records : List Obj
records = item 1 7 (9 ∷ []) ∷ []

memory-erased : (x : ℕ) → 0xC006 ≤ x → memory x ≡ 255
memory-erased x p = ground arith

pub memory-Holds : Holds memory 0xC000 records
unfolding log_end
memory-Holds = record {
  sector = inl refl;
  mark_id = refl;
  mark_size = refl;
  other = λ e. omega (arith, e);
  has_log = record {
    entries = (
      record {
        id_byte = omega arith;
        size_byte = omega arith;
        not_free = omega arith;
        data_span = refl;
        data_bytes = omega arith;
      },
      tt,
    );
    stored = (refl, refl, refl, tt);
    room = omega arith;
    erased = λ x p q. memory-erased x p;
  };
}

pub records-IsPackable : All IsPackable records
records-IsPackable = (λ e. omega arith, tt)

pub records-packed : packed_end records ≡ 6
unfolding log_end pack_log b80_key.Eep.Compact.pack_entry b80_key.Eep.Pack.check_flag_eep_id
    b80_key.Eep.Compact.emit_latest b80_key.Eep.Log.latest
records-packed = refl

new_bytes-IsByte : All IsByte (5 ∷ 6 ∷ [])
new_bytes-IsByte = (omega arith, (omega arith, tt))

room : packed_end records < sector_size
room = omega (arith, records-packed)

-- Writing two bytes for object 2.
flash_write_cfg_example :
    Written records 2 (5 ∷ 6 ∷ []) (flash_write_cfg nor memory (5 ∷ 6 ∷ []) 2 2)
flash_write_cfg_example =
    flash_write_cfg_lem nor memory 0xC000 records memory-Holds (5 ∷ 6 ∷ []) 2 2 records-IsPackable
      room (omega arith) (omega arith) (omega arith) new_bytes-IsByte

-- Reading one byte of object 1.
flash_read_cfg_example : flash_read_cfg nor memory 1 1 ≡ (size 2, 7 ∷ [], memory)
unfolding b80_key.Eep.Log.latest
flash_read_cfg_example =
    flash_read_cfg_lem nor memory 0xC000 records memory-Holds 1 1 (omega arith) (omega arith)

-- Writing two bytes for object 2, and reading them back.
read-write_example :
    let w = flash_write_cfg nor memory (5 ∷ 6 ∷ []) 2 2 in
    (w.0 ≡ size 2) × (flash_read_cfg nor w.1 2 20 ≡ (size 2, 5 ∷ 6 ∷ [], w.1))
read-write_example =
    read-write nor memory 0xC000 records memory-Holds 2 1 20 5 (6 ∷ []) records-IsPackable
      (omega arith) (omega arith) (omega arith) new_bytes-IsByte (omega arith)
      (omega (arith, records-packed))

room_for_packed :
    log_end (other_sector 0xC000 + 2) (pack_log no_flags records)
    < other_sector 0xC000 + sector_size
unfolding log_end pack_log b80_key.Eep.Compact.pack_entry b80_key.Eep.Pack.check_flag_eep_id
    b80_key.Eep.Compact.emit_latest b80_key.Eep.Log.latest
room_for_packed = omega arith

-- Packing the sector.
pack_eep_fmem_example :
    let (a, m') = pack_eep_fmem nor memory 0xC000 in
    Holds m' 0xD000 (pack_log no_flags records) × (a ≡ log_end 0xD002 (pack_log no_flags records))
pack_eep_fmem_example =
    pack_eep_fmem-Holds nor memory 0xC000 records memory-Holds records-IsPackable room_for_packed

visible-pack_log_example : visible (value 1 (pack_log no_flags records)) ≡ visible (value 1 records)
visible-pack_log_example = visible-pack_log 1 records (omega arith) memory-Holds.has_log.entries

-- Device configuration and device name, written three times each.
pack_log-rounds_example :
    pack_log no_flags (rounds 3 (item 1 7 (9 ∷ [])) (item 2 66 []))
    ≡ rounds 3 (item 1 7 (9 ∷ [])) (item 2 66 [])
pack_log-rounds_example =
    pack_log-rounds 1 7 2 66 (9 ∷ []) [] 3 (omega arith) (omega arith) (omega arith) (omega arith)
      (omega arith) refl

-- A store with no version is erased.
flash_supported_eep_ver_example :
    let (ok, m') = flash_supported_eep_ver nor memory 1 0x01000001 in
    ((accepts (value 0 records) 1 0x01000001 ≡ true)
      × (ok ≡ is_new (value 0 records) 0x01000001)
      × Leaves records 0 (u32_bytes 0x01000001) m')
    ⊎ ((accepts (value 0 records) 1 0x01000001 ≡ false)
        × (ok ≡ false)
        × Leaves [] 0 (u32_bytes 0x01000001) m')
flash_supported_eep_ver_example =
    flash_supported_eep_ver_lem nor memory 0xC000 records memory-Holds 1 0x01000001
      records-IsPackable room

get_addr_bscfg-NoSector_example :
    let (s, m') = get_addr_bscfg nor (λ x. 255) in (s ≡ eep_base) × Holds m' s []
get_addr_bscfg-NoSector_example = get_addr_bscfg-NoSector nor (λ x. 255) (omega arith)

flash_erase_all_cfg_example : flash_erase_all_cfg nor memory 0xC004 ≡ 255
flash_erase_all_cfg_example = flash_erase_all_cfg_lem nor memory 0xC004

abbrev two_bytes : Obj
two_bytes = record { id = 2; size = 2; bytes = 5 ∷ 6 ∷ [] }

two_bytes-IsEntry : IsEntry two_bytes
two_bytes-IsEntry = record {
  id_byte = omega arith;
  size_byte = omega arith;
  not_free = omega arith;
  data_span = refl;
  data_bytes = omega arith;
}

-- The power fails after the size and one byte of the object.
write_obj-interrupted_example :
    let m' = interrupted nor memory (log_end 0xC002 records) two_bytes 2 in
    (log' : List Obj) × Holds m' 0xC000 log'
    × (((id : ℕ) → id < 255 → value id log' ≡ value id records)
        ⊎ ((id : ℕ) → id < 255 → value id log' ≡ value id (records ++ two_bytes ∷ [])))
unfolding log_end
write_obj-interrupted_example =
    write_obj-interrupted nor memory 0xC000 records memory-Holds two_bytes two_bytes-IsEntry
      (omega arith) (omega arith) 2
