-- ===== src/Eep/Config.antt =====
-- The entry points of src/flash_eep.c: reading, writing and erasing objects.
use b80_key.Prelude.{
  ℕ, zero, suc, ◌+◌, ◌*◌, ◌/◌, ◌%◌, List, [], ◌∷◌, Bool, true, false, ◌&&◌, ◌||◌, not, min,
}
use b80_key.Prelude.{ltb, leb, ◌==◌, if◌then◌else◌, get_or, take}
use b80_key.Flash.{Mem, Flash, sector_size}
use b80_key.Eep.{Obj, max_fobj_size, eep_base, eep_sectors}
use b80_key.Eep.{write_obj, get_addr_bscfg, get_addr_idobj, get_addr_wrobj}
use b80_key.Eep.Pack.{pack_eep_fmem}

-- s32: a size, or one of fmemory_errors_t.
pub data Reply : Type 0 where
  size : ℕ → Reply
  fmem_not_found fmem_size_err fmem_overflow : Reply

-- memcmp(a, b, n) == 0 of two buffers of n bytes
abbrev pub same_bytes : List ℕ → List ℕ → Bool
same_bytes [] [] = true
same_bytes [] (b ∷ bs) = false
same_bytes (x ∷ xs) [] = false
same_bytes (x ∷ xs) (b ∷ bs) = x == b && same_bytes xs bs

-- Where an object of `n` bytes would pass the end of its sector.
abbrev pub no_room : ℕ → ℕ → ℕ → Bool
no_room faddr n saddr = faddr == 0 || leb (saddr + sector_size) (faddr + n + 2)

-- The four bytes of a u32, and back (little endian)
abbrev pub u32_bytes : ℕ → List ℕ
u32_bytes v = v % 256 ∷ v / 256 % 256 ∷ v / 65536 % 256 ∷ v / 16777216 % 256 ∷ []

abbrev pub u32_of : List ℕ → ℕ
u32_of bs = get_or bs 0 0 + 256 * get_or bs 1 0 + 65536 * get_or bs 2 0 + 16777216 * get_or bs 3 0

abbrev pub eep_id_ver : ℕ
eep_id_ver = 0

-- Whether the version read is one that `new_ver` may go on from.
abbrev pub is_supported : Reply → ℕ → ℕ → ℕ → Bool
is_supported (size n) tmp min_ver new_ver =
    n == 4 && tmp % 65536 == new_ver % 65536 && leb min_ver tmp
is_supported _ tmp min_ver new_ver = false

module _ (d : Flash) where
  -- flash_write_cfg from the second size check on
  unfoldable pub write_at : Mem → ℕ → ℕ → Obj → Reply × Mem
  write_at m faddr saddr o =
      if no_room faddr o.size saddr
      then (fmem_overflow, m)
      else (size o.size, write_obj d m faddr o)

  -- from the search for the write address on
  unfoldable pub write_new : Mem → ℕ → Obj → Reply × Mem
  write_new m saddr o =
      let faddr = get_addr_wrobj d m (saddr + 2) in
      if no_room faddr o.size saddr
      then (let (faddr', m') = pack_eep_fmem d m saddr in
          write_at m' faddr' (faddr' / sector_size * sector_size) o)
      else write_at m faddr saddr o

  -- Whether the object is stored already; the size in the header passed is not initialised in C.
  unfoldable pub is_stored : Mem → ℕ → Obj → Bool
  is_stored m saddr o =
      let (faddr, h) = get_addr_idobj d m (saddr + 2) (record { id = o.id; size = 0 }) in
      not (faddr == 0) && h.size == o.size && same_bytes o.bytes (d.read_page m (faddr + 2) o.size)

  -- `ptr` holds the bytes behind the pointer; `id` is cut to a byte in the header.
  unfoldable pub flash_write_cfg : Mem → List ℕ → ℕ → ℕ → Reply × Mem
  flash_write_cfg m ptr id n =
      if ltb max_fobj_size n
      then (fmem_size_err, m)
      else let (saddr, m') = get_addr_bscfg d m in
        let o : Obj = record { id = id % 256; size = n; bytes = take n ptr } in
        if is_stored m' saddr o then (size n, m') else write_new m' saddr o

  -- The reply, the bytes copied to the caller's buffer, and the memory.
  unfoldable pub flash_read_cfg : Mem → ℕ → ℕ → Reply × List ℕ × Mem
  flash_read_cfg m id maxsize =
      if leb maxsize max_fobj_size
      then (let (saddr, m') = get_addr_bscfg d m in
          let (faddr, rh) = get_addr_idobj d m' (saddr + 2) (record { id = id % 256; size = 0 }) in
          if faddr == 0
          then (fmem_not_found, [], m')
          else (size rh.size, d.read_page m' (faddr + 2) (min rh.size maxsize), m'))
      else (fmem_size_err, [], m)

  -- The while loop over the sectors, with the sectors left.
  unfoldable pub erase_from : ℕ → Mem → ℕ → Mem
  erase_from zero m faddr = m
  erase_from (suc left) m faddr = erase_from left (d.erase_sector m faddr) (faddr + sector_size)

  unfoldable pub flash_erase_all_cfg : Mem → Mem
  unfolding erase_from
  flash_erase_all_cfg m = erase_from eep_sectors m eep_base

  unfoldable pub flash_supported_eep_ver : Mem → ℕ → ℕ → Bool × Mem
  flash_supported_eep_ver m min_ver new_ver =
      let (reply, bs, m') = flash_read_cfg m eep_id_ver 4 in
      let ok = is_supported reply (u32_of bs) min_ver new_ver in
      let kept = if ok then m' else flash_erase_all_cfg m' in
      (ok && not (u32_of bs == new_ver), (flash_write_cfg kept (u32_bytes new_ver) eep_id_ver 4).1)
