-- ===== src/Eep/Pack.antt =====
-- pack_eep_fmem of src/flash_eep.c: copying the last version of each object to the next sector.
use b80_key.Prelude.{ℕ, zero, suc, ◌+◌, ◌/◌, ◌%◌, ◌^◌, [], ◌∷◌, ◌||◌, bit_and, bit_or}
use b80_key.Prelude.{ltb, leb, ◌==◌, if◌then◌else◌}
use b80_key.Flash.{Mem, Flash, sector_size}
use b80_key.Eep.{Head, head_x, Obj, max_fobj_size, fobj_x_free, eep_base, eep_banks_size}
use b80_key.Eep.{read_head, write_obj, get_addr_idobj}

-- buf_id: the byte at each index.
abbrev pub Flags : Type 0
Flags = ℕ → ℕ

abbrev pub put_flag : Flags → ℕ → ℕ → Flags
put_flag b i v j = if j == i then v else b j

-- set_flag_eep_id(b, n): b[n >> 3] |= 1 << (n & 7)
unfoldable pub set_flag_eep_id : Flags → ℕ → Flags
set_flag_eep_id b n = put_flag b (n / 8) (bit_or (b (n / 8)) (2 ^ (n % 8)))

-- check_flag_eep_id(b, n): b[n >> 3] &= 1 << (n & 7), an assignment, whose value is tested.
unfoldable pub check_flag_eep_id : Flags → ℕ → Flags
check_flag_eep_id b n = put_flag b (n / 8) (bit_and (b (n / 8)) (2 ^ (n % 8)))

abbrev pub flag_value : Flags → ℕ → ℕ
flag_value b n = b (n / 8)

abbrev pub no_flags : Flags
no_flags i = 0

-- The variables of the loop that change, but for rdaddr.
pub record Packing : Type 0 where
  pub mem : Mem
  pub wraddr : ℕ
  pub buf_id : Flags

-- `stop` is a break; `go` continues at the next rdaddr.
pub data Step : Type 0 where
  stop : Packing → Step
  go : Packing → ℕ → Step

module _ (d : Flash) (fnewseg : ℕ) where
  -- The body from the call of get_addr_idobj on. The size in the header passed is not
  -- initialised in C; it is read only after the search has set it.
  unfoldable pub copy_latest : Packing → ℕ → Head → Step
  copy_latest p rdaddr rh =
      let (faddr, fobj) = get_addr_idobj d p.mem rdaddr (record { id = rh.id; size = 0 }) in
      let next = rdaddr + (rh.size + 2) in
      if faddr == 0
      then go p next
      else let p' = record p { buf_id = set_flag_eep_id p.buf_id rh.id } in
        if ltb max_fobj_size fobj.size
        then go p' (rdaddr + (max_fobj_size + 2))
        else if fobj.size == 0
        then go p' next
        else let obj : Obj = record {
          id = fobj.id;
          size = fobj.size;
          bytes = d.read_page p.mem (faddr + 2) fobj.size;
        } in
          let p'' = record p' {
            mem = write_obj d p.mem p.wraddr obj;
            wraddr = p.wraddr + (fobj.size + 2);
          } in
          if leb (fnewseg + sector_size) p''.wraddr then stop p'' else go p'' next

  unfoldable pub pack_step : Packing → ℕ → Step
  pack_step p rdaddr =
      let rh = read_head d p.mem rdaddr in
      let next = rdaddr + (rh.size + 2) in
      if head_x rh == fobj_x_free
      then stop p
      else if rh.size == 0 || rh.id == 0xff
      then go p next
      else if ltb max_fobj_size rh.size
      then go p (rdaddr + (max_fobj_size + 2))
      else let p' = record p { buf_id = check_flag_eep_id p.buf_id rh.id } in
        if flag_value p'.buf_id rh.id == 0 then copy_latest p' rdaddr rh else go p' next

  -- while(rdaddr < endrdaddr), on fuel: each round moves on by two bytes or more.
  unfoldable pub pack_loop : ℕ → Packing → ℕ → ℕ → Packing
  pack_loop zero p rdaddr endrdaddr = p
  pack_loop (suc fuel) p rdaddr endrdaddr =
      if ltb rdaddr endrdaddr
      then elim (pack_step p rdaddr) [
        | stop p' ↦ p'
        | go p' rdaddr' ↦ pack_loop fuel p' rdaddr' endrdaddr
      ]
      else p

-- The next sector of the bank.
abbrev pub next_sector : ℕ → ℕ
next_sector sec_faddr =
    if leb (eep_base + eep_banks_size) (sec_faddr + sector_size)
    then eep_base
    else sec_faddr + sector_size

module _ (d : Flash) where
  -- Marks the new sector as the current one, then closes the old one.
  unfoldable pub switch_sector : Mem → ℕ → ℕ → Mem
  switch_sector m fnewseg sec_faddr =
      d.write_page (d.write_page m (fnewseg + 1) (0 ∷ [])) sec_faddr (0 ∷ [])

  unfoldable pub pack_eep_fmem : Mem → ℕ → ℕ × Mem
  pack_eep_fmem m sec_faddr =
      let fnewseg = next_sector sec_faddr in
      let start : Packing = record {
        mem = d.erase_sector m fnewseg;
        wraddr = fnewseg + 2;
        buf_id = no_flags;
      } in
      let p = pack_loop d fnewseg sector_size start (sec_faddr + 2) (sec_faddr + sector_size) in
      (
        if leb (fnewseg + sector_size) p.wraddr then 0 else p.wraddr,
        switch_sector p.mem fnewseg sec_faddr,
      )
