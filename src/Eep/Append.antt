-- ===== src/Eep/Append.antt =====
-- flash_write_cfg of src/flash_eep.c with room behind the log.
use b80_key.Prelude.{
  ℕ, ◌+◌, ◌%◌, ◌≤◌, ◌<◌, ◌≡◌, ◌⊎◌, ◌∙◌, refl, sym, ap, inl, inr, arith, List, [], ◌∷◌, ◌++◌, none,
  false,
}
use b80_key.Prelude.{ltb, length, take, length-take}
use b80_key.Flash.{Mem, Flash, sector_size}
use b80_key.Eep.{Obj, max_fobj_size, get_addr_idobj, get_addr_wrobj, write_obj}
use b80_key.Eep.Log.{latest, IsEntry, IsByte, All, log_end, le-log_end}
use b80_key.Eep.Search.{Hit, missing, hit}
use b80_key.Eep.Write.{write_obj-outside}
use b80_key.Eep.Config.{size, no_room, write_at, write_new, is_stored, flash_write_cfg}
use b80_key.Eep.Holds.{
  other_sector, Holds, get_addr_bscfg-Holds, get_addr_idobj-Hit, get_addr_wrobj-FreeAt,
  write_obj-HasLog,
}

abbrev pub object : ℕ → List ℕ → Obj
object id bs = record { id = id; size = length bs; bytes = bs }

pub object-IsEntry :
    (id : ℕ) (bs : List ℕ)
    → id < 255
    → length bs ≤ max_fobj_size
    → All IsByte bs
    → IsEntry (object id bs)
object-IsEntry id bs small fits bytes = record {
  id_byte = omega arith;
  size_byte = omega arith;
  not_free = omega arith;
  data_span = ground arith;
  data_bytes = bytes;
}

module _ (d : Flash) (m : Mem) (s : ℕ) (log : List Obj) (h : Holds m s log) (id : ℕ) (bs : List ℕ)
    (small : id < 255) (fits : length bs ≤ max_fobj_size) (bytes : All IsByte bs)
    (room : log_end (s + 2) log + (length bs + 2) < s + sector_size) where
  pub write_obj-Holds :
      Holds (write_obj d m (log_end (s + 2) log) (object id bs)) s (log ++ object id bs ∷ [])
  write_obj-Holds =
      let o = object id bs in
      let start : s + 2 ≤ log_end (s + 2) log = le-log_end (s + 2) log in
      let out = λ (x : ℕ) (p : (x < s + 2) ⊎ (s + sector_size ≤ x)).
        write_obj-outside d m (log_end (s + 2) log) o x
          (elim p [ inl q ↦ inl (omega arith) | inr q ↦ inr (omega arith) ]) in
      let other0 : write_obj d m (log_end (s + 2) log) o (other_sector s) ≡ m (other_sector s) =
        out (other_sector s)
          (elim h.sector [ inl q ↦ inr (omega arith) | inr q ↦ inl (omega arith) ]) in
      let other1 : write_obj d m (log_end (s + 2) log) o (other_sector s + 1)
          ≡ m (other_sector s + 1) =
        out (other_sector s + 1)
          (elim h.sector [ inl q ↦ inr (omega arith) | inr q ↦ inl (omega arith) ]) in
      record {
        sector = h.sector;
        mark_id = out s (inl (omega arith)) ∙ h.mark_id;
        mark_size = out (s + 1) (inl (omega arith)) ∙ h.mark_size;
        other = λ e. h.other (omega (arith, e, other0, other1));
        has_log =
            write_obj-HasLog d m s log o h.has_log (object-IsEntry id bs small fits bytes) fits
              (omega arith);
      }

  write_new-append :
      write_new d m s (object id bs)
      ≡ (size (length bs), write_obj d m (log_end (s + 2) log) (object id bs))
  unfolding write_new write_at
  write_new-append =
      let start : s + 2 ≤ log_end (s + 2) log = le-log_end (s + 2) log in
      let at : get_addr_wrobj d m (s + 2) ≡ log_end (s + 2) log =
        ground (arith, get_addr_wrobj-FreeAt d m s log h.sector h.has_log) in
      let fit : no_room (log_end (s + 2) log) (length bs) s ≡ false = ground (arith, start, room) in
      rw (at, fit) refl

module _ (d : Flash) (m : Mem) (s : ℕ) (log : List Obj) (h : Holds m s log) where
  absent-is_stored :
      (o : Obj)
      → Hit m none (get_addr_idobj d m (s + 2) (record { id = o.id; size = 0 }))
      → is_stored d m s o ≡ false
  unfolding is_stored
  absent-is_stored o (missing none_there at_zero) = rw at_zero refl
  absent-is_stored o (hit found there len short pos data_there) = cc

  -- With room behind the log, the first write of an object appends its record.
  pub flash_write_cfg-append :
      (ptr : List ℕ) (id n : ℕ)
      → id < 255
      → n ≤ max_fobj_size
      → n ≤ length ptr
      → All IsByte (take n ptr)
      → latest id log none ≡ none
      → log_end (s + 2) log + (n + 2) < s + sector_size
      → let (reply, m') = flash_write_cfg d m ptr id n in
        (reply ≡ size n) × Holds m' s (log ++ object id (take n ptr) ∷ [])
  unfolding flash_write_cfg
  flash_write_cfg-append ptr id n small fits long bytes absent room =
      let bs = take n ptr in
      let ok : ltb max_fobj_size n ≡ false = ground arith in
      let byte : id % 256 ≡ id = omega arith in
      let taken : length bs ≡ n = length-take n ptr ∙ omega arith in
      let same_object : record { id = id; size = n; bytes = bs } ≡ object id bs =
        ap (λ k. record { id = id; size = k; bytes = bs }) (sym taken) in
      let searched = get_addr_idobj-Hit d m s 0 log id h.sector h.has_log small in
      let none_there : Hit m none (get_addr_idobj d m (s + 2) (record { id = id; size = 0 })) =
        rw absent at searched in
      let fits' : length bs ≤ max_fobj_size = omega (arith, taken) in
      let room' : log_end (s + 2) log + (length bs + 2) < s + sector_size =
        omega (arith, taken, room) in
      rw
        (
          ok,
          get_addr_bscfg-Holds d m s log h,
          byte,
          same_object,
          absent-is_stored (object id bs) none_there,
          write_new-append d m s log h id bs small fits' bytes room',
        )
        (ap size taken, write_obj-Holds d m s log h id bs small fits' bytes room')
