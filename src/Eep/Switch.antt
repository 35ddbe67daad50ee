-- ===== src/Eep/Switch.antt =====
-- pack_eep_fmem of src/flash_eep.c as a whole: the other sector becomes the current one.
use b80_key.Prelude.{ℕ, ◌+◌, ◌*◌, ◌/◌, ◌≤◌, ◌<◌, ◌≡◌, ◌≢◌, ◌⊎◌, ◌∙◌, refl, ap, inl, inr}
use b80_key.Prelude.{List, [], ◌∷◌, false, arith, leb}
use b80_key.Flash.{Mem, Flash, sector_size}
use b80_key.Eep.{Obj}
use b80_key.Eep.Log.{IsEntry, All, Stored-ext, log_end, le-log_end}
use b80_key.Eep.Write.{write-Erased}
use b80_key.Eep.Pack.{no_flags, pack_loop, next_sector, switch_sector, pack_eep_fmem}
use b80_key.Eep.Compact.{pack_log}
use b80_key.Eep.Holds.{IsSector, other_sector, HasLog, Holds}
use b80_key.Eep.Repack.{IsCopy, IsPackable, emit, emit-outside, emit-Stored, pack_log-IsCopy}
use b80_key.Eep.PackLoop.{packing, pack_loop_lem}

IsCopy→IsEntry : (os : List Obj) → All IsCopy os → All IsEntry os
IsCopy→IsEntry [] v = tt
IsCopy→IsEntry (o ∷ os) v = (v.0.entry, IsCopy→IsEntry os v.1)

other-IsSector : (s : ℕ) → IsSector s → IsSector (other_sector s)
other-IsSector s sec = elim sec [ inl e ↦ inr (omega arith) | inr e ↦ inl (omega arith) ]

next-eq-other : (s : ℕ) → IsSector s → next_sector s ≡ other_sector s
next-eq-other s sec = elim sec [ inl e ↦ rw e | inr e ↦ rw e ]

-- The end of the packed log, counted from the start of a sector.
abbrev pub packed_end : List Obj → ℕ
packed_end log = log_end 2 (pack_log no_flags log)

same_sector :
    (s : ℕ)
    → IsSector s
    → (x : ℕ) → other_sector s ≤ x
    → x < other_sector s + sector_size
    → x / sector_size ≡ other_sector s / sector_size
same_sector s sec x p q = omega arith

ne_sector :
    (s : ℕ)
    → IsSector s
    → (x : ℕ) → s ≤ x
    → x < s + sector_size
    → x / sector_size ≢ other_sector s / sector_size
ne_sector s sec x p q = omega arith

apart :
    (s : ℕ)
    → IsSector s
    → (x : ℕ) → s ≤ x
    → x < s + sector_size
    → (end : ℕ) → end < other_sector s + sector_size
    → (x < other_sector s + 2) ⊎ (end ≤ x)
apart s sec x p q end room = elim sec [ inl e ↦ inl (omega arith) | inr e ↦ inr (omega arith) ]

module _ (d : Flash) where
  write_one : (m : Mem) (a v : ℕ) → v < 256 → m a ≡ 255 → d.write_page m a (v ∷ []) a ≡ v
  write_one m a v small free =
      ap (d.write_page m a (v ∷ [])) (zero_off a)
      ∙ write-Erased d m a (v ∷ []) (small, tt) (λ x p q. ap m (omega arith) ∙ free) 0 (omega arith)
    where
      zero_off : (x : ℕ) → x ≡ x + 0
      zero_off x = omega arith

  write_one-outside : (m : Mem) (a v x : ℕ) → x ≢ a → d.write_page m a (v ∷ []) x ≡ m x
  write_one-outside m a v x ne = d.write_outside m a (v ∷ []) x (omega arith)

  switch-outside : (m : Mem) (f s x : ℕ) → x ≢ s → x ≢ f + 1 → switch_sector d m f s x ≡ m x
  unfolding switch_sector
  switch-outside m f s x p q = write_one-outside _ s 0 x p ∙ write_one-outside m (f + 1) 0 x q

  switch-new : (m : Mem) (f s : ℕ) → f + 1 ≢ s → m (f + 1) ≡ 255 → switch_sector d m f s (f + 1) ≡ 0
  unfolding switch_sector
  switch-new m f s ne free =
      write_one-outside _ s 0 (f + 1) ne ∙ write_one m (f + 1) 0 (omega arith) free

  switch-old : (m : Mem) (f s : ℕ) → s ≢ f + 1 → m s ≡ 255 → switch_sector d m f s s ≡ 0
  unfolding switch_sector
  switch-old m f s ne free =
      write_one _ s 0 (omega arith) (write_one-outside m (f + 1) 0 s ne ∙ free)

  HasLog-ext :
      (m m' : Mem) (s : ℕ) (log : List Obj)
      → ((x : ℕ) → s + 2 ≤ x → x < s + sector_size → m' x ≡ m x)
      → HasLog m s log
      → HasLog m' s log
  HasLog-ext m m' s log same h =
      let start : s + 2 ≤ log_end (s + 2) log = le-log_end (s + 2) log in
      let room = h.room in
      record {
        entries = h.entries;
        stored = Stored-ext m m' (s + 2) log (λ x p q. same x p (omega arith)) h.stored;
        room = h.room;
        erased = λ x p q. same x (omega arith) q ∙ h.erased x p q;
      }

  -- With room for the packed log in one sector, packing makes the other sector the current one, with
  -- the packed log, and returns the address behind it.
  pub pack_eep_fmem-Holds :
      (m : Mem) (s : ℕ) (log : List Obj)
      → Holds m s log
      → All IsPackable log
      → log_end (other_sector s + 2) (pack_log no_flags log) < other_sector s + sector_size
      → let (a, m') = pack_eep_fmem d m s in
        Holds m' (other_sector s) (pack_log no_flags log)
        × (a ≡ log_end (other_sector s + 2) (pack_log no_flags log))
  pack_eep_fmem-Holds m s log h pk room = rw computes (
    record {
      sector = other-IsSector s h.sector;
      mark_id = moved f (omega arith) (omega arith) ∙ fresh f (omega arith) (omega arith);
      mark_size = closed_new;
      other = λ e. omega (arith, ap (λ x. sw x + 256 * sw (x + 1)) back, closed_old, kept_size, e);
      has_log =
          HasLog-ext em sw f packed (λ x p q. moved x (omega arith) (omega arith))
            (record {
              entries = IsCopy→IsEntry packed copies;
              stored =
                  emit-Stored d m0 (f + 2) packed copies
                    (λ x p q. erased_new x (omega arith) (omega arith));
              room = omega arith;
              erased = λ x p q.
                  emit-outside d m0 (f + 2) packed x copies (inr p)
                  ∙ erased_new x (omega (arith, start)) q;
            });
    },
    refl,
  )
    where
      f : ℕ
      f = other_sector s

      packed : List Obj
      packed = pack_log no_flags log

      copies : All IsCopy packed
      copies = pack_log-IsCopy no_flags log h.entries

      m0 : Mem
      m0 = d.erase_sector m f

      em : Mem
      em = emit d m0 (f + 2) packed

      sw : Mem
      sw = switch_sector d em f s

      start : f + 2 ≤ log_end (f + 2) packed
      start = le-log_end (f + 2) packed

      erased_new : (x : ℕ) → f ≤ x → x < f + sector_size → m0 x ≡ 255
      erased_new x p q = d.erase_inside m f x (same_sector s h.sector x p q)

      kept : (x : ℕ) → s ≤ x → x < s + sector_size → m0 x ≡ m x
      kept x p q = d.erase_outside m f x (ne_sector s h.sector x p q)

      fresh : (x : ℕ) → f ≤ x → x < f + 2 → em x ≡ 255
      fresh x p q = emit-outside d m0 (f + 2) packed x copies (inl q) ∙ erased_new x p (omega arith)

      far : (x : ℕ) → s ≤ x → x < s + sector_size → em x ≡ m x
      far x p q =
          emit-outside d m0 (f + 2) packed x copies
            (apart s h.sector x p q (log_end (f + 2) packed) room)
          ∙ kept x p q

      back : other_sector f ≡ s
      back = omega arith

      moved : (x : ℕ) → x ≢ s → x ≢ f + 1 → sw x ≡ em x
      moved x p q = switch-outside em f s x p q

      closed_new : sw (f + 1) ≡ 0
      closed_new = switch-new em f s (omega arith) (fresh (f + 1) (omega arith) (omega arith))

      closed_old : sw s ≡ 0
      closed_old = switch-old em f s (omega arith) (far s (omega arith) (omega arith) ∙ h.mark_id)

      kept_size : sw (s + 1) ≡ 0
      kept_size =
          moved (s + 1) (omega arith) (omega arith)
          ∙ far (s + 1) (omega arith) (omega arith)
          ∙ h.mark_size

      run :
          let p =
            pack_loop d f sector_size (packing m0 (f + 2) no_flags) (s + 2) (s + sector_size) in
          (p.mem ≡ em) × (p.wraddr ≡ log_end (f + 2) packed)
      run =
          pack_loop_lem d f sector_size m0 (f + 2) no_flags s (s + 2) log h.sector (omega arith)
            (omega arith) (omega arith) old.entries pk old.stored old.room old.erased room
        where
          old : HasLog m0 s log
          old = HasLog-ext m m0 s log (λ x p q. kept x (omega arith) q) h.has_log

      computes : pack_eep_fmem d m s ≡ (log_end (f + 2) packed, sw)
      computes =
          let stays : leb (f + sector_size) (log_end (f + 2) packed) ≡ false = ground arith in
          unfold pack_eep_fmem in rw (next-eq-other s h.sector, run.0, run.1, stays)
