-- ===== src/Eep/Holds.antt =====
-- The state of the bank of src/flash_eep.c between calls: one current sector that holds a log.
use b80_key.Prelude.{ℕ, ◌+◌, ◌-◌, ◌*◌, ◌≤◌, ◌<◌, ◌≡◌, ◌≢◌, ◌⊎◌, ◌∙◌, refl, ap, inl, inr}
use b80_key.Prelude.{List, [], ◌∷◌, ◌++◌, none, arith, length}
use b80_key.Flash.{Mem, Flash, sector_size}
use b80_key.Eep.{
  Obj, max_fobj_size, span, head_sector, find_sector, get_addr_bscfg, get_addr_idobj,
  get_addr_wrobj, sector_end, write_obj,
}
use b80_key.Eep.Log.{
  latest, IsEntry, All, All-append, Stored, Stored-append, Stored-ext, log_end, le-log_end,
  log_end-append,
}
use b80_key.Eep.Search.{
  Erased, Hit, missing, read_head_lem, idobj_loop-Hit, FreeAt, wrobj_loop-FreeAt,
}
use b80_key.Eep.Write.{write_obj-outside, write_obj-Stored}

abbrev pub IsSector : ℕ → Type 0
IsSector s = (s ≡ 0xC000) ⊎ (s ≡ 0xD000)

abbrev pub other_sector : ℕ → ℕ
other_sector s = 0x19000 - s

-- A log from `s` on, with the rest of the sector erased.
pub record HasLog (m : Mem) (s : ℕ) (log : List Obj) : Type 0 where
  pub entries : All IsEntry log
  pub stored : Stored m (s + 2) log
  pub room : log_end (s + 2) log ≤ s + sector_size
  pub erased : Erased m (log_end (s + 2) log) (s + sector_size)

-- The sector at `s` is the current one and holds the log; the other one is not marked.
pub record Holds (m : Mem) (s : ℕ) (log : List Obj) : Type 0 where
  pub sector : IsSector s
  pub mark_id : m s ≡ 255
  pub mark_size : m (s + 1) ≡ 0
  pub other : m (other_sector s) + 256 * m (other_sector s + 1) ≢ head_sector
  pub has_log : HasLog m s log
  pub open has_log use *

sector_end_lem : (s : ℕ) → IsSector s → sector_end (s + 2) ≡ s + sector_size
sector_end_lem s sec = elim sec [ inl e ↦ rw e | inr e ↦ rw e ]

module _ (d : Flash) where
  -- The current sector is found, and nothing is written.
  pub get_addr_bscfg-Holds :
      (m : Mem) (s : ℕ) (log : List Obj) → Holds m s log → get_addr_bscfg d m ≡ (s, m)
  unfolding get_addr_bscfg find_sector
  get_addr_bscfg-Holds m s log h =
      rw (read_head_lem d m 0xC000, read_head_lem d m 0xD000)
        (elim h.sector [
          | inl e ↦
              let id : m 0xC000 ≡ 255 = rw e at h.mark_id in
              let size : m 0xC001 ≡ 0 = rw e at h.mark_size in
              let other : m 0xD000 + 256 * m 0xD001 ≢ head_sector = rw e at h.other in
              ground (arith, id, size, other, e)
          | inr e ↦
              let id : m 0xD000 ≡ 255 = rw e at h.mark_id in
              let size : m 0xD001 ≡ 0 = rw e at h.mark_size in ground (arith, id, size, e)
        ])

  pub get_addr_idobj-Hit :
      (m : Mem) (s size : ℕ) (log : List Obj) (id : ℕ)
      → IsSector s
      → HasLog m s log
      → id < 255
      → Hit m (latest id log none) (get_addr_idobj d m (s + 2) (record { id = id; size = size }))
  unfolding get_addr_idobj
  get_addr_idobj-Hit m s size log id sec h small = rw (sector_end_lem s sec) (
      idobj_loop-Hit d sector_size m (s + 2) (s + sector_size) 0 _ log none (omega arith)
        (omega arith) (omega arith) small h.entries h.stored h.room h.erased (missing refl refl))

  pub get_addr_wrobj-FreeAt :
      (m : Mem) (s : ℕ) (log : List Obj)
      → IsSector s
      → HasLog m s log
      → FreeAt (get_addr_wrobj d m (s + 2)) (log_end (s + 2) log) (s + sector_size)
  unfolding get_addr_wrobj
  get_addr_wrobj-FreeAt m s log sec h = rw (sector_end_lem s sec) (
      wrobj_loop-FreeAt d sector_size m (s + 2) (s + sector_size) log (omega arith) (omega arith)
        h.entries h.stored h.room h.erased)

  -- A record that appears behind the log, with no other change, extends it.
  pub HasLog-extend :
      (m m' : Mem) (s : ℕ) (log : List Obj) (o : Obj)
      → HasLog m s log
      → IsEntry o
      → o.size ≤ max_fobj_size
      → let a = log_end (s + 2) log in
        a + (o.size + 2) ≤ s + sector_size
        → Stored m' a (o ∷ [])
        → ((x : ℕ) → (x < a) ⊎ (a + (o.size + 2) ≤ x) → m' x ≡ m x)
        → HasLog m' s (log ++ o ∷ [])
  HasLog-extend m m' s log o h ok fits room there same =
      let a = log_end (s + 2) log in
      let start : s + 2 ≤ a = le-log_end (s + 2) log in
      let span_size : span o.size ≡ o.size = ground arith in
      let end : log_end (s + 2) (log ++ o ∷ []) ≡ a + (o.size + 2) =
        log_end-append (s + 2) log (o ∷ []) ∙ unfold log_end in ap (λ n. a + (n + 2)) span_size in
      record {
        entries = All-append IsEntry log (o ∷ []) h.entries (ok, tt);
        stored =
            Stored-append m' (s + 2) log (o ∷ [])
              (Stored-ext m m' (s + 2) log (λ x p q. same x (inl q)) h.stored) there;
        room = rw end room;
        erased = λ x p q. same x (inr (omega (arith, end))) ∙ h.erased x (omega (arith, end)) q;
      }

  -- A record written behind the log extends it.
  pub write_obj-HasLog :
      (m : Mem) (s : ℕ) (log : List Obj) (o : Obj)
      → HasLog m s log
      → IsEntry o
      → o.size ≤ max_fobj_size
      → log_end (s + 2) log + (o.size + 2) ≤ s + sector_size
      → HasLog (write_obj d m (log_end (s + 2) log) o) s (log ++ o ∷ [])
  write_obj-HasLog m s log o h ok fits room =
      let a = log_end (s + 2) log in
      let spanned : length o.bytes ≡ o.size = ground (arith, ok.data_span) in
      HasLog-extend m _ s log o h ok fits room
        (write_obj-Stored d m a o ok fits (λ x p q. h.erased x p (omega arith)))
        (λ x out. write_obj-outside d m a o x (omega (arith, spanned, out)))
