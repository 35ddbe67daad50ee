-- ===== src/Eep/Search.antt =====
-- get_addr_idobj and get_addr_wrobj of src/flash_eep.c on a sector that holds a log.
use b80_key.Prelude.{ℕ, zero, suc, ◌+◌, ◌*◌, ◌≤◌, ◌<◌, ◌≡◌, ◌⊎◌, refl, List, [], ◌∷◌}
use b80_key.Prelude.{
  Bool, true, false, ◌&&◌, Option, none, some, arith, inl, inr, sym, Bool-cases, ltb→lt,
}
use b80_key.Prelude.{ltb, leb, ◌==◌, if◌then◌else◌, length}
use native.Mathlib.Decide.{dec_lt}
use b80_key.Flash.{Mem, Flash, bytes_at}
use b80_key.Eep.{max_fobj_size, Obj, Head, span, fobj_x_free}
use b80_key.Eep.{read_head, idobj_loop, wrobj_loop}
use b80_key.Eep.Log.{latest, IsEntry, All, Stored, log_end, le-log_end}

-- Erased from `a` up to `fend`.
abbrev pub Erased : Mem → ℕ → ℕ → Type 0
Erased m a fend = (x : ℕ) → a ≤ x → x < fend → m x ≡ 255

-- What a search that ends with `r` has found, if the log says `value`: an address whose data are
-- the value, or address 0.
pub data Hit (m : Mem) (value : Option (List ℕ)) (r : ℕ × Head) : Type 0 where
  missing : value ≡ none → r.0 ≡ 0 → Hit m value r
  hit :
      (bs : List ℕ)
      → value ≡ some bs
      → r.1.size ≡ length bs
      → length bs ≤ max_fobj_size
      → 0 < r.0
      → bytes_at m (r.0 + 2) (length bs) ≡ bs
      → Hit m value r

log_end-nil : (a : ℕ) (log : List Obj) → log_end a log ≤ a → log ≡ []
unfolding log_end
log_end-nil a [] h = refl
log_end-nil a (e ∷ log) h = absurd (omega (arith, le-log_end (a + (span e.size + 2)) log))

-- Where a search for free space ends: behind the log, or at address 0 if at most one byte is left.
abbrev pub FreeAt : ℕ → ℕ → ℕ → Type 0
FreeAt r end fend = ((r ≡ end) × (end < fend)) ⊎ ((r ≡ 0) × (fend ≤ end + 1))

entry-Hit :
    (m : Mem) (a : ℕ) (e : Obj) (pobj : Head)
    → IsEntry e
    → 0 < a
    → bytes_at m (a + 2) (span e.size) ≡ e.bytes
    → (leb e.size max_fobj_size && e.id == pobj.id) ≡ true
    → Hit m (some e.bytes) (a, record pobj { size = e.size })
entry-Hit m a e pobj v pos bytes same =
    let fits : length e.bytes ≡ e.size = ground (arith, v.data_span) in
    let small : e.size ≤ max_fobj_size = ground arith in
    let spanned : span e.size ≡ length e.bytes = ground arith in
    hit e.bytes refl (sym fits) (omega arith) pos (rw (← spanned) bytes)

module _ (d : Flash) where
  pub read_head_lem : (m : Mem) (a : ℕ) → read_head d m a ≡ record { id = m a; size = m (a + 1) }
  unfolding read_head
  read_head_lem m a = rw d.read_lem

  -- One round of the loop, with the header read.
  idobj_loop-suc :
      (fuel : ℕ) (m : Mem) (a fend reta : ℕ) (pobj : Head) (k size : ℕ) (test : Bool)
      → m a ≡ k
      → m (a + 1) ≡ size
      → (leb size max_fobj_size && k == pobj.id) ≡ test
      → idobj_loop d (suc fuel) m a fend reta pobj ≡ (
          if k + 256 * size == fobj_x_free
          then (reta, pobj)
          else (if ltb (a + (span size + 2)) fend
              then idobj_loop d fuel m
                  (a + (span size + 2))
                  fend
                  (if test then a else reta)
                  (if test then record pobj { size = size } else pobj)
              else (if test then a else reta, if test then record pobj { size = size } else pobj)))
  unfolding idobj_loop
  idobj_loop-suc fuel m a fend reta pobj k size test p q t = rw (read_head_lem m a, p, q, t) refl

  -- At the erased end the loop stops with what it has.
  idobj_loop-Erased :
      (fuel : ℕ) (m : Mem) (a fend reta : ℕ) (pobj : Head)
      → a < fend
      → pobj.id < 255
      → Erased m a fend
      → idobj_loop d (suc fuel) m a fend reta pobj ≡ (reta, pobj)
  idobj_loop-Erased fuel m a fend reta pobj lt small free =
      let first : m a ≡ 255 = free a (omega arith) lt in
      elim (dec_lt (a + 1) fend) [
        | yes p ↦ rw (
            idobj_loop-suc fuel m a fend reta pobj 255 255 _ first (free (a + 1) (omega arith) p)
              refl)
        | no p ↦
            rw
              (idobj_loop-suc fuel m a fend reta pobj 255 (m (a + 1)) false first refl
                (ground arith))
              (ground arith)
      ]

  -- At a record the loop goes on behind it, or stops there if the sector ends.
  idobj_loop-entry :
      (fuel : ℕ) (m : Mem) (a fend reta : ℕ) (pobj : Head) (e : Obj) (test : Bool)
      → IsEntry e
      → m a ≡ e.id
      → m (a + 1) ≡ e.size
      → (leb e.size max_fobj_size && e.id == pobj.id) ≡ test
      → idobj_loop d (suc fuel) m a fend reta pobj ≡ (
          if ltb (a + (span e.size + 2)) fend
          then idobj_loop d fuel m
              (a + (span e.size + 2))
              fend
              (if test then a else reta)
              (if test then record pobj { size = e.size } else pobj)
          else (if test then a else reta, if test then record pobj { size = e.size } else pobj))
  idobj_loop-entry fuel m a fend reta pobj e test v p q t =
      let used : (e.id + 256 * e.size == fobj_x_free) ≡ false = ground (arith, v.not_free) in
      rw (idobj_loop-suc fuel m a fend reta pobj e.id e.size test p q t, used)

  pub idobj_loop-Hit :
      (fuel : ℕ) (m : Mem) (a fend reta : ℕ) (pobj : Head) (log : List Obj)
      (found : Option (List ℕ))
      → fend ≤ a + fuel
      → a < fend
      → 0 < a
      → pobj.id < 255
      → All IsEntry log
      → Stored m a log
      → log_end a log ≤ fend
      → Erased m (log_end a log) fend
      → Hit m found (reta, pobj)
      → Hit m (latest pobj.id log found) (idobj_loop d fuel m a fend reta pobj)
  unfolding latest log_end
  idobj_loop-Hit zero m a fend reta pobj log found f lt pos small v s room free h =
      absurd (omega arith)
  idobj_loop-Hit (suc fuel) m a fend reta pobj [] found f lt pos small v s room free h =
      rw (idobj_loop-Erased fuel m a fend reta pobj lt small free) h
  idobj_loop-Hit (suc fuel) m a fend reta pobj (e ∷ log) found f lt pos small v s room free h =
      let next = a + (span e.size + 2) in
      elim (Bool-cases (leb e.size max_fobj_size && e.id == pobj.id)) [
        | inl same ↦
            let found_here : Hit m (some e.bytes) (a, record pobj { size = e.size }) =
              entry-Hit m a e pobj v.0 pos s.2 same in
            rw (idobj_loop-entry fuel m a fend reta pobj e true v.0 s.0 s.1 same, same)
              (elim (Bool-cases (ltb next fend)) [
                | inl more ↦ rw more (
                    idobj_loop-Hit fuel m next fend a (record pobj { size = e.size }) log
                      (some e.bytes) (omega arith) (ltb→lt _ _ more) (omega arith) small v.1 s.3
                      room free found_here)
                | inr end ↦ rw (end, log_end-nil next log (ground arith)) found_here
              ])
        | inr other ↦
            rw (idobj_loop-entry fuel m a fend reta pobj e false v.0 s.0 s.1 other, other)
              (elim (Bool-cases (ltb next fend)) [
                | inl more ↦ rw more (
                    idobj_loop-Hit fuel m next fend reta pobj log found (omega arith)
                      (ltb→lt _ _ more) (omega arith) small v.1 s.3 room free h)
                | inr end ↦ rw (end, log_end-nil next log (ground arith)) h
              ])
      ]

  -- The search keeps the id that it looks for.
  pub id-idobj_loop :
      (fuel : ℕ) (m : Mem) (a fend reta : ℕ) (pobj : Head)
      → (idobj_loop d fuel m a fend reta pobj).1.id ≡ pobj.id
  unfolding idobj_loop
  id-idobj_loop zero m a fend reta pobj = refl
  id-idobj_loop (suc fuel) m a fend reta pobj = ground (
    arith,
    id-idobj_loop fuel m (a + (span (read_head d m a).size + 2)) fend
        (if leb (read_head d m a).size max_fobj_size && (read_head d m a).id == pobj.id
          then a
          else reta)
        (if leb (read_head d m a).size max_fobj_size && (read_head d m a).id == pobj.id
          then record pobj { size = (read_head d m a).size }
          else pobj),
  )

  wrobj_loop-suc :
      (fuel : ℕ) (m : Mem) (a fend k size : ℕ)
      → m a ≡ k
      → m (a + 1) ≡ size
      → wrobj_loop d (suc fuel) m a fend ≡ (
          if k + 256 * size == fobj_x_free
          then a
          else (if ltb (a + (span size + 2)) fend
              then wrobj_loop d fuel m (a + (span size + 2)) fend
              else 0))
  unfolding wrobj_loop
  wrobj_loop-suc fuel m a fend k size p q = rw (read_head_lem m a, p, q) refl

  pub wrobj_loop-FreeAt :
      (fuel : ℕ) (m : Mem) (a fend : ℕ) (log : List Obj)
      → fend ≤ a + fuel
      → a < fend
      → All IsEntry log
      → Stored m a log
      → log_end a log ≤ fend
      → Erased m (log_end a log) fend
      → FreeAt (wrobj_loop d fuel m a fend) (log_end a log) fend
  unfolding log_end
  wrobj_loop-FreeAt zero m a fend log f lt v s room free = absurd (omega arith)
  wrobj_loop-FreeAt (suc fuel) m a fend [] f lt v s room free =
      let first : m a ≡ 255 = free a (omega arith) lt in
      elim (dec_lt (a + 1) fend) [
        | yes p ↦
            rw (wrobj_loop-suc fuel m a fend 255 255 first (free (a + 1) (omega arith) p))
              (inl (refl, lt))
        | no p ↦ rw (wrobj_loop-suc fuel m a fend 255 (m (a + 1)) first refl) (ground arith)
      ]
  wrobj_loop-FreeAt (suc fuel) m a fend (e ∷ log) f lt v s room free =
      let next = a + (span e.size + 2) in
      let used : (e.id + 256 * e.size == fobj_x_free) ≡ false = ground (arith, v.0.not_free) in
      rw (wrobj_loop-suc fuel m a fend e.id e.size s.0 s.1, used)
        (elim (Bool-cases (ltb next fend)) [
          | inl more ↦ rw more (
              wrobj_loop-FreeAt fuel m next fend log (omega arith) (ltb→lt _ _ more) v.1 s.3 room
                free)
          | inr end ↦ rw end (inr (refl, ground (arith, le-log_end next log)))
        ])
