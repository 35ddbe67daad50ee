-- ===== src/Eep/PowerCut.antt =====
-- _flash_write_obj of src/flash_eep.c when the power fails while it writes.
use b80_key.Prelude.{
  ℕ, zero, suc, ◌+◌, ◌-◌, ◌≤◌, ◌<◌, ◌≡◌, ◌⊎◌, ◌∙◌, refl, ap, inl, inr, sym, arith, List, [], ◌∷◌,
  ◌++◌, Bool-cases, false, ltb, ◌==◌, leb, if◌then◌else◌, length, take, get_or, replicate,
  get_or-append, get_or-append_behind, get_or-replicate, length-take, length-append,
  length-replicate, none,
}
use native.Mathlib.Numerals.{add-one}
use b80_key.Flash.{Mem, Flash, sector_size}
use b80_key.Eep.{first_call, Obj, max_fobj_size, span, write_obj}
use b80_key.Eep.Log.{
  latest, latest-append, IsEntry, IsByte, All, All-append, Stored, Stored-ext, log_end, le-log_end,
  bytes_at-list,
}
use b80_key.Eep.Search.{Erased}
use b80_key.Eep.Write.{write-Erased, write_obj-outside}
use b80_key.Eep.Holds.{other_sector, HasLog, Holds, HasLog-extend, write_obj-HasLog}
use b80_key.Eep.Store.{value, All-take}

All-replicate : (n : ℕ) → All IsByte (replicate n 255)
All-replicate zero = tt
All-replicate (suc n) = (omega arith, All-replicate n)

-- What an erased cell holds
abbrev erased : ℕ
erased = 255

-- The first `k` bytes of the first call have been written, or, beyond its end, all of it and the id.
abbrev pub interrupted : Flash → Mem → ℕ → Obj → ℕ → Mem
interrupted d m faddr o k =
    if leb k (length (first_call o))
    then d.write_page m (faddr + 1) (take k (first_call o))
    else write_obj d m faddr o

-- What then lies behind the log: a record without id, whose last data are still erased.
abbrev torn : Obj → ℕ → Obj
torn o j = record {
  id = 255;
  size = o.size;
  bytes = take j o.bytes ++ replicate (o.size - j) erased;
}

torn-IsEntry :
    (o : Obj) (j : ℕ) → IsEntry o → o.size ≤ max_fobj_size → j ≤ o.size → IsEntry (torn o j)
torn-IsEntry o j ok fits inside =
    let spanned : length o.bytes ≡ o.size = ground (arith, ok.data_span) in
    let span_size : span o.size ≡ o.size = ground arith in
    record {
      id_byte = omega arith;
      size_byte = ok.size_byte;
      not_free = omega (arith, fits);
      data_span =
          length-append (take j o.bytes) (replicate (o.size - j) erased)
          ∙ omega (
            arith,
            length-take j o.bytes,
            length-replicate (o.size - j) erased,
            spanned,
            span_size,
          );
      data_bytes =
          All-append IsByte (take j o.bytes) (replicate (o.size - j) erased)
            (All-take j o.bytes ok.data_bytes) (All-replicate (o.size - j));
    }

module _ (d : Flash) (m : Mem) (a : ℕ) (o : Obj) (ok : IsEntry o) (fits : o.size ≤ max_fobj_size)
    (free : Erased m a (a + (o.size + 2))) (j : ℕ) (inside : j ≤ o.size) where
  spanned : length o.bytes ≡ o.size
  spanned = ground (arith, fits, ok.data_span)

  length-written : length (o.size ∷ take j o.bytes) ≡ suc j
  length-written = omega (arith, length-take j o.bytes, spanned, inside)

  torn-inside :
      (i x : ℕ)
      → i < suc j
      → x ≡ a + 1 + i
      → d.write_page m (a + 1) (o.size ∷ take j o.bytes) x ≡ get_or (o.size ∷ take j o.bytes) i 0
  torn-inside i x p e =
      ap (d.write_page m (a + 1) (o.size ∷ take j o.bytes)) e
      ∙ write-Erased d m (a + 1) (o.size ∷ take j o.bytes)
          (ok.size_byte, All-take j o.bytes ok.data_bytes)
          (λ y q r. free y (omega arith) (omega (arith, length-written, r, inside))) i
          (omega (arith, length-written, p))

  torn-outside :
      (x : ℕ)
      → (x < a + 1) ⊎ (a + 2 + j ≤ x)
      → d.write_page m (a + 1) (o.size ∷ take j o.bytes) x ≡ m x
  torn-outside x out =
      d.write_outside m (a + 1) (o.size ∷ take j o.bytes) x (omega (arith, length-written, out))

  torn-byte :
      (i : ℕ)
      → i < o.size
      → d.write_page m (a + 1) (o.size ∷ take j o.bytes) (a + 2 + i) ≡ get_or (torn o j).bytes i 0
  torn-byte i p = elim (Bool-cases (ltb i j)) [
    | inl e ↦
        let short : i < length (take j o.bytes) =
          ground (arith, e, length-take j o.bytes, spanned, inside) in
        torn-inside (i + 1) (a + 2 + i) (ground (arith, e)) (omega arith)
        ∙ ap (λ k. get_or (o.size ∷ take j o.bytes) k 0) (add-one i)
        ∙ sym (get_or-append (take j o.bytes) (replicate (o.size - j) erased) i 0 short)
    | inr e ↦
        let at : length (take j o.bytes) + (i - j) ≡ i =
          ground (arith, e, length-take j o.bytes, spanned, inside) in
        torn-outside (a + 2 + i) (ground (arith, e))
        ∙ free (a + 2 + i) (omega arith) (omega arith)
        ∙ sym (
            ap (λ k. get_or (torn o j).bytes k 0) (sym at)
            ∙ get_or-append_behind (take j o.bytes) (replicate (o.size - j) erased) (i - j) 0
            ∙ get_or-replicate (o.size - j) erased (i - j) 0 (ground (arith, e, p)))
  ]

  torn-Stored : Stored (d.write_page m (a + 1) (o.size ∷ take j o.bytes)) a (torn o j ∷ [])
  torn-Stored =
      let span_size : span o.size ≡ o.size = ground (arith, fits) in
      (
        torn-outside a (omega arith) ∙ free a (omega arith) (omega arith),
        torn-inside 0 (a + 1) (omega arith) (omega arith),
        bytes_at-list _ (a + 2) (span o.size) (torn o j).bytes
            (torn-IsEntry o j ok fits inside).data_span
            (λ i p. torn-byte i (omega (arith, span_size))),
        tt,
      )

Holds-change :
    (m m' : Mem) (s : ℕ) (log log' : List Obj)
    → Holds m s log
    → HasLog m' s log'
    → ((x : ℕ) → (x < s + 2) ⊎ (s + sector_size ≤ x) → m' x ≡ m x)
    → Holds m' s log'
Holds-change m m' s log log' h has same =
    let other_id : m' (other_sector s) ≡ m (other_sector s) =
      same (other_sector s) (ground (arith, h.sector)) in
    let other_size : m' (other_sector s + 1) ≡ m (other_sector s + 1) =
      same (other_sector s + 1) (ground (arith, h.sector)) in
    record {
      sector = h.sector;
      mark_id = same s (inl (omega arith)) ∙ h.mark_id;
      mark_size = same (s + 1) (inl (omega arith)) ∙ h.mark_size;
      other = rw (other_id, other_size) h.other;
      has_log = has;
    }

HasLog-same :
    (m m' : Mem) (s : ℕ) (log : List Obj)
    → HasLog m s log
    → ((x : ℕ) → m' x ≡ m x)
    → HasLog m' s log
HasLog-same m m' s log h same = record {
  entries = h.entries;
  stored = Stored-ext m m' (s + 2) log (λ x p q. same x) h.stored;
  room = h.room;
  erased = λ x p q. same x ∙ h.erased x p q;
}

value-torn :
    (o : Obj) (j : ℕ) (log : List Obj) (id : ℕ)
    → id < 255
    → value id (log ++ torn o j ∷ []) ≡ value id log
unfolding latest
value-torn o j log id small =
    let other : 255 == id ≡ false = ground (arith, small) in
    latest-append id log (torn o j ∷ []) none ∙ elim (Bool-cases (leb o.size max_fobj_size)) [
      | inl e ↦ rw (e, other) refl
      | inr e ↦ rw e refl
    ]

module _ (d : Flash) (m : Mem) (s : ℕ) (log : List Obj) (h : Holds m s log) (o : Obj)
    (ok : IsEntry o) (fits : o.size ≤ max_fobj_size)
    (room : log_end (s + 2) log + (o.size + 2) ≤ s + sector_size) where
  free_behind : Erased m (log_end (s + 2) log) (log_end (s + 2) log + (o.size + 2))
  free_behind x p q = h.has_log.erased x p (omega arith)

  cut :
      (k : ℕ)
      → k ≤ o.size + 1
      → let m' = d.write_page m (log_end (s + 2) log + 1) (take k (o.size ∷ o.bytes)) in
        (log' : List Obj) × Holds m' s log'
        × (((id : ℕ) → id < 255 → value id log' ≡ value id log)
            ⊎ ((id : ℕ) → id < 255 → value id log' ≡ value id (log ++ o ∷ [])))
  cut zero p =
      let a = log_end (s + 2) log in
      let same : (x : ℕ) → d.write_page m (a + 1) [] x ≡ m x =
        λ x. d.write_outside m (a + 1) [] x (omega arith) in
      (
        log,
        Holds-change m _ s log log h (HasLog-same m _ s log h.has_log same) (λ x out. same x),
        inl (λ id small. refl),
      )
  cut (suc j) p =
      let a = log_end (s + 2) log in
      let start : s + 2 ≤ a = le-log_end (s + 2) log in
      let within : j ≤ o.size = omega arith in
      let same : (x : ℕ)
          → (x < a + 1) ⊎ (a + 2 + j ≤ x)
          → d.write_page m (a + 1) (o.size ∷ take j o.bytes) x ≡ m x =
        torn-outside d m a o ok fits free_behind j within in
      (
        log ++ torn o j ∷ [],
        Holds-change m _ s log (log ++ torn o j ∷ []) h
            (HasLog-extend d m _ s log (torn o j) h.has_log (torn-IsEntry o j ok fits within) fits
              room (torn-Stored d m a o ok fits free_behind j within)
              (λ x out. same x (omega (arith, out, within))))
            (λ x out. same x (omega (arith, out, within, start, room))),
        inl (value-torn o j log),
      )

  -- Where the power fails while a record that fits is written behind the log, after any number of its
  -- bytes: the sector still holds a log, with the values from before the write or with those from
  -- after it, for all objects.
  pub write_obj-interrupted :
      (k : ℕ)
      → let m' = interrupted d m (log_end (s + 2) log) o k in
        (log' : List Obj) × Holds m' s log'
        × (((id : ℕ) → id < 255 → value id log' ≡ value id log)
            ⊎ ((id : ℕ) → id < 255 → value id log' ≡ value id (log ++ o ∷ [])))
  write_obj-interrupted k =
      let a = log_end (s + 2) log in
      let start : s + 2 ≤ a = le-log_end (s + 2) log in
      let spanned : length o.bytes ≡ o.size = ground (arith, fits, ok.data_span) in
      elim (Bool-cases (leb k (length (first_call o)))) [
        | inl e ↦ rw e (cut k (ground (arith, e, spanned)))
        | inr e ↦ rw e (
          log ++ o ∷ [],
          Holds-change m (write_obj d m a o) s log (log ++ o ∷ []) h
              (write_obj-HasLog d m s log o h.has_log ok fits room)
              (λ x out. write_obj-outside d m a o x (omega (arith, spanned, start, room, out))),
          inr (λ id small. refl),
        )
      ]
