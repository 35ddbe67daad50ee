-- ===== src/Eep/PackLoop.antt =====
-- The loop of pack_eep_fmem of src/flash_eep.c, round by round.
use b80_key.Prelude.{ℕ, zero, suc, ◌+◌, ◌*◌, ◌≤◌, ◌<◌, ◌≡◌, ◌⊎◌, ◌∙◌, refl, inl, inr, sym}
use b80_key.Prelude.{
  List, [], ◌∷◌, ◌++◌, Option, none, true, false, ◌||◌, arith, ltb, leb, ◌==◌, lt→ltb, Bool-cases,
  length,
}
use native.Mathlib.Decide.{dec_lt}
use b80_key.Flash.{Mem, Flash, sector_size}
use b80_key.Eep.{Obj, max_fobj_size, span, fobj_x_free, get_addr_idobj, sector_end}
use b80_key.Eep.Log.{latest, IsEntry, All, Stored, Stored-ext, log_end, le-log_end, log_end-append}
use b80_key.Eep.Search.{Erased, Hit, missing, hit, read_head_lem, idobj_loop-Hit, id-idobj_loop}
use b80_key.Eep.Pack.{
  Flags, check_flag_eep_id, flag_value, Packing, go, copy_latest, pack_step, pack_loop,
}
use b80_key.Eep.Compact.{emit_latest, pack_entry, pack_log}
use b80_key.Eep.Holds.{IsSector}
use b80_key.Eep.Repack.{IsPackable, emit, emit-append, emit-outside, pack_entry-IsCopy}

abbrev pub packing : Mem → ℕ → Flags → Packing
packing m w b = record { mem = m; wraddr = w; buf_id = b }

pack_log-cons :
    (b : Flags) (e : Obj) (rest : List Obj)
    → pack_log b (e ∷ rest) ≡ (pack_entry b e rest).1 ++ pack_log (pack_entry b e rest).0 rest
unfolding pack_log
pack_log-cons b e rest = refl

module _ (d : Flash) (fnewseg : ℕ) where
  -- What one round makes of the records that it writes.
  abbrev wrote : Mem → ℕ → Flags × List Obj → Packing
  wrote m w r = packing (emit d m w r.1) (log_end w r.1) r.0

  copy_latest_lem :
      (m : Mem) (w : ℕ) (b : Flags) (rd size : ℕ) (id : ℕ) (value : Option (List ℕ))
      → Hit m value (get_addr_idobj d m rd (record { id = id; size = 0 }))
      → log_end w (emit_latest b id value).1 < fnewseg + sector_size
      → copy_latest d fnewseg (packing m w b) rd (record { id = id; size = size })
        ≡ go (wrote m w (emit_latest b id value)) (rd + (size + 2))
  unfolding copy_latest emit_latest emit log_end
  copy_latest_lem m w b rd size id value (missing none_there at_zero) room =
      rw (none_there, at_zero) refl
  copy_latest_lem m w b rd size id value (hit [] there len fits pos bytes) room =
      let found : ((get_addr_idobj d m rd (record { id = id; size = 0 })).0 == 0) ≡ false =
        ground arith in
      rw (there, found, len) refl
  copy_latest_lem m w b rd size id value (hit (y ∷ ys) there len fits pos bytes) room =
      let found : ((get_addr_idobj d m rd (record { id = id; size = 0 })).0 == 0) ≡ false =
        ground arith in
      let keeps : (get_addr_idobj d m rd (record { id = id; size = 0 })).1.id ≡ id =
        unfold get_addr_idobj in
        id-idobj_loop d sector_size m rd (sector_end rd) 0 (record { id = id; size = 0 }) in
      let short : ltb max_fobj_size (length (y ∷ ys)) ≡ false = ground arith in
      let n = length (y ∷ ys) in
      let same : span n ≡ n = ground arith in
      let empty : (n == 0) ≡ false = ground arith in
      let room' : w + (span n + 2) < fnewseg + sector_size = rw there at room in
      let stays : leb (fnewseg + sector_size) (w + (n + 2)) ≡ false = ground arith in
      rw (there, found, len, keeps, d.read_lem, bytes, short, empty, stays, same)

  -- The search for the last version starts at the record itself.
  search_here :
      (m : Mem) (s rd : ℕ) (e : Obj) (rest : List Obj)
      → IsSector s
      → s + 2 ≤ rd
      → rd < s + sector_size
      → e.id < 255
      → All IsEntry (e ∷ rest)
      → Stored m rd (e ∷ rest)
      → log_end rd (e ∷ rest) ≤ s + sector_size
      → Erased m (log_end rd (e ∷ rest)) (s + sector_size)
      → Hit m (latest e.id (e ∷ rest) none) (get_addr_idobj d m rd (record { id = e.id; size = 0 }))
  unfolding get_addr_idobj
  search_here m s rd e rest sec low high small ok st end free =
      let at_end : sector_end rd ≡ s + sector_size = omega arith in
      rw at_end (
        idobj_loop-Hit d sector_size m rd (s + sector_size) 0 _ (e ∷ rest) none (omega arith) high
          (omega arith) small ok st end free (missing refl refl))

  -- One round at a record.
  pack_step_lem :
      (m : Mem) (w : ℕ) (b : Flags) (s rd : ℕ) (e : Obj) (rest : List Obj)
      → IsSector s
      → s + 2 ≤ rd
      → rd < s + sector_size
      → All IsEntry (e ∷ rest)
      → IsPackable e
      → Stored m rd (e ∷ rest)
      → log_end rd (e ∷ rest) ≤ s + sector_size
      → Erased m (log_end rd (e ∷ rest)) (s + sector_size)
      → log_end w (pack_entry b e rest).1 < fnewseg + sector_size
      → pack_step d fnewseg (packing m w b) rd
        ≡ go (wrote m w (pack_entry b e rest)) (rd + (span e.size + 2))
  unfolding pack_step pack_entry
  pack_step_lem m w b s rd e rest sec low high ok pk st end free room =
      let used : (e.id + 256 * e.size == fobj_x_free) ≡ false = ground (arith, ok.0.not_free) in
      rw (read_head_lem d m rd, st.0, st.1, used)
        (elim (Bool-cases (e.size == 0 || e.id == 0xff)) [
          | inl empty ↦
              let same : span e.size ≡ e.size = ground (arith, pk) in
              rw (empty, same) (unfold emit log_end in refl)
          | inr full ↦ rw full (elim (Bool-cases (ltb max_fobj_size e.size)) [
            | inl torn ↦
                let same : span e.size ≡ max_fobj_size = ground arith in
                rw (torn, same) (unfold emit log_end in refl)
            | inr whole ↦
                let same : span e.size ≡ e.size = ground arith in
                let room' = rw (full, whole) at room in
                rw (whole, same)
                  (elim (Bool-cases (flag_value (check_flag_eep_id b e.id) e.id == 0)) [
                    | inl new ↦ rw new (
                        copy_latest_lem m w (check_flag_eep_id b e.id) rd e.size e.id
                          (latest e.id (e ∷ rest) none)
                          (search_here m s rd e rest sec low high (ground (arith, ok.0.id_byte)) ok
                            st end free)
                          (rw new at room'))
                    | inr seen ↦ rw seen (unfold emit log_end in refl)
                  ])
          ])
        ])

  pack_loop-end :
      (fuel : ℕ) (p : Packing) (rd end : ℕ) → end ≤ rd → pack_loop d fnewseg fuel p rd end ≡ p
  unfolding pack_loop
  pack_loop-end zero p rd end h = refl
  pack_loop-end (suc fuel) p rd end h = ground arith

  pack_loop-go :
      (fuel : ℕ) (p p' : Packing) (rd rd' end : ℕ)
      → ltb rd end ≡ true
      → pack_step d fnewseg p rd ≡ go p' rd'
      → pack_loop d fnewseg (suc fuel) p rd end ≡ pack_loop d fnewseg fuel p' rd' end
  unfolding pack_loop
  pack_loop-go fuel p p' rd rd' end inside step = rw (inside, step)

  -- At the erased end the loop stops.
  pack_loop-Erased :
      (fuel : ℕ) (m : Mem) (w : ℕ) (b : Flags) (rd end : ℕ)
      → Erased m rd end
      → pack_loop d fnewseg (suc fuel) (packing m w b) rd end ≡ packing m w b
  unfolding pack_loop pack_step
  pack_loop-Erased fuel m w b rd end free = elim (dec_lt rd end) [
    | no over ↦ ground arith
    | yes h ↦
        let first : m rd ≡ 255 = free rd (omega arith) h in
        rw (lt→ltb rd end h, read_head_lem d m rd, first)
          (elim (dec_lt (rd + 1) end) [
            | yes more ↦ rw (free (rd + 1) (omega arith) more) refl
            | no last ↦ elim (Bool-cases (255 + 256 * m (rd + 1) == fobj_x_free)) [
              | inl is_free ↦ rw is_free refl
              | inr used ↦
                  let skipped : (m (rd + 1) == 0 || true) ≡ true = ground arith in
                  rw (used, skipped) (pack_loop-end fuel _ _ end (omega arith))
            ]
          ])
  ]

  -- The loop writes the records of `pack_log`, and nothing else changes.
  pub pack_loop_lem :
      (fuel : ℕ) (m : Mem) (w : ℕ) (b : Flags) (s rd : ℕ) (log : List Obj)
      → IsSector s
      → s + 2 ≤ rd
      → s + sector_size < rd + fuel
      → (s + sector_size ≤ w) ⊎ (fnewseg + sector_size ≤ s)
      → All IsEntry log
      → All IsPackable log
      → Stored m rd log
      → log_end rd log ≤ s + sector_size
      → Erased m (log_end rd log) (s + sector_size)
      → log_end w (pack_log b log) < fnewseg + sector_size
      → let p = pack_loop d fnewseg fuel (packing m w b) rd (s + sector_size) in
        (p.mem ≡ emit d m w (pack_log b log)) × (p.wraddr ≡ log_end w (pack_log b log))
  pack_loop_lem zero m w b s rd log sec low f apart ok pk st end free room =
      absurd (omega (arith, le-log_end rd log))
  pack_loop_lem (suc fuel) m w b s rd [] sec low f apart ok pk st end free room =
      let done = pack_loop-Erased fuel m w b rd (s + sector_size) (unfold log_end in free) in
      rw done (unfold pack_log emit log_end in (refl, refl))
  pack_loop_lem (suc fuel) m w b s rd (e ∷ rest) sec low f apart ok pk st end free room =
      let next = rd + (span e.size + 2) in
      let b' = (pack_entry b e rest).0 in
      let out = (pack_entry b e rest).1 in
      let copies = pack_entry-IsCopy b e rest ok in
      let fits : log_end (log_end w out) (pack_log b' rest) < fnewseg + sector_size =
        unfold pack_log in rw log_end-append at room in
      let far : log_end w out ≤ log_end (log_end w out) (pack_log b' rest) = le-log_end _ _ in
      let near : w ≤ log_end w out = le-log_end w out in
      let end' : log_end next rest ≤ s + sector_size = unfold log_end in end in
      let freed : Erased m (log_end next rest) (s + sector_size) = unfold log_end in free in
      let more : next ≤ log_end next rest = le-log_end next rest in
      let keeps : (x : ℕ) → next ≤ x → x < s + sector_size → emit d m w out x ≡ m x = λ x p q.
        emit-outside d m w out x copies
          (elim apart [ inl h ↦ inl (omega arith) | inr h ↦ inr (omega arith) ]) in
      let ih =
        pack_loop_lem fuel (emit d m w out) (log_end w out) b' s next rest sec (omega arith)
          (omega arith) (elim apart [ inl h ↦ inl (omega arith) | inr h ↦ inr h ]) ok.1 pk.1
          (Stored-ext m _ next rest (λ x p q. keeps x p (omega arith)) st.3) end'
          (λ x p q. keeps x (omega arith) q ∙ freed x p q) fits in
      let step =
        pack_step_lem m w b s rd e rest sec low (omega arith) ok pk.0 st end free (omega arith) in
      let inside : ltb rd (s + sector_size) ≡ true = lt→ltb _ _ (omega arith) in
      rw (pack_loop-go fuel _ _ rd next (s + sector_size) inside step, pack_log-cons b e rest)
        (
          ih.0 ∙ sym (emit-append d m w out (pack_log b' rest) copies),
          ih.1 ∙ sym (log_end-append w out (pack_log b' rest)),
        )
