-- ===== src/Eep/Repack.antt =====
-- pack_eep_fmem of src/flash_eep.c on a sector that holds a log: it writes the records that
-- `pack_log` names, one behind another.
use b80_key.Prelude.{ℕ, ◌+◌, ◌≤◌, ◌<◌, ◌≡◌, ◌⊎◌, ◌∙◌, refl, inl, inr}
use b80_key.Prelude.{
  List, [], ◌∷◌, ◌++◌, Option, none, some, ◌&&◌, ◌||◌, arith, ltb, leb, ◌==◌, Bool-cases, length,
}
use mathlib.Core.Path.{subst}
use b80_key.Flash.{Mem, Flash}
use b80_key.Eep.{Obj, max_fobj_size, span, write_obj}
use b80_key.Eep.Log.{
  latest, IsEntry, IsByte, All, All-append, Stored, Stored-append, Stored-ext, log_end, le-log_end,
}
use b80_key.Eep.Search.{Erased}
use b80_key.Eep.Write.{write_obj-outside, write_obj-Stored}
use b80_key.Eep.Pack.{Flags, check_flag_eep_id, flag_value}
use b80_key.Eep.Compact.{emit_latest, pack_entry, pack_log, latest-length}

-- A record that packing writes.
pub record IsCopy (o : Obj) : Type 0 where
  pub entry : IsEntry o
  pub small : o.size ≤ max_fobj_size

-- Packing steps over a record whose id was not written by its size, even where the searches step
-- by the limit: such a record is no part of what is proved.
abbrev pub IsPackable : Obj → Type 0
IsPackable e = e.id ≡ 255 → e.size ≤ max_fobj_size

latest-IsByte :
    (id : ℕ) (log : List Obj) (o : Option (List ℕ)) (bs : List ℕ)
    → All IsEntry log
    → ((xs : List ℕ) → o ≡ some xs → All IsByte xs)
    → latest id log o ≡ some bs
    → All IsByte bs
unfolding latest
latest-IsByte id [] o bs ok start e = start bs e
latest-IsByte id (x ∷ log) o bs ok start e =
    elim (Bool-cases (leb x.size max_fobj_size && x.id == id)) [
      | inl same ↦
          latest-IsByte id log (some x.bytes) bs ok.1
            (λ xs p. let q : x.bytes ≡ xs = cc in subst (All IsByte) q ok.0.data_bytes)
            ((rw same at e))
      | inr other ↦ latest-IsByte id log o bs ok.1 start (rw other at e)
    ]

emit_latest-IsCopy :
    (b : Flags) (id : ℕ) (x : Option (List ℕ))
    → id < 255
    → ((bs : List ℕ) → x ≡ some bs → length bs ≤ max_fobj_size)
    → ((bs : List ℕ) → x ≡ some bs → All IsByte bs)
    → All IsCopy (emit_latest b id x).1
unfolding emit_latest
emit_latest-IsCopy b id none small short bytes = tt
emit_latest-IsCopy b id (some []) small short bytes = tt
emit_latest-IsCopy b id (some (y ∷ ys)) small short bytes =
    let fits : length (y ∷ ys) ≤ max_fobj_size = short (y ∷ ys) refl in
    (
      record {
        entry = record {
          id_byte = omega arith;
          size_byte = omega arith;
          not_free = omega arith;
          data_span = ground arith;
          data_bytes = bytes (y ∷ ys) refl;
        };
        small = fits;
      },
      tt,
    )

pub pack_entry-IsCopy :
    (b : Flags) (e : Obj) (rest : List Obj)
    → All IsEntry (e ∷ rest)
    → All IsCopy (pack_entry b e rest).1
unfolding pack_entry
pack_entry-IsCopy b e rest ok = elim (Bool-cases (e.size == 0 || e.id == 0xff)) [
  | inl empty ↦ rw empty tt
  | inr full ↦ rw full (elim (Bool-cases (ltb max_fobj_size e.size)) [
    | inl torn ↦ rw torn tt
    | inr whole ↦ rw whole (elim (Bool-cases (flag_value (check_flag_eep_id b e.id) e.id == 0)) [
      | inl new ↦ rw new (
          emit_latest-IsCopy _ e.id (latest e.id (e ∷ rest) none) (ground (arith, ok.0.id_byte))
            (λ bs h. latest-length e.id (e ∷ rest) none bs ok (λ xs p. cc) h)
            (λ bs h. latest-IsByte e.id (e ∷ rest) none bs ok (λ xs p. cc) h))
      | inr seen ↦ rw seen tt
    ])
  ])
]

pub pack_log-IsCopy : (b : Flags) (log : List Obj) → All IsEntry log → All IsCopy (pack_log b log)
unfolding pack_log
pack_log-IsCopy b [] ok = tt
pack_log-IsCopy b (e ∷ rest) ok =
    All-append IsCopy (pack_entry b e rest).1 _ (pack_entry-IsCopy b e rest ok)
      (pack_log-IsCopy (pack_entry b e rest).0 rest ok.1)

span-IsCopy : (o : Obj) → IsCopy o → span o.size ≡ o.size
span-IsCopy o v = ground (arith, v.small)

length-IsCopy : (o : Obj) → IsCopy o → length o.bytes ≡ o.size
length-IsCopy o v = v.entry.data_span ∙ span-IsCopy o v

module _ (d : Flash) where
  -- The records written one behind another from `w` on.
  unfoldable pub emit : Mem → ℕ → List Obj → Mem
  emit m w [] = m
  emit m w (o ∷ os) = emit (write_obj d m w o) (w + (o.size + 2)) os

  pub emit-append :
      (m : Mem) (w : ℕ) (os more : List Obj)
      → All IsCopy os
      → emit m w (os ++ more) ≡ emit (emit m w os) (log_end w os) more
  unfolding emit log_end
  emit-append m w [] more v = refl
  emit-append m w (o ∷ os) more v =
      rw (span-IsCopy o v.0) (emit-append (write_obj d m w o) (w + (o.size + 2)) os more v.1)

  pub emit-outside :
      (m : Mem) (w : ℕ) (os : List Obj) (x : ℕ)
      → All IsCopy os
      → (x < w) ⊎ (log_end w os ≤ x)
      → emit m w os x ≡ m x
  unfolding emit log_end
  emit-outside m w [] x v out = refl
  emit-outside m w (o ∷ os) x v out =
      let next = w + (o.size + 2) in
      let same : span o.size ≡ o.size = span-IsCopy o v.0 in
      let len : length o.bytes ≡ o.size = length-IsCopy o v.0 in
      let far : next ≤ log_end next os = le-log_end next os in
      let out' : (x < w) ⊎ (log_end next os ≤ x) = rw same at out in
      emit-outside (write_obj d m w o) next os x v.1
        (elim out' [ inl p ↦ inl (omega arith) | inr p ↦ inr p ])
      ∙ write_obj-outside d m w o x (elim out' [ inl p ↦ inl p | inr p ↦ inr (omega arith) ])

  pub emit-Stored :
      (m : Mem) (w : ℕ) (os : List Obj)
      → All IsCopy os
      → Erased m w (log_end w os)
      → Stored (emit m w os) w os
  unfolding emit log_end
  emit-Stored m w [] v free = tt
  emit-Stored m w (o ∷ os) v free =
      let next = w + (o.size + 2) in
      let same : span o.size ≡ o.size = span-IsCopy o v.0 in
      let len : length o.bytes ≡ o.size = length-IsCopy o v.0 in
      let far : next ≤ log_end next os = le-log_end next os in
      let free' : Erased m w (log_end next os) = rw same at free in
      let first = write_obj-Stored d m w o v.0.entry v.0.small (λ x p q. free' x p (omega arith)) in
      Stored-append _ w (o ∷ []) os
        (Stored-ext (write_obj d m w o) _ w (o ∷ [])
          (λ x p q. emit-outside (write_obj d m w o) next os x v.1 (inl (rw same at q))) first)
        (rw same (
          emit-Stored (write_obj d m w o) next os v.1
            (λ x p q. write_obj-outside d m w o x (inr (omega arith)) ∙ free' x (omega arith) q)))
