-- ===== src/Eep/Write.antt =====
-- _flash_write_obj of src/flash_eep.c into erased flash, and the space that it leaves alone.
use b80_key.Prelude.{ℕ, zero, suc, ◌+◌, ◌≤◌, ◌<◌, ◌≡◌, ◌⊎◌, ◌∙◌, ap, List, [], ◌∷◌}
use b80_key.Prelude.{arith, bit_and-erased}
use b80_key.Prelude.{get_or, length}
use native.Mathlib.Numerals.{add-one}
use b80_key.Flash.{Mem, Flash}
use b80_key.Eep.{max_fobj_size, Obj, span, write_obj}
use b80_key.Eep.Log.{IsEntry, IsByte, All, Stored, bytes_at-list}
use b80_key.Eep.Search.{Erased}

pub All-get_or : (bs : List ℕ) (i : ℕ) → All IsByte bs → i < length bs → get_or bs i 0 < 256
All-get_or [] i v h = absurd (omega arith)
All-get_or (b ∷ bs) zero v h = v.0
All-get_or (b ∷ bs) (suc i) v h = All-get_or bs i v.1 (omega arith)

module _ (d : Flash) where
  -- Writing bytes into erased cells stores them.
  pub write-Erased :
      (m : Mem) (a : ℕ) (bs : List ℕ)
      → All IsByte bs
      → Erased m a (a + length bs)
      → (i : ℕ) → i < length bs
      → d.write_page m a bs (a + i) ≡ get_or bs i 0
  write-Erased m a bs v free i h =
      d.write_inside m a bs i h
      ∙ rw (free (a + i) (omega arith) (omega arith)) (bit_and-erased _ (All-get_or bs i v h))

  pub write_obj-outside :
      (m : Mem) (a : ℕ) (o : Obj) (x : ℕ)
      → (x < a) ⊎ (a + (length o.bytes + 2) ≤ x)
      → write_obj d m a o x ≡ m x
  unfolding write_obj
  write_obj-outside m a o x out =
      d.write_outside _ a (o.id ∷ []) x (omega arith)
      ∙ d.write_outside m (a + 1) (o.size ∷ o.bytes) x (omega arith)

  -- After _flash_write_obj into erased cells the record stands there.
  pub write_obj-Stored :
      (m : Mem) (a : ℕ) (o : Obj)
      → IsEntry o
      → o.size ≤ max_fobj_size
      → Erased m a (a + (o.size + 2))
      → Stored (write_obj d m a o) a (o ∷ [])
  unfolding write_obj
  write_obj-Stored m a o v fits free = (
    ap (write_obj d m a o) (zero_off a) ∙ top 0 (omega arith),
    after 0 (omega arith) (a + 1) (omega arith),
    bytes_at-list _ (a + 2) (span o.size) o.bytes v.data_span
        (λ i h. after (i + 1) (omega arith) (a + 2 + i) (omega arith) ∙ shift i),
    tt,
  )
    where
      zero_off : (x : ℕ) → x ≡ x + 0
      zero_off x = omega arith

      spanned : length o.bytes ≡ o.size
      spanned = ground (arith, v.data_span)

      shift : (i : ℕ) → get_or (o.size ∷ o.bytes) (i + 1) 0 ≡ get_or o.bytes i 0
      shift i = ap (λ k. get_or (o.size ∷ o.bytes) k 0) (add-one i)

      body : Mem
      body = d.write_page m (a + 1) (o.size ∷ o.bytes)

      top : (i : ℕ) → i < 1 → write_obj d m a o (a + i) ≡ get_or (o.id ∷ []) i 0
      top i h =
          write-Erased body a (o.id ∷ []) (v.id_byte, tt)
            (λ x p q.
              d.write_outside m (a + 1) (o.size ∷ o.bytes) x (omega arith) ∙ free x p (omega arith))
            i h

      after :
          (i : ℕ)
          → i < suc (length o.bytes)
          → (x : ℕ) → x ≡ a + 1 + i
          → write_obj d m a o x ≡ get_or (o.size ∷ o.bytes) i 0
      after i h x e =
          d.write_outside body a (o.id ∷ []) x (omega arith)
          ∙ ap body e
          ∙ write-Erased m (a + 1) (o.size ∷ o.bytes) (v.size_byte, v.data_bytes)
              (λ y p q. free y (omega arith) (omega (arith, spanned))) i h
