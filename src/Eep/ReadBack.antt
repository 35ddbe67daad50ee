-- ===== src/Eep/ReadBack.antt =====
-- Reading back what flash_write_cfg of src/flash_eep.c has written.
use b80_key.Prelude.{ℕ, suc, ◌+◌, ◌≤◌, ◌<◌, ◌≡◌, ◌∙◌, refl, ap, inl, inr}
use b80_key.Prelude.{
  List, [], ◌∷◌, Option, none, some, true, arith, ◌==◌, if◌then◌else◌, length, take, length-take,
}
use b80_key.Flash.{Mem, Flash, sector_size}
use b80_key.Eep.{Obj, max_fobj_size}
use b80_key.Eep.Log.{IsByte, All}
use b80_key.Eep.Compact.{visible}
use b80_key.Eep.Config.{size, flash_write_cfg, flash_read_cfg}
use b80_key.Eep.Holds.{Holds}
use b80_key.Eep.Repack.{IsPackable}
use b80_key.Eep.Switch.{packed_end}
use b80_key.Eep.Store.{value, IsUpdate, flash_read_cfg_lem, flash_write_cfg_lem}

pub value_of_visible :
    (o : Option (List ℕ)) (b : ℕ) (bs : List ℕ) → visible o ≡ some (b ∷ bs) → o ≡ some (b ∷ bs)
value_of_visible none b bs h = h
value_of_visible (some []) b bs h = cc
value_of_visible (some (x ∷ xs)) b bs h = h

value-IsUpdate :
    (log log' : List Obj) (id : ℕ) (bs : List ℕ)
    → IsUpdate log log' id bs
    → id < 255
    → visible (value id log') ≡ visible (some bs)
value-IsUpdate log log' id bs up small =
    let own : (id == id) ≡ true = ground arith in
    up id small ∙ ap (λ t. if t then visible (some bs) else visible (value id log)) own

module _ (d : Flash) (m : Mem) (s : ℕ) (log : List Obj) (h : Holds m s log) where
  -- On a sector that holds a log of records that can be packed, with room behind the packed log, an id
  -- below 255 and 1 to 32 bytes behind the pointer: the write replies their number, and a read of the
  -- object with maxsize at most 32 then gives their number and these bytes, cut to maxsize, and changes
  -- nothing.
  pub read-write :
      (id n maxsize b : ℕ) (bs : List ℕ)
      → All IsPackable log
      → id < 255
      → suc n ≤ max_fobj_size
      → n ≤ length bs
      → All IsByte (b ∷ bs)
      → maxsize ≤ max_fobj_size
      → packed_end log + (suc n + 2) < sector_size
      → let w = flash_write_cfg d m (b ∷ bs) id (suc n) in
        (w.0 ≡ size (suc n))
        × (flash_read_cfg d w.1 id maxsize ≡ (size (suc n), take maxsize (b ∷ take n bs), w.1))
  read-write id n maxsize b bs pk small fits long bytes fits' room =
      let ptr = b ∷ bs in
      let w =
        flash_write_cfg_lem d m s log h ptr id (suc n) pk (omega arith) small fits (omega arith)
          bytes in
      let taken : length (take n bs) ≡ n = length-take n bs ∙ omega arith in
      elim w.reply [
        | inl (e, up) ↦
            let there : value id w.log' ≡ some (b ∷ take n bs) =
              value_of_visible _ b (take n bs)
                (value-IsUpdate log w.log' id (b ∷ take n bs) up small) in
            (
              rw e (ap (λ k. size (suc k)) taken),
              rw (flash_read_cfg_lem d _ w.at w.log' w.holds id maxsize small fits', there, taken)
                  refl,
            )
        | inr (e, full, same) ↦ ground (arith, full, taken)
      ]
