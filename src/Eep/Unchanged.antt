-- ===== src/Eep/Unchanged.antt =====
-- flash_write_cfg of src/flash_eep.c with the bytes that the store has already.
use b80_key.Prelude.{
  ℕ, ◌+◌, ◌%◌, ◌≤◌, ◌<◌, ◌≡◌, ◌∙◌, refl, sym, ap, arith, List, [], ◌∷◌, Option, none, some, true,
  false,
}
use b80_key.Prelude.{ltb, length, take, length-take}
use mathlib.Core.Path.{subst}
use b80_key.Flash.{Mem, Flash, bytes_at}
use b80_key.Eep.{Obj, max_fobj_size, get_addr_idobj}
use b80_key.Eep.Search.{Hit, missing, hit}
use b80_key.Eep.Config.{size, same_bytes, is_stored, flash_write_cfg}
use b80_key.Eep.Holds.{Holds, get_addr_bscfg-Holds, get_addr_idobj-Hit}
use b80_key.Eep.Store.{value}

same_bytes_refl : (bs : List ℕ) → same_bytes bs bs ≡ true
same_bytes_refl [] = refl
same_bytes_refl (b ∷ bs) = ground (arith, same_bytes_refl bs)

or_nil : Option (List ℕ) → List ℕ
or_nil none = []
or_nil (some bs) = bs

module _ (d : Flash) (m : Mem) (s : ℕ) (log : List Obj) (h : Holds m s log) where
  Hit-is_stored :
      (id : ℕ) (bs : List ℕ)
      → value id log ≡ some bs
      → Hit m (value id log) (get_addr_idobj d m (s + 2) (record { id = id; size = 0 }))
      → is_stored d m s (record { id = id; size = length bs; bytes = bs }) ≡ true
  unfolding is_stored or_nil
  Hit-is_stored id bs there (missing none_there at_zero) = cc
  Hit-is_stored id bs there (hit found found_there len short pos data_there) =
      let r = get_addr_idobj d m (s + 2) (record { id = id; size = 0 }) in
      let same : found ≡ bs = ap or_nil (sym found_there ∙ there) in
      let found_size : r.1.size ≡ length bs = len ∙ ap length same in
      let data_same : bytes_at m (r.0 + 2) (length bs) ≡ bs =
        subst (λ l. bytes_at m (r.0 + 2) (length l) ≡ l) same data_there in
      rw (d.read_lem, found_size, data_same, same_bytes_refl bs) (ground (arith, pos))

  -- Writing the bytes that are stored replies their number, and writes nothing.
  pub flash_write_cfg-unchanged :
      (ptr : List ℕ) (id n : ℕ)
      → id < 255
      → n ≤ max_fobj_size
      → n ≤ length ptr
      → value id log ≡ some (take n ptr)
      → flash_write_cfg d m ptr id n ≡ (size n, m)
  unfolding flash_write_cfg
  flash_write_cfg-unchanged ptr id n small fits long there =
      let ok : ltb max_fobj_size n ≡ false = ground arith in
      let byte : id % 256 ≡ id = omega arith in
      let taken : length (take n ptr) ≡ n = length-take n ptr ∙ omega arith in
      let stored =
        Hit-is_stored id (take n ptr) there
          (get_addr_idobj-Hit d m s 0 log id h.sector h.has_log small) in
      let stored_n : is_stored d m s (record { id = id; size = n; bytes = take n ptr }) ≡ true =
        ap (λ k. is_stored d m s (record { id = id; size = k; bytes = take n ptr })) (sym taken)
        ∙ stored in
      rw (ok, get_addr_bscfg-Holds d m s log h, byte, stored_n) refl
