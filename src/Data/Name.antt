-- ===== src/Data/Name.antt =====
-- The device name of src/app_data.c, saved and loaded by the next start.
use b80_key.Prelude.{
  ℕ, zero, suc, ◌+◌, ◌-◌, ◌≤◌, ◌<◌, ◌≡◌, ◌≢◌, ◌∙◌, refl, ap, inl, inr, arith, List, [], ◌∷◌, ◌++◌,
  true, false, ◌||◌,
}
use b80_key.Prelude.{
  ◌==◌, ltb, Bool-cases, length, take, drop, set, replicate, take-all, length-take, length-drop,
  length-append, length-replicate,
}
use b80_key.Flash.{Mem, Flash, sector_size}
use b80_key.Eep.{Obj}
use b80_key.Eep.Log.{IsByte, All, All-append}
use b80_key.Eep.Config.{size, flash_write_cfg, flash_read_cfg}
use b80_key.Eep.Holds.{Holds}
use b80_key.Eep.Repack.{IsPackable}
use b80_key.Eep.Switch.{packed_end}
use b80_key.Eep.Store.{All-take, flash_write_cfg_lem}
use b80_key.Eep.ReadBack.{read-write}
use b80_key.Data.{
  Settings, strlen, overwrite, limit_name, test_dev_cfg, save_dev_name, load_name, max_dev_name_len,
}
use b80_key.Data.Limits.{strlen-set}
use b80_key.Data.Update.{IsStored, with_room}

strlen-replicate : (k i : ℕ) → strlen (set (replicate k 0) i 0) ≡ 0
unfolding strlen
strlen-replicate zero i = refl
strlen-replicate (suc k) zero = refl
strlen-replicate (suc k) (suc i) = refl

strlen_le : (l : List ℕ) → strlen l ≤ length l
unfolding strlen
strlen_le [] = omega arith
strlen_le (c ∷ cs) = ground (arith, strlen_le cs)

-- The characters of a string behind which zeros are put are the same string.
strlen_shown :
    (l : List ℕ) (k i : ℕ)
    → strlen l ≤ i
    → strlen (set (take (strlen l) l ++ replicate k 0) i 0) ≡ strlen l
unfolding strlen
strlen_shown [] k i p = strlen-replicate k i
strlen_shown (c ∷ cs) k zero p = elim (Bool-cases (c == 0)) [
  | inl e ↦ rw e (strlen-replicate k 0)
  | inr e ↦ absurd (ground (arith, e, p))
]
strlen_shown (c ∷ cs) k (suc i) p = elim (Bool-cases (c == 0)) [
  | inl e ↦ rw e (strlen-replicate k (suc i))
  | inr e ↦ rw (e, e) (ap suc (strlen_shown cs k i (ground (arith, e, p))))
]

take_shown :
    (n : ℕ) (l r : List ℕ) (i v : ℕ)
    → n ≤ i
    → n ≤ length l
    → take n (set (take n l ++ r) i v) ≡ take n l
take_shown zero l r i v p q = refl
take_shown (suc n) [] r i v p q = absurd (omega (arith, q))
take_shown (suc n) (x ∷ l) r zero v p q = absurd (omega (arith, p))
take_shown (suc n) (x ∷ l) r (suc i) v p q =
    ap (λ t. x ∷ t) (take_shown n l r i v (omega arith) (omega arith))

drop-replicate : (n k v : ℕ) → drop n (replicate k v) ≡ replicate (k - n) v
drop-replicate zero k v = ap (λ t. replicate t v) (omega arith)
drop-replicate (suc n) zero v =
    let nothing : 0 ≡ 0 - suc n = omega arith in ap (λ t. replicate t v) nothing
drop-replicate (suc n) (suc k) v = drop-replicate n k v ∙ ap (λ t. replicate t v) (omega arith)

All-drop : (n : ℕ) (bs : List ℕ) → All IsByte bs → All IsByte (drop n bs)
All-drop zero bs a = a
All-drop (suc n) [] a = tt
All-drop (suc n) (b ∷ bs) a = All-drop n bs a.1

All-set : (bs : List ℕ) (i v : ℕ) → v < 256 → All IsByte bs → All IsByte (set bs i v)
All-set [] i v p a = tt
All-set (b ∷ bs) zero v p a = (p, a.1)
All-set (b ∷ bs) (suc i) v p a = (a.0, All-set bs i v p a.1)

-- Some first bytes that are written are read back by a call for 20 bytes.
read_first :
    (d : Flash) (m : Mem) (s : ℕ) (log : List Obj)
    → Holds m s log
    → All IsPackable log
    → (ptr : List ℕ) (n : ℕ) → 1 ≤ n
    → n ≤ 20
    → n ≤ length ptr
    → All IsByte ptr
    → packed_end log + 22 < sector_size
    → let m' = (flash_write_cfg d m ptr 2 n).1 in
      flash_read_cfg d m' 2 20 ≡ (size n, take n ptr, m')
read_first d m s log h pk ptr zero pos fits long bytes room = absurd (omega (arith, pos))
read_first d m s log h pk [] (suc n) pos fits long bytes room = absurd (omega (arith, long))
read_first d m s log h pk (b ∷ bs) (suc n) pos fits long bytes room =
    let r =
      read-write d m s log h 2 n 20 b bs pk (omega arith) (omega arith) (omega arith) bytes
        (omega arith) (omega (arith, room, fits)) in
    r.1
    ∙ ap (λ l. (size (suc n), l, (flash_write_cfg d m (b ∷ bs) 2 (suc n)).1))
        (take-all 20 (b ∷ take n bs) (omega (arith, length-take n bs, fits)))

-- The name that test_dev_cfg makes of a buffer whose characters are 1 to 20
limit_name-kept :
    (name : List ℕ)
    → 1 ≤ strlen (set name 20 0)
    → length name ≡ 21
    → limit_name name ≡ record { len = strlen (set name 20 0); id = 9; name = set name 20 0 }
limit_name-kept name some_name buffer =
    let short : strlen (set name 20 0) ≤ 20 = strlen-set name 20 (omega (arith, buffer)) in
    let ok : (strlen (set name 20 0) == 0 || ltb max_dev_name_len (strlen (set name 20 0)))
        ≡ false =
      ground (arith, short, some_name) in
    rw ok refl

-- The name that a start makes of the characters of a buffer
reloaded :
    (name : List ℕ)
    → length name ≡ 21
    → let n = strlen (set name 20 0) in
      1 ≤ n
      → let again = limit_name (overwrite (replicate 21 0) (take n (set name 20 0))) in
        (again.len ≡ n) × (take n again.name ≡ take n (set name 20 0))
reloaded name buffer some_name =
    let nm = set name 20 0 in
    let n = strlen nm in
    let short : n ≤ 20 = strlen-set name 20 (omega (arith, buffer)) in
    let inside : n ≤ length nm = strlen_le nm in
    let k = 21 - length (take n nm) in
    let shown = take n nm ++ replicate k 0 in
    let put : overwrite (replicate 21 0) (take n nm) ≡ shown =
      ap (λ l. take n nm ++ l) (drop-replicate (length (take n nm)) 21 0) in
    let whole : length shown ≡ 21 =
      length-append (take n nm) (replicate k 0)
      ∙ omega (arith, length-replicate {A = ℕ} k 0, length-take n nm, short) in
    let same : strlen (set shown 20 0) ≡ n = strlen_shown nm k 20 short in
    let kept = limit_name-kept shown (omega (arith, same, some_name)) whole in
    rw (put, kept) (same, take_shown n nm (replicate k 0) 20 0 short inside)

module _ (d : Flash) (m : Mem) (s : ℕ) (log : List Obj) (h : Holds m s log)
    (pk : All IsPackable log) where
  -- A name that does not start with a zero, saved with room in the store, is the one that load_name
  -- finds with zeros in the buffer of the name in RAM: the same characters in the same number. The
  -- object that save_dev_name writes is stored, and loading it changes nothing.
  pub load_name-save_dev_name :
      (rf_index : ℕ) (w : Settings) (c : ℕ) (cs : List ℕ) (len : ℕ)
      → length w.tbl_scan_rsp.name ≡ 21
      → All IsByte w.tbl_scan_rsp.name
      → All IsByte (c ∷ cs)
      → c ≢ 0
      → suc len ≤ 20
      → packed_end log + 22 < sector_size
      → let (w', m') = save_dev_name d rf_index w m (c ∷ cs) (suc len) in
        let (name, m'') = load_name d (replicate 21 0) m' in
        ((limit_name name).len ≡ w'.tbl_scan_rsp.len)
        × (take w'.tbl_scan_rsp.len (limit_name name).name
            ≡ take w'.tbl_scan_rsp.len w'.tbl_scan_rsp.name)
        × (m'' ≡ m')
        × IsStored d log 2 (take w'.tbl_scan_rsp.len w'.tbl_scan_rsp.name) m'
  unfolding save_dev_name load_name test_dev_cfg strlen
  load_name-save_dev_name rf_index w c cs len buffer old_bytes bytes some_c fits room =
      let src = c ∷ take len cs in
      let name = overwrite w.tbl_scan_rsp.name src in
      let nm = set name 20 0 in
      let n = strlen nm in
      let src_short : length src ≤ 21 = omega (arith, length-take len cs, fits) in
      let whole : length name ≡ 21 =
        length-append src (drop (length src) w.tbl_scan_rsp.name)
        ∙ omega (arith, length-drop (length src) w.tbl_scan_rsp.name, buffer, src_short) in
      let some_name : 1 ≤ n = ground (arith, some_c) in
      let short : n ≤ 20 = strlen-set name 20 (omega (arith, whole)) in
      let name_bytes : All IsByte nm = All-set name 20 0 (omega arith) (
        All-append IsByte src (drop (length src) w.tbl_scan_rsp.name)
          (bytes.0, All-take len cs bytes.1)
          (All-drop (length src) w.tbl_scan_rsp.name old_bytes)) in
      let r = read_first d m s log h pk nm n some_name short (strlen_le nm) name_bytes room in
      let shown : length (take n nm) ≡ n = length-take n nm ∙ omega (arith, strlen_le nm) in
      let written =
        flash_write_cfg_lem d m s log h nm 2 n pk (omega (arith, room)) (omega arith)
          (omega (arith, short)) (strlen_le nm) name_bytes in
      let st =
        with_room d log 2 (take n nm) (flash_write_cfg d m nm 2 n) written
          (omega (arith, room, shown, short)) in
      let pos : ltb 0 n ≡ true = ground (arith, some_name) in
      let again = reloaded name whole some_name in
      rw (limit_name-kept name some_name whole, r, pos) (again.0, again.1, refl, st)
