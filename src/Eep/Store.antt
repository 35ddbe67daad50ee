-- ===== src/Eep/Store.antt =====
-- flash_write_cfg and flash_read_cfg of src/flash_eep.c against a store of named values.
use b80_key.Prelude.{
  ℕ, zero, suc, ◌+◌, ◌*◌, ◌/◌, ◌%◌, ◌≤◌, ◌<◌, ◌≡◌, ◌⊎◌, ◌∙◌, refl, ap, inl, inr, sym,
}
use b80_key.Prelude.{
  List, [], ◌∷◌, ◌++◌, Option, none, some, true, false, arith, ltb, leb, ◌==◌, ==_iff,
  if◌then◌else◌, Bool-cases, length, take, min, length-take,
}
use native.Mathlib.Nat.{add_comm}
use b80_key.Flash.{Mem, Flash, sector_size, bytes_at}
use b80_key.Eep.{Obj, max_fobj_size, get_addr_idobj, get_addr_wrobj}
use b80_key.Eep.Log.{
  latest, latest-append, IsByte, All, All-append, log_end, le-log_end, log_end-shift,
}
use b80_key.Eep.Append.{object, write_obj-Holds}
use b80_key.Eep.Search.{missing, hit}
use b80_key.Eep.Pack.{no_flags, pack_eep_fmem}
use b80_key.Eep.Compact.{pack_log, visible, visible-pack_log}
use b80_key.Eep.Config.{
  Reply, size, fmem_not_found, fmem_overflow, same_bytes, no_room, write_at, write_new, is_stored,
  flash_write_cfg, flash_read_cfg,
}
use b80_key.Eep.Holds.{
  other_sector, Holds, get_addr_bscfg-Holds, get_addr_idobj-Hit, get_addr_wrobj-FreeAt,
}
use b80_key.Eep.Repack.{IsCopy, IsPackable, pack_log-IsCopy}
use b80_key.Eep.Switch.{packed_end, pack_eep_fmem-Holds}

-- The value of an object in the store that a log stands for.
abbrev pub value : ℕ → List Obj → Option (List ℕ)
value id log = latest id log none

-- What flash_read_cfg replies and copies at a value.
abbrev pub answer : Option (List ℕ) → ℕ → Reply × List ℕ
answer none maxsize = (fmem_not_found, [])
answer (some bs) maxsize = (size (length bs), take maxsize bs)

bytes_at-take : (m : Mem) (a n k : ℕ) → bytes_at m a (min n k) ≡ take k (bytes_at m a n)
bytes_at-take m a zero zero = refl
bytes_at-take m a zero (suc k) = let none_left : min zero (suc k) ≡ 0 = omega arith in rw none_left
bytes_at-take m a (suc n) zero = let none_left : min (suc n) zero ≡ 0 = omega arith in rw none_left
bytes_at-take m a (suc n) (suc k) =
    let step : min (suc n) (suc k) ≡ suc (min n k) = omega arith in
    rw step (ap (λ l. m a ∷ l) (bytes_at-take m (a + 1) n k))

pub same_bytes_sound : (xs ys : List ℕ) → same_bytes xs ys ≡ true → xs ≡ ys
same_bytes_sound [] [] h = refl
same_bytes_sound [] (y ∷ ys) h = cc
same_bytes_sound (x ∷ xs) [] h = cc
same_bytes_sound (x ∷ xs) (y ∷ ys) h = ground (arith, same_bytes_sound xs ys)

-- `log'` is `log` with the object `id` set to `bs`; a deleted object counts as absent.
abbrev pub IsUpdate : List Obj → List Obj → ℕ → List ℕ → Type 0
IsUpdate log log' id bs =
    (k : ℕ)
    → k < 255
    → visible (value k log') ≡ (if k == id then visible (some bs) else visible (value k log))

-- The same values, but for deleted objects, which may be absent.
abbrev pub SameValues : List Obj → List Obj → Type 0
SameValues log log' = (k : ℕ) → k < 255 → visible (value k log') ≡ visible (value k log)

-- What flash_write_cfg has done: the new current sector and its log, and the reply that goes with
-- it. The write fails only if the packed log leaves no room for the object.
pub record Written (log : List Obj) (id : ℕ) (bs : List ℕ) (r : Reply × Mem) : Type 0 where
  pub at : ℕ
  pub log' : List Obj
  pub holds : Holds r.1 at log'
  pub packable : All IsPackable log'
  pub reply :
      ((r.0 ≡ size (length bs)) × IsUpdate log log' id bs)
      ⊎ ((r.0 ≡ fmem_overflow)
          × (sector_size ≤ packed_end log + (length bs + 2))
          × SameValues log log')

IsCopy→IsPackable : (os : List Obj) → All IsCopy os → All IsPackable os
IsCopy→IsPackable [] v = tt
IsCopy→IsPackable (o ∷ os) v = (λ e. v.0.small, IsCopy→IsPackable os v.1)

pub All-take : (n : ℕ) (bs : List ℕ) → All IsByte bs → All IsByte (take n bs)
All-take zero bs v = tt
All-take (suc n) [] v = tt
All-take (suc n) (b ∷ bs) v = (v.0, All-take n bs v.1)

module _ (d : Flash) (m : Mem) (s : ℕ) (log : List Obj) (h : Holds m s log) where
  -- Reading an object gives its size and its first bytes, or FMEM_NOT_FOUND, and changes nothing.
  pub flash_read_cfg_lem :
      (id maxsize : ℕ)
      → id < 255
      → maxsize ≤ max_fobj_size
      → flash_read_cfg d m id maxsize
        ≡ ((answer (value id log) maxsize).0, (answer (value id log) maxsize).1, m)
  unfolding flash_read_cfg
  flash_read_cfg_lem id maxsize small fits =
      let ok : leb maxsize max_fobj_size ≡ true = ground arith in
      let byte : id % 256 ≡ id = omega arith in
      rw (ok, get_addr_bscfg-Holds d m s log h, byte)
        (elim (get_addr_idobj-Hit d m s 0 log id h.sector h.has_log small) [
          | missing none_there at_zero ↦ rw (none_there, at_zero) refl
          | hit bs there len short pos bytes ↦
              let found : ((get_addr_idobj d m (s + 2) (record { id = id; size = 0 })).0 == 0)
                  ≡ false =
                ground arith in
              rw (there, found, len, d.read_lem, bytes_at-take, bytes) refl
        ])

  module _ (id : ℕ) (bs : List ℕ) (small : id < 255) (fits : length bs ≤ max_fobj_size)
      (bytes : All IsByte bs) where
    -- A record behind a log with the same values updates them.
    append-IsUpdate :
        (log' : List Obj) → SameValues log log' → IsUpdate log (log' ++ object id bs ∷ []) id bs
    append-IsUpdate log' same k lt =
        rw (latest-append k log' (object id bs ∷ []) none)
          (unfold latest in ground (arith, same k lt))

    is_stored_lem : is_stored d m s (object id bs) ≡ true → value id log ≡ some bs
    unfolding is_stored
    is_stored_lem e = elim (get_addr_idobj-Hit d m s 0 log id h.sector h.has_log small) [
      | missing none_there at_zero ↦ cc (rw at_zero at e)
      | hit found there len short pos data_there ↦
          let found_id = get_addr_idobj d m (s + 2) (record { id = id; size = 0 }) in
          let same_length : length found ≡ length bs = ground (arith, len, e) in
          let compared : same_bytes bs (d.read_page m (found_id.0 + 2) (length bs)) ≡ true =
            ground (arith, e) in
          let agree : same_bytes bs found ≡ true =
            rw (d.read_lem, ← same_length, data_there) at compared in
          rw (there, same_bytes_sound bs found agree)
    ]

    write_at-Written :
        (m' : Mem) (s' a : ℕ) (log' : List Obj)
        → Holds m' s' log'
        → All IsPackable log'
        → SameValues log log'
        → a ≡ log_end (s' + 2) log'
        → (no_room a (length bs) s' ≡ true → sector_size ≤ packed_end log + (length bs + 2))
        → Written log id bs (write_at d m' a s' (object id bs))
    unfolding write_at
    write_at-Written m' s' a log' hold pk same at_end full =
        elim (Bool-cases (no_room a (length bs) s')) [
          | inl over ↦ rw over (record {
            at = s';
            log' = log';
            holds = hold;
            packable = pk;
            reply = inr (refl, full over, same);
          })
          | inr fit ↦
              let start : s' + 2 ≤ log_end (s' + 2) log' = le-log_end (s' + 2) log' in
              let room : log_end (s' + 2) log' + (length bs + 2) < s' + sector_size =
                ground (arith, at_end) in
              rw (fit, at_end)
                (record {
                  at = s';
                  log' = log' ++ object id bs ∷ [];
                  holds = write_obj-Holds d m' s' log' hold id bs small fits bytes room;
                  packable = All-append IsPackable log' (object id bs ∷ []) pk (λ e. fits, tt);
                  reply = inl (refl, append-IsUpdate log' same);
                })
        ]

    write_new-Written :
        All IsPackable log
        → packed_end log < sector_size
        → Written log id bs (write_new d m s (object id bs))
    unfolding write_new
    write_new-Written pk room =
        let f = other_sector s in
        let shift : (x : ℕ) → log_end (x + 2) (pack_log no_flags log) ≡ packed_end log + x = λ x.
          ap (λ n. log_end n (pack_log no_flags log)) (add_comm x 2)
          ∙ log_end-shift 2 x (pack_log no_flags log) in
        let packed = pack_eep_fmem-Holds d m s log h pk (omega (arith, shift f)) in
        let free = get_addr_wrobj-FreeAt d m s log h.sector h.has_log in
        elim (Bool-cases (no_room (get_addr_wrobj d m (s + 2)) (length bs) s)) [
          | inr fit ↦ rw fit (
              write_at-Written m s (get_addr_wrobj d m (s + 2)) log h pk (λ k lt. refl)
                (ground (arith, free)) (λ e. cc))
          | inl over ↦
              let a = log_end (f + 2) (pack_log no_flags log) in
              let near : f + 2 ≤ a = le-log_end (f + 2) (pack_log no_flags log) in
              let base : (pack_eep_fmem d m s).0 / sector_size * sector_size ≡ f =
                rw packed.1 (omega (arith, shift f, h.sector)) in
              rw (over, base)
                (write_at-Written (pack_eep_fmem d m s).1 f (pack_eep_fmem d m s).0
                  (pack_log no_flags log) packed.0
                  (IsCopy→IsPackable _ (pack_log-IsCopy no_flags log h.entries))
                  (λ k lt. visible-pack_log k log lt h.entries) packed.1
                  (λ e. ground (arith, packed.1, shift f, near)))
        ]

  -- Writing takes the first `n` bytes behind the pointer into the store under `id`, or, if the packed
  -- log leaves no room for them, replies FMEM_OVERFLOW and keeps every value.
  pub flash_write_cfg_lem :
      (ptr : List ℕ) (id n : ℕ)
      → All IsPackable log
      → packed_end log < sector_size
      → id < 255
      → n ≤ max_fobj_size
      → n ≤ length ptr
      → All IsByte ptr
      → Written log id (take n ptr) (flash_write_cfg d m ptr id n)
  unfolding flash_write_cfg
  flash_write_cfg_lem ptr id n pk room small fits long bytes =
      let ok : ltb max_fobj_size n ≡ false = ground arith in
      let byte : id % 256 ≡ id = omega arith in
      let taken : length (take n ptr) ≡ n = length-take n ptr ∙ omega arith in
      let bytes' : All IsByte (take n ptr) = All-take n ptr bytes in
      let o = object id (take n ptr) in
      let same_object : record { id = id; size = n; bytes = take n ptr } ≡ o =
        ap (λ k. record { id = id; size = k; bytes = take n ptr }) (sym taken) in
      rw (ok, get_addr_bscfg-Holds d m s log h, byte, same_object)
        (elim (Bool-cases (is_stored d m s o)) [
          | inl e ↦
              let there = is_stored_lem id (take n ptr) small (omega (arith, taken)) bytes' e in
              rw e (record {
                at = s;
                log' = log;
                holds = h;
                packable = pk;
                reply = inl (ap size (sym taken), λ k lt. ground (arith, there, ==_iff k id));
              })
          | inr e ↦
              rw e (write_new-Written id (take n ptr) small (omega (arith, taken)) bytes' pk room)
        ])
