-- ===== src/Eep/Repeat.antt =====
-- What the assignment in check_flag_eep_id of src/flash_eep.c does to packing.
use b80_key.Prelude.{ℕ, zero, suc, ◌/◌, ◌%◌, ◌^◌, ◌≤◌, ◌<◌, ◌≡◌, ◌≢◌, refl}
use b80_key.Prelude.{
  List, [], ◌∷◌, some, true, false, ◌&&◌, ◌||◌, arith, ltb, leb, ◌==◌, length, bit_and, bit_or,
}
use b80_key.Prelude.{every_below, every_below_lem, zero-bit_and}
use b80_key.Eep.{Obj, max_fobj_size}
use b80_key.Eep.Log.{latest}
use b80_key.Eep.Pack.{Flags, no_flags, set_flag_eep_id, check_flag_eep_id}
use b80_key.Eep.Compact.{pack_log, pack_entry, emit_latest}

-- `n` rounds of writing one object and then another, each time the same bytes.
abbrev pub rounds : ℕ → Obj → Obj → List Obj
rounds zero x y = []
rounds (suc n) x y = x ∷ y ∷ rounds n x y

abbrev pub item : ℕ → ℕ → List ℕ → Obj
item id b bs = record { id = id; size = suc (length bs); bytes = b ∷ bs }

bit_table :
    every_below 8 (λ k.
      bit_or 0 (2 ^ k) == 2 ^ k && every_below 8 (λ j. j == k || bit_and (2 ^ j) (2 ^ k) == 0))
    ≡ true
unfolding every_below
bit_table = refl

bit_or-bit : (k : ℕ) → k < 8 → bit_or 0 (2 ^ k) ≡ 2 ^ k
bit_or-bit k p = ground (
  arith,
  every_below_lem 8
      (λ k.
        bit_or 0 (2 ^ k) == 2 ^ k && every_below 8 (λ j. j == k || bit_and (2 ^ j) (2 ^ k) == 0))
      k bit_table p,
)

bit_and-bits : (j k : ℕ) → j < 8 → k < 8 → j ≢ k → bit_and (2 ^ j) (2 ^ k) ≡ 0
bit_and-bits j k q p ne =
    let row : every_below 8 (λ j. j == k || bit_and (2 ^ j) (2 ^ k) == 0) ≡ true = ground (
      arith,
      every_below_lem 8
          (λ k.
            bit_or 0 (2 ^ k) == 2 ^ k
            && every_below 8 (λ j. j == k || bit_and (2 ^ j) (2 ^ k) == 0))
          k bit_table p,
    ) in
    ground (arith, ne, every_below_lem 8 (λ j. j == k || bit_and (2 ^ j) (2 ^ k) == 0) j row q)

-- An object whose flag is not set is copied, and its flag is then the only one of its byte.
pack_entry-unset :
    (f : Flags) (id b : ℕ) (bs : List ℕ) (rest : List Obj)
    → id < 255
    → suc (length bs) ≤ max_fobj_size
    → bit_and (f (id / 8)) (2 ^ (id % 8)) ≡ 0
    → latest id rest (some (b ∷ bs)) ≡ some (b ∷ bs)
    → let (f', out) = pack_entry f (item id b bs) rest in
      (out ≡ item id b bs ∷ []) × (f' (id / 8) ≡ 2 ^ (id % 8))
unfolding pack_entry latest check_flag_eep_id emit_latest set_flag_eep_id
pack_entry-unset f id b bs rest small fits unset last =
    let low : (id == 255) ≡ false = ground arith in
    let short : ltb max_fobj_size (suc (length bs)) ≡ false = ground arith in
    let short' : leb (suc (length bs)) max_fobj_size ≡ true = ground arith in
    let own : (id == id) ≡ true = ground arith in
    let own_byte : (id / 8 == id / 8) ≡ true = ground arith in
    let some_size : (suc (length bs) == 0) ≡ false = ground arith in
    rw (some_size, low, short, own_byte, unset, short', own, last)
      (refl, rw own_byte (bit_or-bit (id % 8) (omega arith)))

module _ (i a j b : ℕ) (xs ys : List ℕ) (fits_x : suc (length xs) ≤ max_fobj_size)
    (fits_y : suc (length ys) ≤ max_fobj_size) where
  module _ (ne : i ≢ j) where
    latest-rounds_first :
        (n : ℕ) → latest i (rounds n (item i a xs) (item j b ys)) (some (a ∷ xs)) ≡ some (a ∷ xs)
    unfolding latest
    latest-rounds_first zero = refl
    latest-rounds_first (suc n) =
        let other : (j == i) ≡ false = ground (arith, ne) in
        let own : (i == i) ≡ true = ground arith in
        let short : leb (suc (length xs)) max_fobj_size ≡ true = ground arith in
        let short' : leb (suc (length ys)) max_fobj_size ≡ true = ground arith in
        rw (latest, other, own, short, short') (latest-rounds_first n)

    latest-rounds_second :
        (n : ℕ) → latest j (rounds n (item i a xs) (item j b ys)) (some (b ∷ ys)) ≡ some (b ∷ ys)
    unfolding latest
    latest-rounds_second zero = refl
    latest-rounds_second (suc n) =
        let other : (i == j) ≡ false = ground (arith, ne) in
        let own : (j == j) ≡ true = ground arith in
        let short : leb (suc (length xs)) max_fobj_size ≡ true = ground arith in
        let short' : leb (suc (length ys)) max_fobj_size ≡ true = ground arith in
        rw (latest, other, own, short, short') (latest-rounds_second n)

    module _ (small_i : i < 255) (small_j : j < 255) (same_byte : i / 8 ≡ j / 8) where
      pack_log-rounds_from :
          (n : ℕ) (f : Flags)
          → bit_and (f (i / 8)) (2 ^ (i % 8)) ≡ 0
          → pack_log f (rounds n (item i a xs) (item j b ys)) ≡ rounds n (item i a xs) (item j b ys)
      unfolding pack_log latest
      pack_log-rounds_from zero f unset = refl
      pack_log-rounds_from (suc n) f unset =
          let bits : i % 8 ≢ j % 8 = omega arith in
          let more = rounds n (item i a xs) (item j b ys) in
          let first =
            pack_entry-unset f i a xs (item j b ys ∷ more) small_i fits_x unset (skip n) in
          let f1 = (pack_entry f (item i a xs) (item j b ys ∷ more)).0 in
          let unset' : bit_and (f1 (j / 8)) (2 ^ (j % 8)) ≡ 0 =
            rw (← same_byte, first.1)
              (bit_and-bits (i % 8) (j % 8) (omega arith) (omega arith) bits) in
          let second =
            pack_entry-unset f1 j b ys more small_j fits_y unset' (latest-rounds_second n) in
          let f2 = (pack_entry f1 (item j b ys) more).0 in
          let unset'' : bit_and (f2 (i / 8)) (2 ^ (i % 8)) ≡ 0 =
            rw (same_byte, second.1)
              (bit_and-bits (j % 8) (i % 8) (omega arith) (omega arith) (omega arith)) in
          rw (first.0, second.0, pack_log-rounds_from n f2 unset'') refl
        where
          skip :
              (n : ℕ)
              → latest i (item j b ys ∷ rounds n (item i a xs) (item j b ys)) (some (a ∷ xs))
                ≡ some (a ∷ xs)
          skip n =
              let other : (j == i) ≡ false = ground (arith, ne) in
              let short' : leb (suc (length ys)) max_fobj_size ≡ true = ground arith in
              rw (latest, short', other) (latest-rounds_first n)

-- Two objects whose flags lie in one byte, written alternately, are not compacted: each check clears
-- the flag of the other object, so that packing copies every record.
pub pack_log-rounds :
    (i a j b : ℕ) (xs ys : List ℕ) (n : ℕ)
    → suc (length xs) ≤ max_fobj_size
    → suc (length ys) ≤ max_fobj_size
    → i < 255
    → j < 255
    → i ≢ j
    → i / 8 ≡ j / 8
    → pack_log no_flags (rounds n (item i a xs) (item j b ys))
      ≡ rounds n (item i a xs) (item j b ys)
pack_log-rounds i a j b xs ys n fits_x fits_y small_i small_j ne same_byte =
    pack_log-rounds_from i a j b xs ys fits_x fits_y ne small_i small_j same_byte n no_flags
      (zero-bit_and _)
