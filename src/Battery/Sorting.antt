-- ===== src/Battery/Sorting.antt =====
-- The sorting in get_adc of src/app_battery.c.
use b80_key.Prelude.{ℕ, zero, suc, ◌+◌, ◌*◌, ◌≤◌, ◌<◌, ◌≡◌, ◌∙◌, refl, ap, inl, inr}
use b80_key.Prelude.{arith, ltb, ◌==◌, if◌then◌else◌, Bool-cases}
use b80_key.Battery.{
  Samples, put, sample, shift_loop, insert_sort, read_samples, get_adc, adc_buf_count,
}

-- In increasing order up to index `n`, the end excluded.
abbrev pub IsSorted : Samples → ℕ → Type 0
IsSorted s n = (k : ℕ) → suc k < n → s k ≤ s (suc k)

-- How often a value occurs before index `n`.
unfoldable pub count : ℕ → Samples → ℕ → ℕ
count v s zero = 0
count v s (suc n) = count v s n + (if s n == v then 1 else 0)

-- The samples with the place of the loop taken out: what holds before each round at j + 1.
record IsHole (s : Samples) (temp hole n : ℕ) : Type 0 where
  below : (k : ℕ) → suc k < hole → s k ≤ s (suc k)
  above : (k : ℕ) → hole < k → suc k < n → s k ≤ s (suc k)
  across : (k : ℕ) → suc k ≡ hole → suc hole < n → s k ≤ s (suc hole)
  fits : suc hole < n → temp ≤ s (suc hole)

shift_loop-IsSorted :
    (hole : ℕ) (s : Samples) (temp n : ℕ)
    → IsHole s temp hole n
    → IsSorted (shift_loop hole s temp) n
unfolding shift_loop
shift_loop-IsSorted zero s temp n h = λ k p. ground (arith, h.above k, h.fits)
shift_loop-IsSorted (suc j) s temp n h = elim (Bool-cases (ltb temp (s j))) [
  | inl e ↦ rw e (
      shift_loop-IsSorted j (put s (suc j) (s j)) temp n (record {
        below = λ k p. ground (arith, h.below k);
        above = λ k p q. ground (arith, h.above k, h.across j refl);
        across = λ k p q. ground (arith, h.below k);
        fits = λ p. ground (arith, e);
      }))
  | inr e ↦ rw e (λ k p. ground (arith, h.below k, h.above k, h.fits, e))
]

count-put_after : (v : ℕ) (s : Samples) (i x n : ℕ) → n ≤ i → count v (put s i x) n ≡ count v s n
unfolding count
count-put_after v s i x zero p = refl
count-put_after v s i x (suc n) p = ground (arith, count-put_after v s i x n)

count-put :
    (v : ℕ) (s : Samples) (i x n : ℕ)
    → i < n
    → count v (put s i x) n + (if s i == v then 1 else 0) ≡ count v s n + (if x == v then 1 else 0)
unfolding count
count-put v s i x zero p = ground arith
count-put v s i x (suc n) p = elim (Bool-cases (i == n)) [
  | inl e ↦ ground (arith, e, count-put_after v s i x n)
  | inr e ↦ ground (arith, e, count-put v s i x n)
]

shift_loop-count :
    (v hole : ℕ) (s : Samples) (temp n : ℕ)
    → hole < n
    → count v (shift_loop hole s temp) n ≡ count v (put s hole temp) n
unfolding shift_loop
shift_loop-count v zero s temp n p = refl
shift_loop-count v (suc j) s temp n p = elim (Bool-cases (ltb temp (s j))) [
  | inl e ↦
      let s' = put s (suc j) (s j) in
      let moved = count-put v s' j temp n (omega arith) in
      let own : s' j ≡ s j = ground arith in
      let moved' : count v (put s' j temp) n + (if s j == v then 1 else 0)
          ≡ count v s' n + (if temp == v then 1 else 0) =
        rw own at moved in
      let first = count-put v s (suc j) (s j) n p in
      let last = count-put v s (suc j) temp n p in
      rw (e, shift_loop-count v j s' temp n (omega arith)) (omega (arith, moved', first, last))
  | inr e ↦ rw e refl
]

insert_sort-count :
    (v : ℕ) (s : Samples) (i n : ℕ) → i < n → count v (insert_sort s i) n ≡ count v s n
unfolding insert_sort
insert_sort-count v s zero n p = refl
insert_sort-count v s (suc i) n p = elim (Bool-cases (ltb (s (suc i)) (s i))) [
  | inl e ↦
      let s1 = put s (suc i) (s i) in
      let back = count-put v s1 (suc i) (s (suc i)) n p in
      let own : s1 (suc i) ≡ s i = ground arith in
      let back' : count v (put s1 (suc i) (s (suc i))) n + (if s i == v then 1 else 0)
          ≡ count v s1 n + (if s (suc i) == v then 1 else 0) =
        rw own at back in
      let first = count-put v s (suc i) (s i) n p in
      rw (e, shift_loop-count v (suc i) s1 (s (suc i)) n p) (omega (arith, back', first))
  | inr e ↦ rw e refl
]

insert_sort-IsSorted : (s : Samples) (i : ℕ) → IsSorted s i → IsSorted (insert_sort s i) (suc i)
unfolding insert_sort
insert_sort-IsSorted s zero h = λ k p. ground arith
insert_sort-IsSorted s (suc i) h = elim (Bool-cases (ltb (s (suc i)) (s i))) [
  | inl e ↦ rw e (
      shift_loop-IsSorted (suc i) (put s (suc i) (s i)) (s (suc i)) (suc (suc i)) (record {
        below = λ k p. ground (arith, h k);
        above = λ k p q. ground arith;
        across = λ k p q. ground arith;
        fits = λ p. ground arith;
      }))
  | inr e ↦ rw e (λ k p. ground (arith, e, h k))
]

IsSorted-put : (s : Samples) (i x : ℕ) → IsSorted s i → IsSorted (put s i x) i
IsSorted-put s i x h k p = ground (arith, h k p)

read_samples-IsSorted : (n : ℕ) (dat : ℕ → ℕ) → IsSorted (read_samples n dat) n
unfolding read_samples
read_samples-IsSorted zero dat = λ k p. ground arith
read_samples-IsSorted (suc n) dat =
    let s = read_samples n dat in
    insert_sort-IsSorted (put s n (sample (dat n))) n
      (IsSorted-put s n (sample (dat n)) (read_samples-IsSorted n dat))

read_samples-count :
    (v n : ℕ) (dat : ℕ → ℕ) → count v (read_samples n dat) n ≡ count v (λ k. sample (dat k)) n
unfolding read_samples count
read_samples-count v zero dat = refl
read_samples-count v (suc n) dat =
    let s = read_samples n dat in
    let own : put s n (sample (dat n)) n ≡ sample (dat n) = ground arith in
    insert_sort-count v (put s n (sample (dat n))) n (suc n) (omega arith)
    ∙ omega (
      arith,
      ap {B = ℕ} (λ x. if x == v then 1 else 0) own,
      count-put_after v s n (sample (dat n)) n,
      read_samples-count v n dat,
    )

-- The eight samples are those of the converter in increasing order, and the sum returned lies between
-- four times the third and four times the sixth of them.
pub get_adc_lem :
    (adc_dat_buf : ℕ → ℕ)
    → let s = read_samples adc_buf_count adc_dat_buf in
      IsSorted s 8
      × ((v : ℕ) → count v s 8 ≡ count v (λ k. sample (adc_dat_buf k)) 8)
      × (4 * s 2 ≤ get_adc adc_dat_buf)
      × (get_adc adc_dat_buf ≤ 4 * s 5)
unfolding get_adc
get_adc_lem dat =
    let sorted = read_samples-IsSorted 8 dat in
    let p = sorted 2 (omega arith) in
    let q = sorted 3 (omega arith) in
    let r = sorted 4 (omega arith) in
    (sorted, λ v. read_samples-count v 8 dat, omega (arith, p, q, r), omega (arith, p, q, r))
