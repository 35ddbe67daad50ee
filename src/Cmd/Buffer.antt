-- ===== src/Cmd/Buffer.antt =====
-- Writes into the reply buffer of src/app_cmd.c.
use b80_key.Prelude.{ℕ, zero, suc, ◌+◌, ◌-◌, ◌≤◌, ◌<◌, ◌≡◌, ◌∙◌, refl, arith}
use b80_key.Prelude.{
  List, [], ◌∷◌, length, take, drop, set, get_or, length-append, length-take, length-drop,
}
use b80_key.Prelude.{◌/◌, ◌%◌, ◌++◌, ap}
use b80_key.Eep.Config.{u32_of}
use b80_key.Data.{overwrite}
use b80_key.Cmd.{put_at}

pub length-overwrite :
    (dst src : List ℕ) → length src ≤ length dst → length (overwrite dst src) ≡ length dst
length-overwrite dst src fits =
    length-append src (drop (length src) dst) ∙ omega (arith, length-drop (length src) dst, fits)

pub length-put_at :
    (i : ℕ) (bs buf : List ℕ) → i + length bs ≤ length buf → length (put_at i bs buf) ≡ length buf
unfolding put_at
length-put_at i bs buf fits =
    let rest : length (drop i buf) ≡ length buf - i = length-drop i buf in
    let inner : length (overwrite (drop i buf) bs) ≡ length (drop i buf) =
      length-overwrite (drop i buf) bs (omega arith) in
    length-append (take i buf) (overwrite (drop i buf) bs) ∙ omega (arith, length-take i buf)

-- A write behind the first byte keeps it.
pub head-put_at :
    (i : ℕ) (bs buf : List ℕ) → 0 < length buf → get_or (put_at (suc i) bs buf) 0 0 ≡ get_or buf 0 0
unfolding put_at
head-put_at i bs [] p = ground (arith, p)
head-put_at i bs (b ∷ buf) p = refl

pub head-set : (i x : ℕ) (buf : List ℕ) → get_or (set buf (suc i) x) 0 0 ≡ get_or buf 0 0
head-set i x [] = refl
head-set i x (b ∷ buf) = refl

pub head-set_first : (x : ℕ) (buf : List ℕ) → 0 < length buf → get_or (set buf 0 x) 0 0 ≡ x
head-set_first x [] p = ground (arith, p)
head-set_first x (b ∷ buf) p = refl

pub length-take_within : (n : ℕ) (buf : List ℕ) → n ≤ length buf → length (take n buf) ≡ n
length-take_within n buf p = omega (arith, length-take n buf)

pub head-take : (n : ℕ) (buf : List ℕ) → 1 ≤ n → get_or (take n buf) 0 0 ≡ get_or buf 0 0
head-take zero buf p = ground (arith, p)
head-take (suc n) [] p = refl
head-take (suc n) (b ∷ buf) p = refl

pub take-append_left : (k : ℕ) (xs ys : List ℕ) → k ≤ length xs → take k (xs ++ ys) ≡ take k xs
take-append_left zero xs ys p = refl
take-append_left (suc k) [] ys p = ground (arith, p)
take-append_left (suc k) (x ∷ xs) ys p = ap (λ l. x ∷ l) (take-append_left k xs ys (omega arith))

-- The start of a reply: the command, the status and the parameters.
pub reply_after_status :
    (cmd k : ℕ) (bs buf : List ℕ)
    → 2 ≤ length buf
    → k ≤ length bs
    → take (suc (suc k)) (put_at 2 bs (set (set buf 0 cmd) 1 0)) ≡ cmd ∷ 0 ∷ take k bs
unfolding put_at
reply_after_status cmd k bs [] two p = ground (arith, two)
reply_after_status cmd k bs (x ∷ []) two p = ground (arith, two)
reply_after_status cmd k bs (x ∷ y ∷ buf) two p =
    ap (λ l. cmd ∷ 0 ∷ l) (take-append_left k bs (drop (length bs) buf) p)

pub reply_after_command :
    (cmd k : ℕ) (bs buf : List ℕ)
    → 2 ≤ length buf
    → k ≤ length bs
    → take (suc k) (put_at 1 bs (set (set buf 0 cmd) 1 0)) ≡ cmd ∷ take k bs
unfolding put_at
reply_after_command cmd k bs [] two p = ground (arith, two)
reply_after_command cmd k bs (x ∷ []) two p = ground (arith, two)
reply_after_command cmd k bs (x ∷ y ∷ buf) two p =
    ap (λ l. cmd ∷ l) (take-append_left k bs (drop (length bs) (0 ∷ buf)) p)

pub status_lem :
    (cmd x : ℕ) (buf : List ℕ)
    → 2 ≤ length buf
    → take 2 (set (set (set buf 0 cmd) 1 0) 1 x) ≡ cmd ∷ x ∷ []
status_lem cmd x [] two = ground (arith, two)
status_lem cmd x (y ∷ []) two = ground (arith, two)
status_lem cmd x (y ∷ z ∷ buf) two = refl

-- The four bytes of a word
pub bytes_lem :
    (b0 b1 b2 b3 : ℕ)
    → b0 < 256
    → b1 < 256
    → b2 < 256
    → b3 < 256
    → let p = u32_of (b0 ∷ b1 ∷ b2 ∷ b3 ∷ []) in
      p % 256 ∷ p / 256 % 256 ∷ p / 65536 % 256 ∷ p / 16777216 % 256 ∷ [] ≡ b0 ∷ b1 ∷ b2 ∷ b3 ∷ []
bytes_lem b0 b1 b2 b3 p0 p1 p2 p3 =
    let p = u32_of (b0 ∷ b1 ∷ b2 ∷ b3 ∷ []) in
    let e0 : p % 256 ≡ b0 = omega arith in
    let e1 : p / 256 % 256 ≡ b1 = omega arith in
    let e2 : p / 65536 % 256 ≡ b2 = omega arith in
    let e3 : p / 16777216 % 256 ≡ b3 = omega arith in rw (e0, e1, e2, e3) refl
