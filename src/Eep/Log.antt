-- ===== src/Eep/Log.antt =====
-- The abstract view of a sector of src/flash_eep.c: a list of records, and where they lie.
use b80_key.Prelude.{ℕ, zero, suc, ◌+◌, ◌*◌, ◌≤◌, ◌<◌, ◌≡◌, ◌∙◌, refl, ap, List, [], ◌∷◌, ◌++◌}
use b80_key.Prelude.{◌&&◌, Option, some, arith, ap₂}
use b80_key.Prelude.{leb, ◌==◌, if◌then◌else◌, get_or, length}
use b80_key.Flash.{Mem, bytes_at}
use b80_key.Eep.{max_fobj_size, Obj, span}

-- The value of an object after the records of a log, the last one written winning.
unfoldable pub latest : ℕ → List Obj → Option (List ℕ) → Option (List ℕ)
latest id [] found = found
latest id (e ∷ log) found =
    latest id log (if leb e.size max_fobj_size && e.id == id then some e.bytes else found)

pub latest-append :
    (id : ℕ) (log more : List Obj) (found : Option (List ℕ))
    → latest id (log ++ more) found ≡ latest id more (latest id log found)
unfolding latest
latest-append id [] more found = refl
latest-append id (e ∷ log) more found = latest-append id log more _

abbrev pub IsByte : ℕ → Type 0
IsByte b = b < 256

abbrev pub All {ℓ κ} : {T : Type ℓ} → (T → Type κ) → List T → Type κ
All P [] = Unit
All P (o ∷ rest) = P o × All P rest

pub All-append {ℓ κ} :
    {T : Type ℓ} (P : T → Type κ) (front back : List T)
    → All P front
    → All P back
    → All P (front ++ back)
All-append P [] back u v = v
All-append P (o ∷ rest) back u v = (u.0, All-append P rest back u.1 v)

-- What a record in flash is: an object, or one whose writing was interrupted (id still 0xff, or a
-- size above the limit). The data take the bytes that the searches step over.
pub record IsEntry (e : Obj) : Type 0 where
  pub id_byte : e.id < 256
  pub size_byte : e.size < 256
  pub not_free : e.id + 256 * e.size < 65535
  pub data_span : length e.bytes ≡ span e.size
  pub data_bytes : All IsByte e.bytes

-- The records lie one behind another from `a` on.
abbrev pub Stored : Mem → ℕ → List Obj → Type 0
Stored m a [] = Unit
Stored m a (e ∷ log) =
    (m a ≡ e.id)
    × (m (a + 1) ≡ e.size)
    × (bytes_at m (a + 2) (span e.size) ≡ e.bytes)
    × Stored m (a + (span e.size + 2)) log

unfoldable pub log_end : ℕ → List Obj → ℕ
log_end a [] = a
log_end a (e ∷ log) = log_end (a + (span e.size + 2)) log

pub le-log_end : (a : ℕ) (log : List Obj) → a ≤ log_end a log
unfolding log_end
le-log_end a [] = omega arith
le-log_end a (e ∷ log) = omega (arith, le-log_end (a + (span e.size + 2)) log)

pub log_end-append :
    (a : ℕ) (log more : List Obj) → log_end a (log ++ more) ≡ log_end (log_end a log) more
unfolding log_end
log_end-append a [] more = refl
log_end-append a (e ∷ log) more = log_end-append (a + (span e.size + 2)) log more

-- A shift of the start shifts the end.
pub log_end-shift : (a b : ℕ) (log : List Obj) → log_end (a + b) log ≡ log_end a log + b
unfolding log_end
log_end-shift a b [] = refl
log_end-shift a b (e ∷ log) =
    ap (λ x. log_end x log) (omega arith) ∙ log_end-shift (a + (span e.size + 2)) b log

pub bytes_at-ext :
    (m m' : Mem) (a n : ℕ)
    → ((x : ℕ) → a ≤ x → x < a + n → m' x ≡ m x)
    → bytes_at m' a n ≡ bytes_at m a n
bytes_at-ext m m' a zero same = refl
bytes_at-ext m m' a (suc n) same =
    ap₂ ◌∷◌ (same a (omega arith) (omega arith))
      (bytes_at-ext m m' (a + 1) n (λ x p q. same x (omega arith) (omega arith)))

-- The bytes of a list stand in memory when each of them does.
pub bytes_at-list :
    (m : Mem) (a n : ℕ) (bs : List ℕ)
    → length bs ≡ n
    → ((i : ℕ) → i < n → m (a + i) ≡ get_or bs i 0)
    → bytes_at m a n ≡ bs
bytes_at-list m a zero [] e h = refl
bytes_at-list m a zero (b ∷ bs) e h = absurd (omega arith)
bytes_at-list m a (suc n) [] e h = absurd (omega arith)
bytes_at-list m a (suc n) (b ∷ bs) e h = ap₂ ◌∷◌ (ap m (omega arith) ∙ h 0 (omega arith)) (
    bytes_at-list m (a + 1) n bs (omega arith)
      (λ i p. ap m (omega arith) ∙ h (suc i) (omega arith)))

pub Stored-ext :
    (m m' : Mem) (a : ℕ) (log : List Obj)
    → ((x : ℕ) → a ≤ x → x < log_end a log → m' x ≡ m x)
    → Stored m a log
    → Stored m' a log
unfolding log_end
Stored-ext m m' a [] same s = s
Stored-ext m m' a (e ∷ log) same s =
    let next = a + (span e.size + 2) in
    let far : next ≤ log_end next log = le-log_end next log in
    (
      same a (omega arith) (omega arith) ∙ s.0,
      same (a + 1) (omega arith) (omega arith) ∙ s.1,
      bytes_at-ext m m' (a + 2) (span e.size) (λ x p q. same x (omega arith) (omega arith)) ∙ s.2,
      Stored-ext m m' next log (λ x p q. same x (omega arith) q) s.3,
    )

pub Stored-append :
    (m : Mem) (a : ℕ) (log more : List Obj)
    → Stored m a log
    → Stored m (log_end a log) more
    → Stored m a (log ++ more)
unfolding log_end
Stored-append m a [] more s t = t
Stored-append m a (e ∷ log) more s t =
    (s.0, s.1, s.2, Stored-append m (a + (span e.size + 2)) log more s.3 t)
