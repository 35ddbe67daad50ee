-- ===== src/Printf/Console.antt =====
-- The buffer of src/sws_printf.c that the host reads. What the host does while sws_ready waits is an
-- argument: whether it has taken the characters before the timeout, and whether it has opened a closed
-- buffer again since the character before.
use b80_key.Prelude.{
  ℕ, zero, suc, ◌+◌, ◌≤◌, ◌<◌, ◌≡◌, ◌⊎◌, inl, inr, ◌∙◌, refl, sym, ap, arith, append_assoc,
  append-nil,
}
use b80_key.Prelude.{
  List, [], ◌∷◌, ◌++◌, Bool, true, false, if◌then◌else◌, ◌==◌, ==_iff, leb, ◌||◌, Bool-cases,
  length, set, take, length-set,
}

abbrev pub sws_buf_max_len : ℕ
sws_buf_max_len = 253

abbrev pub sws_buf_closed : ℕ
sws_buf_closed = 255

-- sws_buffer_t
pub record SwsBuffer : Type 0 where
  pub id : ℕ
  pub len : ℕ
  pub chars : List ℕ
  pub cur_len : ℕ

-- sws_init
abbrev pub sws_init : SwsBuffer → SwsBuffer
sws_init p = record p { id = 0x55 }

-- The answer, the characters that the host takes, and the buffer then.
unfoldable pub sws_ready : Bool → SwsBuffer → Bool × List ℕ × SwsBuffer
sws_ready taken p =
    if p.len == sws_buf_closed
    then (false, [], sws_init p)
    else if p.len == 0
    then (true, [], sws_init p)
    else if taken
    then (true, take p.len p.chars, record (sws_init p) { len = 0 })
    else (false, [], record (sws_init p) { len = sws_buf_closed })

-- The new characters are handed over.
abbrev pub hand_over : SwsBuffer → SwsBuffer
hand_over p = record p { len = p.cur_len; cur_len = 0 }

unfoldable pub put : ℕ → SwsBuffer → SwsBuffer
put c p =
    let p' = record p { chars = set p.chars p.cur_len c; cur_len = p.cur_len + 1 } in
    if c == 10 || leb sws_buf_max_len p'.cur_len then hand_over p' else p'

-- What the host does before and while a character is sent
pub record Host : Type 0 where
  pub opens : Bool
  pub takes : Bool

-- "Wait for the next opening": the host opens a closed buffer by setting its length to 0.
abbrev pub open_again : Bool → SwsBuffer → SwsBuffer
open_again opens p =
    if p.len == sws_buf_closed then (if opens then record p { len = 0 } else p) else p

unfoldable pub sws_putchar : Host → ℕ → SwsBuffer → List ℕ × SwsBuffer
sws_putchar host c p =
    let (ready, out, p') = sws_ready host.takes (open_again host.opens p) in
    if ready then (out, put c p') else (out, p')

-- The characters before the terminator, with what the host does at each of them.
unfoldable pub sws_puts : (ℕ → Host) → List ℕ → SwsBuffer → List ℕ × SwsBuffer
sws_puts host [] p = ([], p)
sws_puts host (c ∷ cs) p =
    let (out, p') = sws_putchar (host 0) c p in
    let (more, p'') = sws_puts (λ i. host (suc i)) cs p' in (out ++ more, p'')

unfoldable pub sws_buffer_flush : Bool → Bool → SwsBuffer → List ℕ × SwsBuffer
sws_buffer_flush taken taken' p =
    let (ready, out, p') = sws_ready taken p in
    if ready
    then (if p'.cur_len == 0
        then (out, p')
        else (let (_, more, p'') = sws_ready taken' (hand_over p') in (out ++ more, p'')))
    else (out, p')

-- The buffer is open and within its bounds; while it is handed over, it is not filled.
pub record IsOpen (p : SwsBuffer) : Type 0 where
  pub size : length p.chars ≡ 253
  pub filled : p.cur_len < 253
  pub handed : p.len ≤ 253
  pub one : (p.len ≡ 0) ⊎ (p.cur_len ≡ 0)

-- The characters that the host has not taken yet
abbrev pub waiting : SwsBuffer → List ℕ
waiting p = take p.len p.chars ++ take p.cur_len p.chars

take-set :
    (i : ℕ) (cs : List ℕ) (c : ℕ)
    → i < length cs
    → take (suc i) (set cs i c) ≡ take i cs ++ (c ∷ [])
take-set i [] c p = ground (arith, p)
take-set zero (x ∷ cs) c p = refl
take-set (suc i) (x ∷ cs) c p = ap (λ l. x ∷ l) (take-set i cs c (omega arith))

-- A character put into an empty or partly filled buffer.
pub put_lem :
    (c : ℕ) (p : SwsBuffer)
    → length p.chars ≡ 253
    → p.cur_len < 253
    → p.len ≡ 0
    → IsOpen (put c p) × (waiting (put c p) ≡ take p.cur_len p.chars ++ (c ∷ []))
unfolding put
put_lem c p size room free =
    let at : p.cur_len + 1 ≡ suc p.cur_len = omega arith in
    let chars' = set p.chars p.cur_len c in
    let taken =
      ap (λ n. take n chars') at ∙ take-set p.cur_len p.chars c (omega (arith, size, room)) in
    let size' = length-set p.chars p.cur_len c ∙ size in
    elim (Bool-cases (c == 10 || leb sws_buf_max_len (p.cur_len + 1))) [
      | inl full ↦ rw full (
        record { size = size'; filled = omega arith; handed = omega (arith, room); one = inr refl },
        append-nil (take (p.cur_len + 1) chars') ∙ taken,
      )
      | inr more ↦ rw (more) (
        record {
          size = size';
          filled = ground (arith, more);
          handed = omega (arith, free);
          one = inl free;
        },
        ap (λ n. take n chars' ++ take (p.cur_len + 1) chars') free ∙ taken,
      )
    ]

pub sws_putchar_lem :
    (c : ℕ) (h : Host) (p : SwsBuffer)
    → h.takes ≡ true
    → IsOpen p
    → let (out, p') = sws_putchar h c p in IsOpen p' × (out ++ waiting p' ≡ waiting p ++ (c ∷ []))
unfolding sws_putchar sws_ready
sws_putchar_lem c h p taken o =
    let open_ : p.len == sws_buf_closed ≡ false = ground (arith, o.handed) in
    elim (Bool-cases (p.len == 0)) [
      | inl e ↦
          let free : p.len ≡ 0 = (==_iff _ 0).0 e in
          let r = put_lem c (sws_init p) o.size o.filled free in
          rw (open_, open_, taken, e)
            (r.0, r.1 ∙ ap (λ n. (take n p.chars ++ take p.cur_len p.chars) ++ (c ∷ [])) (sym free))
      | inr e ↦
          let none_new : p.cur_len ≡ 0 = ground (arith, e, o.one) in
          let r = put_lem c (record (sws_init p) { len = 0 }) o.size o.filled refl in
          rw (open_, open_, taken, e)
            (
              r.0,
              ap (λ l. take p.len p.chars ++ l) r.1
                  ∙ sym (append_assoc (take p.len p.chars) (take p.cur_len p.chars) (c ∷ [])),
            )
    ]

-- With an open buffer and a host that takes what is handed over in time, the host gets the
-- characters that were waiting and those of the string, in their order, up to those that wait
-- then, and the buffer stays open and within its bounds.
pub sws_puts_lem :
    (cs : List ℕ) (host : ℕ → Host) (p : SwsBuffer)
    → ((i : ℕ) → (host i).takes ≡ true)
    → IsOpen p
    → let (out, p') = sws_puts host cs p in IsOpen p' × (out ++ waiting p' ≡ waiting p ++ cs)
unfolding sws_puts
sws_puts_lem [] host p taken o = (o, sym (append-nil (waiting p)))
sws_puts_lem (c ∷ cs) host p taken o =
    let first = sws_putchar_lem c (host 0) p (taken 0) o in
    let later = λ (i : ℕ). host (suc i) in
    let (out, p') = sws_putchar (host 0) c p in
    let rest = sws_puts_lem cs later p' (λ i. taken (suc i)) first.0 in
    let (more, p'') = sws_puts later cs p' in
    (
      rest.0,
      append_assoc out more (waiting p'')
          ∙ ap (λ l. out ++ l) rest.1
          ∙ sym (append_assoc out (waiting p') cs)
          ∙ ap (λ l. l ++ cs) first.1
          ∙ append_assoc (waiting p) (c ∷ []) cs,
    )
