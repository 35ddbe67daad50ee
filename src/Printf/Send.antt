-- ===== src/Printf/Send.antt =====
-- sws_printf of src/sws_printf.c through the buffer that the host reads (SWS_PRINTF_MODE): each
-- character is sent when the format asks for it. `host i` is what the host does when the i-th character of
-- the call is sent.
use b80_key.Prelude.{
  ℕ, zero, suc, ◌≡◌, ◌∙◌, refl, sym, ap, arith, append_assoc, true, false, List, [], ◌∷◌, ◌++◌,
}
use mathlib.Core.Logic.{◌⊎◌, inl, inr}
use mathlib.Core.List.{Sublist, nil-sublist}
use mathlib.Core.List.Sublist
use mathlib.Core.Path.{subst}
use b80_key.Prelude.{if◌then◌else◌, ◌==◌, length, take, Bool-cases}
use b80_key.Printf.{Mode, in_text, printf_step, printf_loop, printed_chars}
use b80_key.Printf.Console.{
  SwsBuffer, Host, sws_buf_closed, sws_init, sws_ready, sws_putchar, sws_puts, IsOpen, waiting,
  put_lem, sws_putchar_lem, sws_puts_lem,
}

-- The host's answers from the n-th character on
abbrev pub later : ℕ → (ℕ → Host) → ℕ → Host
later zero host = host
later (suc n) host = later n (λ i. host (suc i))

module _ (memory : ℕ → ℕ → List ℕ) (string : ℕ → List ℕ) where
  -- The while loop over the format: what the host takes, and the buffer then.
  unfoldable pub send_loop : (ℕ → Host) → Mode → List ℕ → List ℕ → SwsBuffer → List ℕ × SwsBuffer
  send_loop host mode [] args p = ([], p)
  send_loop host mode (c ∷ format) args p =
      let step = printf_step memory string mode c args in
      let (out, p') = sws_puts host step.chars p in
      let (more, p'') = send_loop (later (length step.chars) host) step.mode format step.args p' in
      (out ++ more, p'')

  unfoldable pub sws_printf : (ℕ → Host) → List ℕ → List ℕ → SwsBuffer → List ℕ × SwsBuffer
  sws_printf host format args p =
      if p.len == sws_buf_closed
      then ([], sws_init p)
      else send_loop host in_text format args (sws_init p)

sws_puts-append :
    (xs ys : List ℕ) (host : ℕ → Host) (p : SwsBuffer)
    → sws_puts host (xs ++ ys) p ≡ (
        let (out, p') = sws_puts host xs p in
        let (more, p'') = sws_puts (later (length xs) host) ys p' in (out ++ more, p''))
unfolding sws_puts
sws_puts-append [] ys host p = refl
sws_puts-append (x ∷ xs) ys host p =
    let (out, p') = sws_putchar (host 0) x p in
    let host' = λ (i : ℕ). host (suc i) in
    let (more, p'') = sws_puts host' xs p' in
    let (last, p''') = sws_puts (later (length xs) host') ys p'' in
    ap (λ r. (out ++ r.0, r.1)) (sws_puts-append xs ys host' p')
    ∙ ap (λ l. (l, p''')) (sym (append_assoc out more last))

-- Character by character is the same as the characters of the call at once.
send_loop-sws_puts :
    (memory : ℕ → ℕ → List ℕ) (string : ℕ → List ℕ) (format args : List ℕ) (host : ℕ → Host)
    (mode : Mode) (p : SwsBuffer)
    → send_loop memory string host mode format args p
      ≡ sws_puts host (printf_loop memory string mode format args) p
unfolding send_loop printf_loop sws_puts
send_loop-sws_puts memory string [] args host mode p = refl
send_loop-sws_puts memory string (c ∷ format) args host mode p =
    let step = printf_step memory string mode c args in
    let (out, p') = sws_puts host step.chars p in
    ap (λ r. (out ++ r.0, r.1))
      (send_loop-sws_puts memory string format step.args (later (length step.chars) host) step.mode
        p')
    ∙ sym (sws_puts-append step.chars (printf_loop memory string step.mode format step.args) host p)

sws_init-IsOpen : (p : SwsBuffer) → IsOpen p → IsOpen (sws_init p)
sws_init-IsOpen p o = record { size = o.size; filled = o.filled; handed = o.handed; one = o.one }

not_closed : (p : SwsBuffer) → IsOpen p → p.len == sws_buf_closed ≡ false
not_closed p o = ground (arith, o.handed)

-- With an open buffer and a host that takes in time what is handed over, a call of sws_printf leaves
-- the buffer open and within its bounds, and passes on the characters that were waiting and then
-- those that the format and the arguments stand for, in order, up to those that wait then.
pub sws_printf-waiting :
    (memory : ℕ → ℕ → List ℕ) (string : ℕ → List ℕ) (host : ℕ → Host) (format args : List ℕ)
    (p : SwsBuffer)
    → ((i : ℕ) → (host i).takes ≡ true)
    → IsOpen p
    → let (out, p') = sws_printf memory string host format args p in
      IsOpen p' × (out ++ waiting p' ≡ waiting p ++ printed_chars memory string format args)
unfolding sws_printf
sws_printf-waiting memory string host format args p taken o =
    rw (not_closed p o, send_loop-sws_puts memory string format args host in_text (sws_init p))
      (sws_puts_lem (printed_chars memory string format args) host (sws_init p) taken
        (sws_init-IsOpen p o))

lost : (cs xs ys : List ℕ) → Sublist xs ys → Sublist xs (cs ++ ys)
lost [] xs ys s = s
lost (c ∷ cs) xs ys s = Sublist.cons c (lost cs xs ys s)

got : (cs xs ys : List ℕ) → Sublist xs ys → Sublist (cs ++ xs) (cs ++ ys)
got [] xs ys s = s
got (c ∷ cs) xs ys s = Sublist.cons-cons c (got cs xs ys s)

-- The buffer is closed, and nothing is in it that was not handed over.
record IsClosed (p : SwsBuffer) : Type 0 where
  size : length p.chars ≡ 253
  closed : p.len ≡ 255
  empty : p.cur_len ≡ 0

-- A character that is sent with an open buffer: it goes on as with a host that takes in time, or the
-- buffer is closed.
sws_putchar-IsOpen :
    (c : ℕ) (h : Host) (p : SwsBuffer)
    → IsOpen p
    → (IsOpen (sws_putchar h c p).1
        × ((sws_putchar h c p).0 ++ waiting (sws_putchar h c p).1 ≡ waiting p ++ (c ∷ [])))
      ⊎ (((sws_putchar h c p).0 ≡ []) × IsClosed (sws_putchar h c p).1)
unfolding sws_putchar sws_ready
sws_putchar-IsOpen c h p o =
    let takes : Host = record { opens = h.opens; takes = true } in
    let goes_on = sws_putchar_lem c takes p refl o in
    elim (Bool-cases h.takes) [
      | inl e ↦ inl (rw e goes_on)
      | inr e ↦ elim (Bool-cases (p.len == 0)) [
        | inl free ↦ inl (
            rw (not_closed p o, not_closed p o, free)
              (rw (not_closed p o, not_closed p o, free) at goes_on))
        | inr busy ↦ inr (
            rw (not_closed p o, not_closed p o, busy, e)
              (refl, record { size = o.size; closed = refl; empty = ground (arith, busy, o.one) }))
      ]
    ]

-- One that is sent with a closed buffer is lost, unless the host has opened the buffer again.
sws_putchar-IsClosed :
    (c : ℕ) (h : Host) (p : SwsBuffer)
    → IsClosed p
    → (IsOpen (sws_putchar h c p).1
        × ((sws_putchar h c p).0 ++ waiting (sws_putchar h c p).1 ≡ c ∷ []))
      ⊎ (((sws_putchar h c p).0 ≡ []) × IsClosed (sws_putchar h c p).1)
unfolding sws_putchar sws_ready
sws_putchar-IsClosed c h p k =
    let closed : p.len == sws_buf_closed ≡ true = ground (arith, k.closed) in
    elim (Bool-cases h.opens) [
      | inl e ↦
          let r =
            put_lem c (sws_init (record p { len = 0 })) k.size (omega (arith, k.empty)) refl in
          let nothing : take p.cur_len p.chars ≡ [] = ap (λ n. take n p.chars) k.empty in
          inl (rw (closed, e) (r.0, r.1 ∙ ap (λ l. l ++ (c ∷ [])) nothing))
      | inr e ↦ inr (
          rw (closed, e)
            (
              rw closed refl,
              rw closed (record { size = k.size; closed = k.closed; empty = k.empty }),
            ))
    ]

-- What is left of the characters after one of them, and what the host gets of them
sublist_after :
    (out got_next pending pending' cs : List ℕ)
    → out ++ pending' ≡ pending
    → Sublist got_next (pending' ++ cs)
    → Sublist (out ++ got_next) (pending ++ cs)
sublist_after out got_next pending pending' cs e s =
    subst (λ l. Sublist (out ++ got_next) l)
      (sym (append_assoc out pending' cs) ∙ ap (λ l. l ++ cs) e)
      (got out got_next (pending' ++ cs) s)

sws_puts-Sublist :
    (cs : List ℕ) (host : ℕ → Host) (p : SwsBuffer)
    → (IsOpen p → Sublist (sws_puts host cs p).0 (waiting p ++ cs))
      × (IsClosed p → Sublist (sws_puts host cs p).0 cs)
unfolding sws_puts
sws_puts-Sublist [] host p = ((λ o. nil-sublist _), (λ k. nil-sublist []))
sws_puts-Sublist (c ∷ cs) host p =
    let (out, p') = sws_putchar (host 0) c p in
    let later = λ (i : ℕ). host (suc i) in
    let more = (sws_puts later cs p').0 in
    let next = sws_puts-Sublist cs later p' in
    (
      (λ o. elim (sws_putchar-IsOpen c (host 0) p o) [
        | inl (o', e) ↦
            subst (Sublist (out ++ more)) (append_assoc (waiting p) (c ∷ []) cs)
              (sublist_after out more (waiting p ++ (c ∷ [])) (waiting p') cs e (next.0 o'))
        | inr (nothing, k) ↦
            subst (λ l. Sublist (l ++ more) (waiting p ++ (c ∷ cs))) (sym nothing)
              (lost (waiting p) more (c ∷ cs) (Sublist.cons c (next.1 k)))
      ]),
      (λ k. elim (sws_putchar-IsClosed c (host 0) p k) [
        | inl (o', e) ↦ sublist_after out more (c ∷ []) (waiting p') cs e (next.0 o')
        | inr (nothing, k') ↦
            subst (λ l. Sublist (l ++ more) (c ∷ cs)) (sym nothing) (Sublist.cons c (next.1 k'))
      ]),
    )

-- Whatever the host does during a call of sws_printf on an open buffer within its bounds - it takes
-- what is handed over, or lets the time run out, or opens a closed buffer again -, what it gets is a
-- sublist of the characters that were waiting and then those of the call: none twice, and none out of
-- order.
pub sws_printf-Sublist :
    (memory : ℕ → ℕ → List ℕ) (string : ℕ → List ℕ) (host : ℕ → Host) (format args : List ℕ)
    (p : SwsBuffer)
    → IsOpen p
    → Sublist
        (sws_printf memory string host format args p).0
        (waiting p ++ printed_chars memory string format args)
unfolding sws_printf
sws_printf-Sublist memory string host format args p o =
    rw (not_closed p o, send_loop-sws_puts memory string format args host in_text (sws_init p))
      ((sws_puts-Sublist (printed_chars memory string format args) host (sws_init p)).0
        (sws_init-IsOpen p o))
