-- ===== src/Printf/Wait.antt =====
-- The wait of sws_ready in src/sws_printf.c, with the system timer. `clock i` is the number of ticks
-- at the i-th call of clock_time, of which the code reads 32 bits, and `host i` says whether the host
-- has set len to 0 before the i-th round.
use b80_key.Prelude.{
  ℕ, zero, suc, ◌+◌, ◌-◌, ◌%◌, ◌^◌, ◌≤◌, ◌<◌, ◌≡◌, ◌≢◌, refl, inl, inr, arith, Bool, true, false,
  Option, none, some, List, [], ap, sym, ◌∙◌,
}
use b80_key.Prelude.{if◌then◌else◌, ◌==◌, ==_iff, ltb, take, Bool-cases}
use mathlib.Core.Option
use b80_key.Printf.Console.{SwsBuffer, sws_buf_closed, sws_init, sws_ready}

-- SWS_WAITING_TIMEOUT: 30 * CLOCK_16M_SYS_TIMER_CLK_1MS
abbrev pub sws_waiting_timeout : ℕ
sws_waiting_timeout = 480000

-- p->len at the i-th test of the loop
abbrev pub len_at : (ℕ → Bool) → SwsBuffer → ℕ → ℕ
len_at host p i = if host i then 0 else p.len

-- The while loop from round i on: whether the buffer became ready.
unfoldable pub wait_loop : ℕ → (ℕ → ℕ) → (ℕ → Bool) → SwsBuffer → ℕ → Option Bool
wait_loop zero clock host p i = none
wait_loop (suc fuel) clock host p i =
    let rest = wait_loop fuel clock host p (suc i) in
    if len_at host p i == 0
    then some true
    else if ltb sws_waiting_timeout
        ((clock (suc i) % 2 ^ 32 + (2 ^ 32 - clock 0 % 2 ^ 32)) % 2 ^ 32)
    then some false
    else rest

-- What the host has taken when the loop ends, and the buffer.
abbrev pub ready_after : SwsBuffer → Bool → Bool × List ℕ × SwsBuffer
ready_after p true = (true, take p.len p.chars, record (sws_init p) { len = 0 })
ready_after p false = (false, [], record (sws_init p) { len = sws_buf_closed })

-- sws_ready as the code has it: the answer and the buffer, with what the host has taken.
unfoldable pub wait_ready :
    ℕ → (ℕ → ℕ) → (ℕ → Bool) → SwsBuffer → Option (Bool × List ℕ × SwsBuffer)
wait_ready fuel clock host p =
    if p.len == sws_buf_closed
    then some (false, [], sws_init p)
    else Option.map (ready_after p) (wait_loop fuel clock host p 0)

-- The timer advances, by less than half of its range between two readings.
pub record IsTicking (clock : ℕ → ℕ) : Type 0 where
  pub advances : (i : ℕ) → clock i < clock (suc i)
  pub bounded : (i : ℕ) → clock (suc i) < clock i + 2 ^ 31

-- How the wait ends: the buffer was found free by a round that began within the timeout, or was
-- found busy in a round whose reading is behind the timeout.
pub data Ends (clock : ℕ → ℕ) (host : ℕ → Bool) (p : SwsBuffer) : Bool → Type 0 where
  free_in_time : (i : ℕ) → clock i ≤ clock 0 + 480000 → len_at host p i ≡ 0 → Ends clock host p true
  timed_out :
      (i : ℕ)
      → clock i ≤ clock 0 + 480000
      → clock 0 + 480000 < clock (suc i)
      → len_at host p i ≢ 0
      → Ends clock host p false

elapsed :
    (now start : ℕ)
    → start ≤ now
    → now < start + 2 ^ 32
    → (now % 2 ^ 32 + (2 ^ 32 - start % 2 ^ 32)) % 2 ^ 32 ≡ now - start
elapsed now start after before = omega arith

clock-from_start : (clock : ℕ → ℕ) → IsTicking clock → (i : ℕ) → clock 0 + i ≤ clock i
clock-from_start clock t zero = omega arith
clock-from_start clock t (suc i) = omega (arith, clock-from_start clock t i, t.advances i)

wait_loop_lem :
    (clock : ℕ → ℕ) (host : ℕ → Bool) (p : SwsBuffer) (fuel i : ℕ)
    → IsTicking clock
    → clock i ≤ clock 0 + 480000
    → 480001 ≤ i + fuel
    → (b : Bool) × (wait_loop fuel clock host p i ≡ some b) × Ends clock host p b
unfolding wait_loop
wait_loop_lem clock host p zero i t early enough =
    absurd (omega (arith, clock-from_start clock t i))
wait_loop_lem clock host p (suc fuel) i t early enough =
    let passed =
      elapsed (clock (suc i)) (clock 0) (omega (arith, clock-from_start clock t (suc i)))
        (omega (arith, t.bounded i, early)) in
    elim (Bool-cases (len_at host p i == 0)) [
      | inl free ↦ rw free (true, refl, free_in_time i early ((==_iff _ 0).0 free))
      | inr busy ↦
          rw (busy, passed)
            (elim (Bool-cases (ltb 480000 (clock (suc i) - clock 0))) [
              | inl late ↦
                  rw late
                    (false, refl, timed_out i early (ground (arith, late)) (ground (arith, busy)))
              | inr more ↦
                  rw more
                    (wait_loop_lem clock host p fuel (suc i) t (ground (arith, more)) (omega arith))
            ])
    ]

never_late : (host : ℕ → Bool) (p : SwsBuffer) (i : ℕ) → p.len ≡ 0 → len_at host p i ≡ 0
never_late host p i e = ground (arith, e)

timed_out-busy :
    (clock : ℕ → ℕ) (host : ℕ → Bool) (p : SwsBuffer) → Ends clock host p false → p.len ≢ 0
timed_out-busy clock host p (timed_out i early late busy) e = busy (never_late host p i e)

ready_after_lem :
    (clock : ℕ → ℕ) (host : ℕ → Bool) (p : SwsBuffer) (b : Bool)
    → p.len ≢ 255
    → Ends clock host p b
    → ready_after p b ≡ sws_ready b p
unfolding sws_ready
ready_after_lem clock host p true open_ ends =
    let not_closed : p.len == 255 ≡ false = ground (arith, open_) in
    elim (Bool-cases (p.len == 0)) [
      | inl e ↦
          let empty : p.len ≡ 0 = (==_iff _ 0).0 e in
          rw (not_closed, e)
            (ap (λ n. (true, take n p.chars, record (sws_init p) { len = 0 })) empty
              ∙ ap (λ n. (true, [], record (sws_init p) { len = n })) (sym empty))
      | inr e ↦ rw (not_closed, e) refl
    ]
ready_after_lem clock host p false open_ ends =
    let not_closed : p.len == 255 ≡ false = ground (arith, open_) in
    let busy : p.len == 0 ≡ false = ground (arith, timed_out-busy clock host p ends) in
    rw (not_closed, busy) refl

-- On a timer that advances, sws_ready of an open buffer ends within 480001 rounds: with a buffer that
-- a round found free within 30 ms, or closed because a round found it busy after them. It does what
-- the model of one call does with this answer.
pub wait_ready_lem :
    (clock : ℕ → ℕ) (host : ℕ → Bool) (p : SwsBuffer) (fuel : ℕ)
    → IsTicking clock
    → p.len ≢ 255
    → 480001 ≤ fuel
    → (b : Bool) × (wait_ready fuel clock host p ≡ some (sws_ready b p)) × Ends clock host p b
unfolding wait_ready
wait_ready_lem clock host p fuel t open_ enough =
    let (b, e, ends) = wait_loop_lem clock host p fuel 0 t (omega arith) (omega arith) in
    let not_closed : p.len == 255 ≡ false = ground (arith, open_) in
    (b, rw (not_closed, e) (ap some (ready_after_lem clock host p b open_ ends)), ends)
