-- ===== src/Printf/OutputTests.antt =====
-- Concrete output through the buffer and over the pin.
use b80_key.Prelude.{
  ℕ, ◌+◌, ◌*◌, ◌≡◌, inl, refl, arith, Bool, true, false, not, some, [], ◌∷◌, ◌++◌,
}
use b80_key.Prelude.{leb, map, replicate, ◌==◌}
use mathlib.Core.List.{Sublist}
use b80_key.Printf.{printed_chars}
use b80_key.Printf.Console.{SwsBuffer, Host, IsOpen, waiting, sws_ready}
use b80_key.Printf.Send.{sws_printf, sws_printf-waiting, sws_printf-Sublist}
use b80_key.Printf.Serial.{receive, level, others, sws_puts, receive-sws_puts}
use b80_key.Printf.Wait.{IsTicking, Ends, wait_ready, wait_ready_lem}

-- One character waits.
abbrev buffer : SwsBuffer
buffer = record { id = 0x55; len = 0; chars = 65 ∷ replicate 252 0; cur_len = 1 }

buffer-IsOpen : IsOpen buffer
buffer-IsOpen = record { size = refl; filled = omega arith; handed = omega arith; one = inl refl }

-- The host takes all in time.
abbrev in_time : ℕ → Host
in_time i = record { opens = false; takes = true }

-- "%d\n" with 12
sws_printf-waiting_example :
    let (out, p') =
      sws_printf (λ a n. []) (λ a. []) in_time (37 ∷ 100 ∷ 10 ∷ []) (12 ∷ []) buffer in
    IsOpen p'
    × (out ++ waiting p' ≡ 65 ∷ printed_chars (λ a n. []) (λ a. []) (37 ∷ 100 ∷ 10 ∷ []) (12 ∷ []))
sws_printf-waiting_example =
    sws_printf-waiting (λ a n. []) (λ a. []) in_time (37 ∷ 100 ∷ 10 ∷ []) (12 ∷ []) buffer
      (λ i. refl) buffer-IsOpen

-- The host takes nothing at the third character, and opens the buffer at the fifth.
abbrev late : ℕ → Host
late i = record { opens = i == 4; takes = not (i == 2) }

-- "\n%x\n" with 0x1234
sws_printf-Sublist_example :
    Sublist
      (sws_printf (λ a n. []) (λ a. []) late (10 ∷ 37 ∷ 120 ∷ 10 ∷ []) (0x1234 ∷ []) buffer).0
      (65 ∷ printed_chars (λ a n. []) (λ a. []) (10 ∷ 37 ∷ 120 ∷ 10 ∷ []) (0x1234 ∷ []))
sws_printf-Sublist_example =
    sws_printf-Sublist (λ a n. []) (λ a. []) late (10 ∷ 37 ∷ 120 ∷ 10 ∷ []) (0x1234 ∷ []) buffer
      buffer-IsOpen

-- "Hi" on the pin 7 of a port whose lowest pin is high
receive-sws_puts_example :
    let (writes, out') = sws_puts 7 (72 ∷ 105 ∷ []) 0x01 in
    (receive (map (level 7) writes) ≡ some (72 ∷ 105 ∷ []))
    × (map (others 7) writes ≡ replicate 20 (others 7 0x01))
    × (others 7 out' ≡ others 7 0x01)
receive-sws_puts_example =
    receive-sws_puts 7 (72 ∷ 105 ∷ []) 0x01 (omega arith) (omega arith) (omega arith, omega arith)

-- Three characters were handed over, and the host takes them before the fifth round.
abbrev handed_over : SwsBuffer
handed_over = record { id = 0x55; len = 3; chars = 65 ∷ 66 ∷ 10 ∷ replicate 250 0; cur_len = 0 }

abbrev clock : ℕ → ℕ
clock i = 4294967000 + 100 * i

clock-IsTicking : IsTicking clock
clock-IsTicking = record { advances = λ i. omega arith; bounded = λ i. omega arith }

wait_ready_example :
    (b : Bool) × (wait_ready 480001 clock (leb 5) handed_over ≡ some (sws_ready b handed_over))
    × Ends clock (leb 5) handed_over b
wait_ready_example =
    wait_ready_lem clock (leb 5) handed_over 480001 clock-IsTicking (omega arith) (omega arith)
