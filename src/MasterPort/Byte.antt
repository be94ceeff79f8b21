-- ===== src/MasterPort/Byte.antt =====
-- One byte of the master's bus (src/hal/pio_port.cpp): its wait ends, and its calls of the SDK.
use mathlib.Core.List.{append_assoc}
use pico_sg2hid.Common.{
  Bool-cases, ℕ, ◌+◌, ◌*◌, ◌/◌, ◌%◌, ◌^◌, ◌≤◌, ◌<◌, ◌≡◌, ◌⊎◌, refl, subst, ap, ◌∙◌, inl, inr, Bool,
  true, false, Option, none, some, List, [], ◌∷◌, ◌++◌, arith, u8, ◌==◌, ==_iff, if◌then◌else◌,
  u32_mod, u32_sub,
}
use pico_sg2hid.Common.Bits.{passes, holds_of_byte}
use pico_sg2hid.Bus.{ByteExchange}
use pico_sg2hid.MasterPort.{
  MasterSdk, exchange_byte, finish_byte, recover, rx_within, tx_word, byte_budget_us, rx_byte_shift,
}
use pico_sg2hid.MasterPort.Clock.{Clock, has_received, rx_within-Ended, time_us-elapsed}
use pico_sg2hid.MasterPort.Calls.{
  Call, timed, disabled, restored, put, got, recording, recorded_clock, Polls, rx_asked, gave_up,
  recover-log, Asked-Polls,
}

-- A FIFO word is the byte, and a ninth bit that says whether to wait for ACK.
tx_word-byte :
    (out : ℕ) (should_wait_ack : Bool)
    → out < 256
    → tx_word out should_wait_ack ≡ out + (if should_wait_ack then 256 else 0)
unfolding passes
tx_word-byte out true h =
    (==_iff (tx_word out true) (out + 256)).0
      (holds_of_byte (λ byte. tx_word byte true == byte + 256) out refl h)
tx_word-byte out false h =
    (==_iff (tx_word out false) (out + 0)).0
      (holds_of_byte (λ byte. tx_word byte false == byte + 0) out refl h)

-- A wait for a word notes the question.
pub rx_asked-noted :
    {S : Type 0} (sdk : MasterSdk S) (s : S × List Call)
    → (has_received (recording sdk) s).1.1 ≡ s.1 ++ rx_asked (has_received (recording sdk) s).0 ∷ []
rx_asked-noted sdk (s, log) = elim (Bool-cases (sdk.rx_is_empty s).0) [
  | inl e ↦ rw e refl
  | inr e ↦ rw e refl
]

module _ {S : Type 0} (sdk : MasterSdk S) (now_ns : S → ℕ) (clock : Clock sdk now_ns) where
  module _ (out : ℕ) (should_wait_ack : Bool) (s : S) where
    abbrev irq_state : ℕ
    irq_state = (sdk.disable_interrupts s).0

    -- How a byte ends, by whether a word came.
    abbrev Ending : Bool → ByteExchange → List Call → Type 0
    Ending is_complete exchange ending =
        ((is_complete ≡ true)
          × (received : ℕ) × (exchange.in_byte ≡ some (u8 (received / 2 ^ 24)))
          × (ending ≡ got received ∷ []))
        ⊎ ((is_complete ≡ false)
            × (exchange.in_byte ≡ none)
            × (132 < exchange.elapsed_us)
            × (ending ≡ gave_up))

    -- The bytes and the calls of an exchange that puts this word.
    abbrev pub ByteOutcome : ℕ → Option (ByteExchange × (S × List Call)) → Type 0
    ByteOutcome word outcome =
        (exchange : ByteExchange) × (s' : S) × (start : ℕ) × (now : ℕ) × (wait : List Call)
        × (ending : List Call) × (is_complete : Bool) × (outcome
            ≡ some (
              exchange,
              (
                s',
                disabled irq_state
                    ∷ timed start
                    ∷ put word
                    ∷ (wait ++ timed now ∷ restored irq_state ∷ ending),
              ),
            ))
        × Polls rx_asked start 132 wait is_complete
        × Ending is_complete exchange ending
        × (exchange.elapsed_us ≡ u32_sub now start)
        × (exchange.elapsed_us * 1000 ≤ 134000 + (4 * clock.lag))

    -- Behind the wait, which began at `begin`: on both ways the calls, and the time that is noted.
    finish_byte-ByteOutcome :
        (word begin : ℕ) (is_complete : Bool) (s₄ : S) (wait : List Call)
        → Polls rx_asked (begin / 1000 % u32_mod) 132 wait is_complete
        → begin ≤ now_ns s₄
        → now_ns s₄ ≤ begin + 133000 + (3 * clock.lag)
        → (is_complete ≡ true)
          ⊎ ((is_complete ≡ false) × (begin / 1000 + byte_budget_us < now_ns s₄ / 1000))
        → let start = begin / 1000 % u32_mod in
          let log = disabled irq_state ∷ timed start ∷ put word ∷ wait in
          ByteOutcome word
            (some (finish_byte (recording sdk) irq_state start is_complete (s₄, log)))
    unfolding finish_byte
    finish_byte-ByteOutcome word begin is_complete s₄ wait p n u w =
        let l = clock.lag_bound in
        let (now, s₅) = sdk.time_us s₄ in
        let q = clock.passes s₄ in
        let q' = clock.time_us s₄ in
        let start = begin / 1000 % u32_mod in
        let log = disabled irq_state ∷ timed start ∷ put word ∷ wait in
        let elapsed = time_us-elapsed sdk now_ns clock begin s₄ (omega arith) (omega arith) in
        let elapsed_us = u32_sub now start in
        let s₆ = sdk.restore_interrupts irq_state s₅ in
        let log₂ = (log ++ timed now ∷ []) ++ restored irq_state ∷ [] in
        let joins = λ (ending : List Call).
          append_assoc (log ++ timed now ∷ []) (restored irq_state ∷ []) ending
          ∙ append_assoc log (timed now ∷ []) (restored irq_state ∷ ending) in
        elim w [
          | inl is_yes ↦
              let (received, s₇) = sdk.sm_get s₆ in
              let exchange : ByteExchange = record {
                in_byte = some (u8 (received / 2 ^ rx_byte_shift));
                elapsed_us = elapsed_us;
              } in
              (
                exchange,
                s₇,
                start,
                now,
                wait,
                got received ∷ [],
                is_complete,
                rw (is_yes, finish_byte) refl
                    ∙ ap (λ l. some (exchange, (s₇, l))) (joins (got received ∷ [])),
                p,
                inl (is_yes, received, refl, refl),
                refl,
                omega arith,
              )
          | inr (is_no, over) ↦
              let exchange : ByteExchange = record { in_byte = none; elapsed_us = elapsed_us } in
              (
                exchange,
                recover sdk s₆,
                start,
                now,
                wait,
                gave_up,
                is_complete,
                rw (is_no, finish_byte) refl
                    ∙ ap (λ after. some (exchange, after)) (recover-log sdk s₆ log₂)
                    ∙ ap (λ l. some (exchange, (recover sdk s₆, l))) (joins gave_up),
                p,
                inr (is_no, refl, omega arith, refl),
                refl,
                omega arith,
              )
        ]

    exchange_byte-ByteOutcome :
        (fuel : ℕ)
        → 133000 < fuel
        → ByteOutcome
            (tx_word out should_wait_ack)
            (exchange_byte (recording sdk) fuel out should_wait_ack (s, []))
    unfolding exchange_byte
    exchange_byte-ByteOutcome fuel f =
        let s₁ = (sdk.disable_interrupts s).1 in
        let s₂ = (sdk.time_us s₁).1 in
        let begin = now_ns s₂ in
        let start = begin / 1000 % u32_mod in
        let word = tx_word out should_wait_ack in
        let s₃ = sdk.sm_put word s₂ in
        let (p, p') = clock.sm_put word s₂ in
        let l = clock.lag_bound in
        let read : (sdk.time_us s₁).0 ≡ start = clock.reported s₁ in
        let sent = λ (first : ℕ). disabled irq_state ∷ timed first ∷ put word ∷ [] in
        let (d, (s₄, log), o, a, n, u, w) =
          rx_within-Ended (recording sdk) (λ (s, log). now_ns s) (recorded_clock sdk now_ns clock)
            begin (begin + 133000 + clock.lag) fuel (s₃, sent start) byte_budget_us (omega arith)
            (omega arith) (omega arith) (omega arith) (omega arith) (omega arith) in
        let (wait, is_log, polls) =
          Asked-Polls sdk (has_received (recording sdk)) rx_asked (rx_asked-noted sdk) start
            byte_budget_us a in
        let finish = λ (first : ℕ) (l : List Call).
          some (finish_byte (recording sdk) irq_state first d (s₄, l)) in
        let waited =
          ap (λ first. rx_within (recording sdk) fuel first byte_budget_us (s₃, sent first)) read
          ∙ o in
        let ended : exchange_byte (recording sdk) fuel out should_wait_ack (s, [])
            ≡ finish (sdk.time_us s₁).0 log =
          rw (waited, exchange_byte) refl in
        rw (ended ∙ ap (λ first. finish first log) read ∙ ap (finish start) is_log)
          (finish_byte-ByteOutcome word begin d s₄ wait polls (omega arith) (omega arith) w)

    -- The hardware is a parameter, with a clock that goes on. With more fuel than the nanoseconds of
    -- the budget, a byte's exchange returns. With every call of the SDK noted with what it gave, its
    -- calls are these and no other: it disables the interrupts, reads the clock, and puts a word of
    -- the byte with the ACK flag as the ninth bit; it asks whether a word has come, and reads the
    -- clock behind each no, until one has or more than the budget of 132 microseconds has passed
    -- since the first reading; it reads the clock and restores the interrupts as they were. Then,
    -- where a word has come, it takes it and gives that word's top byte, and where the budget is
    -- over it stops, empties, restarts and starts the state machine and gives nothing. The time it
    -- notes is from the first reading to the last, and goes beyond 134 microseconds by no more than
    -- four of the hardware's calls take.
    pub exchange_byte-calls :
        (fuel : ℕ)
        → 133000 < fuel
        → out < 256
        → ByteOutcome
            (out + (if should_wait_ack then 256 else 0))
            (exchange_byte (recording sdk) fuel out should_wait_ack (s, []))
    exchange_byte-calls fuel f h =
        subst
          (λ word.
            ByteOutcome word (exchange_byte (recording sdk) fuel out should_wait_ack (s, [])))
          (tx_word-byte out should_wait_ack h) (exchange_byte-ByteOutcome fuel f)
