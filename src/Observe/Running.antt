-- ===== src/Observe/Running.antt =====
-- `main` of src/app/observe.cpp on its hardware: the wait for the host to open the serial port, the
-- characters that are read until the next period, a frame and the lines that it prints. The Pico
-- SDK's calls are a parameter, and so is the bus port. A wait takes fuel, and gives `none` when that
-- runs out.
use pico_sg2hid.Common.{
  ℕ, zero, suc, Bool, true, false, Option, none, some, List, [], ◌∷◌, ltb, u32_sub,
}
use pico_sg2hid.Protocol.{poll_period_us}
use pico_sg2hid.Link.{LinkState, FaultCause}
use pico_sg2hid.Trace.{WireByte}
use pico_sg2hid.Bus.{BusPort}
use pico_sg2hid.Console.{print_link, print_trace}
use pico_sg2hid.Observe.{
  Observer, Answer, ok_analog, unknown_command, new_observer, poll_command, observe_once,
}

abbrev pub port_wait_ms : ℕ
port_wait_ms = 10

-- `get_char` does not wait, and gives `none` for `PICO_ERROR_TIMEOUT`; `is_connected` is whether the
-- host has opened the serial port.
pub record ObserveSdk (S : Type 0) : Type 0 where
  pub time_us : S → ℕ × S
  pub get_char : S → Option ℕ × S
  pub is_connected : S → Bool × S
  pub sleep_ms : ℕ → S → S
  pub print : List ℕ → S → S

abbrev pub answer_text : Answer → List ℕ
answer_text ok_analog = b'o' ∷ b'k' ∷ b':' ∷ 32 ∷ b'a' ∷ b'n' ∷ b'a' ∷ b'l' ∷ b'o' ∷ b'g' ∷ 10 ∷ []
answer_text unknown_command =
    b'e' ∷ b'r' ∷ b'r' ∷ b'o' ∷ b'r' ∷ b':' ∷ 32 ∷ b'u' ∷ b'n' ∷ b'k' ∷ b'n' ∷ b'o' ∷ b'w' ∷ b'n'
    ∷ 32 ∷ b'c' ∷ b'o' ∷ b'm' ∷ b'm' ∷ b'a' ∷ b'n' ∷ b'd' ∷ 10 ∷ []

module _ {S : Type 0} (sdk : ObserveSdk S) (port : BusPort S) where
  -- `while ( !stdio_usb_connected( ) ) sleep_ms( kPortWaitMs )`.
  unfoldable pub wait_port : ℕ → S → Option S
  wait_port zero s = none
  wait_port (suc fuel) s =
      let (is_open, s₁) = sdk.is_connected s in
      elim is_open [ true ↦ some s₁ | false ↦ wait_port fuel (sdk.sleep_ms port_wait_ms s₁) ]

  abbrev pub print_answer : Option Answer → S → S
  print_answer none s = s
  print_answer (some reply) s = sdk.print (answer_text reply) s

  -- `poll_command` with its reading and its printing.
  unfoldable pub read_command : Observer → S → Observer × S
  read_command observer s =
      let (c, s₁) = sdk.get_char s in
      let (observer', reply) = poll_command c observer in (observer', print_answer reply s₁)

  -- `while ( time_us_32( ) - poll_start < ps2::kPollPeriodUs ) poll_command( observer )`.
  unfoldable pub read_period : ℕ → ℕ → Observer → S → Option (Observer × S)
  read_period zero poll_start observer s = none
  read_period (suc fuel) poll_start observer s =
      let (now, s₁) = sdk.time_us s in
      elim (ltb (u32_sub now poll_start) poll_period_us) [
        | true ↦
            (let (observer', s₂) = read_command observer s₁ in
              read_period fuel poll_start observer' s₂)
        | false ↦ some (observer, s₁)
      ]

  abbrev pub print_link_change : Option (LinkState × LinkState × FaultCause) → S → S
  print_link_change none s = s
  print_link_change (some (was, now, fault)) s = sdk.print (print_link was now fault) s

  abbrev pub print_due : Option (List WireByte × ℕ) → S → S
  print_due none s = s
  print_due (some (frame, completed)) s = sdk.print (print_trace frame completed) s

  -- A round of the `for ( ;; )` loop: the observer and its `poll_start`.
  unfoldable pub observe_round : ℕ → ℕ → Observer → S → Option (Observer × ℕ × S)
  observe_round fuel poll_start observer s = elim (read_period fuel poll_start observer s) [
    | none ↦ none
    | some (observer₁, s₁) ↦
        (let (start, s₂) = sdk.time_us s₁ in
          let elapsed_us = u32_sub start poll_start in
          let (observer₂, shown, s₃) = observe_once port observer₁ start elapsed_us s₂ in
          some (observer₂, start, print_due shown.trace (print_link_change shown.link s₃)))
  ]

  unfoldable pub observe_rounds : ℕ → ℕ → ℕ → Observer → S → Option (Observer × ℕ × S)
  observe_rounds fuel zero poll_start observer s = some (observer, poll_start, s)
  observe_rounds fuel (suc n) poll_start observer s =
      elim (observe_round fuel poll_start observer s) [
        | none ↦ none
        | some (observer', poll_start', s') ↦ observe_rounds fuel n poll_start' observer' s'
      ]

  -- `main` behind the calls that start the hardware: so many rounds of its loop.
  unfoldable pub observe_main : ℕ → ℕ → S → Option (Observer × ℕ × S)
  observe_main fuel n s = elim (wait_port fuel s) [
    | none ↦ none
    | some s₁ ↦ (let (start, s₂) = sdk.time_us s₁ in observe_rounds fuel n start new_observer s₂)
  ]
