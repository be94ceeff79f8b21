-- ===== src/Observe/Rounds.antt =====
-- The rounds of `main` of src/app/observe.cpp: each ends, takes a period or more, and leaves the
-- mode that the characters read until then say.
use pico_sg2hid.Common.{
  ℕ, zero, suc, ◌+◌, ◌*◌, ◌/◌, ◌%◌, ◌≤◌, ◌<◌, ◌≡◌, refl, Option, some, List, [], arith, u32_sub,
  u32_mod,
}
use native.Mathlib.Nat.{suc-mul}
use pico_sg2hid.Host.{split}
use pico_sg2hid.Command.{newline}
use pico_sg2hid.Bus.{BusPort}
use pico_sg2hid.Observe.{Observer, new_observer, observe_once}
use pico_sg2hid.Observe.Commanded.{is_commanded}
use pico_sg2hid.Observe.Heard.{Heard, mode_of, new_observer-Heard, Heard-mode}
use pico_sg2hid.Observe.Running.{
  ObserveSdk, print_link_change, print_due, observe_round, observe_rounds, observe_main,
}
use pico_sg2hid.Observe.Paced.{
  ObserveClock, Serial, Opens, wait_port-ends, read_period-ends, observe_once-Heard,
}

module _ {S : Type 0} (sdk : ObserveSdk S) (port : BusPort S) (now_ns : S → ℕ)
    (clock : ObserveClock sdk port now_ns) (typed : S → List ℕ) (serial : Serial sdk port typed)
    (fuel : ℕ) (enough : 8001000 < fuel) where
  -- Between two rounds: a frame started at the time `begin`, and its start is noted.
  record Between (begin : ℕ) (observer : Observer) (noted : ℕ) (s : S) : Type 0 where
    heard : Heard (typed s) observer
    noted_is : noted ≡ begin / 1000 % u32_mod
    past : begin ≤ now_ns s
    recent : now_ns s ≤ begin + 100000000000

  -- So many rounds end, and the last frame starts so many periods or more behind `begin`.
  abbrev AfterRounds : ℕ → ℕ → Option (Observer × ℕ × S) → Type 0
  AfterRounds n begin outcome =
      (begin' : ℕ) × (observer : Observer) × (noted : ℕ) × (s : S) × (outcome
        ≡ some (observer, noted, s))
      × (begin / 1000 + (n * 8000) ≤ begin' / 1000)
      × Between begin' observer noted s

  observe_round-AfterRounds :
      (begin : ℕ) (observer : Observer) (noted : ℕ) (s : S)
      → Between begin observer noted s
      → AfterRounds 1 begin (observe_round sdk port fuel noted observer s)
  unfolding observe_round
  observe_round-AfterRounds begin observer noted s b =
      let past = b.past in
      let recent = b.recent in
      let l = clock.bus.lag_bound in
      let (observer₁, s₁, waits, heard₁, period, later, soon) =
        read_period-ends sdk port now_ns clock typed serial begin noted b.noted_is fuel observer s
          b.heard b.past (omega arith) (omega arith) (omega arith) in
      let (start, s₂) = sdk.time_us s₁ in
      let reads = clock.bus.passes s₁ in
      let elapsed_us = u32_sub start noted in
      let (observer₂, shown, s₃) = observe_once port observer₁ start elapsed_us s₂ in
      let s₄ = print_due sdk port shown.trace (print_link_change sdk port shown.link s₃) in
      let (heard₂, takes) =
        observe_once-Heard sdk port now_ns clock typed serial observer₁ start elapsed_us s₂
          (rw (serial.time_us s₁) heard₁) in
      (
        now_ns s₂,
        observer₂,
        start,
        s₄,
        rw (waits, observe_round) refl,
        omega arith,
        record {
          heard = heard₂;
          noted_is = clock.bus.reported s₁;
          past = omega arith;
          recent = omega arith;
        },
      )

  observe_rounds-AfterRounds :
      (n begin : ℕ) (observer : Observer) (noted : ℕ) (s : S)
      → Between begin observer noted s
      → AfterRounds n begin (observe_rounds sdk port fuel n noted observer s)
  unfolding observe_rounds
  observe_rounds-AfterRounds zero begin observer noted s b =
      (begin, observer, noted, s, refl, omega arith, b)
  observe_rounds-AfterRounds (suc n) begin observer noted s b =
      let (begin₁, observer₁, noted₁, s₁, one, period, b₁) =
        observe_round-AfterRounds begin observer noted s b in
      let (begin₂, observer₂, noted₂, s₂, more, periods, b₂) =
        observe_rounds-AfterRounds n begin₁ observer₁ noted₁ s₁ b₁ in
      (
        begin₂,
        observer₂,
        noted₂,
        s₂,
        rw (one, observe_rounds) more,
        rw (suc-mul n 8000) (omega arith),
        b₂,
      )

  -- Over any bus, where the host opens the serial port after some waits, each reading of the clock
  -- takes a nanosecond or more and no call in the loop longer than a second, the bus's wait beyond
  -- what it is asked to wait: every number of rounds of `main` of the observe firmware ends, and so
  -- many rounds take so many periods of 8 ms or more. Where nothing was read before, the firmware is
  -- then in analog mode exactly if a finished line of the characters that it read is `analog`, with
  -- or without a carriage return.
  pub observe_main-ends :
      (n waits : ℕ) (s : S)
      → Opens sdk waits s
      → waits < fuel
      → typed s ≡ []
      → (observer : Observer) × (poll_start : ℕ) × (s' : S) × (observe_main sdk port fuel n s
          ≡ some (observer, poll_start, s'))
        × (now_ns s / 1000 + (n * 8000) ≤ now_ns s' / 1000)
        × (observer.mode ≡ mode_of (is_commanded (split newline (typed s'))))
  unfolding observe_main
  observe_main-ends n waits s opens more e =
      let (s₁, i, later, same) =
        wait_port-ends sdk port now_ns clock typed serial waits fuel s opens more in
      let (start, s₂) = sdk.time_us s₁ in
      let reads = clock.bus.passes s₁ in
      let (begin, observer, noted, s', runs, periods, b) =
        observe_rounds-AfterRounds n (now_ns s₂) new_observer start s₂ (record {
          heard = rw (serial.time_us s₁, same, e) new_observer-Heard;
          noted_is = clock.bus.reported s₁;
          past = omega arith;
          recent = omega arith;
        }) in
      let past = b.past in
      (
        observer,
        noted,
        s',
        rw (i, observe_main) runs,
        omega arith,
        Heard-mode (typed s') observer b.heard,
      )
