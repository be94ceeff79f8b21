-- ===== src/Tests/Watching.antt =====
-- `main` of src/app/observe.cpp on a concrete hardware: a clock that every call moves on, a host that
-- opens the serial port after 20 ms and then types `analog`.
use mathlib.Core.List.{append-nil}
use pico_sg2hid.Common.{
  ℕ, ◌+◌, ◌*◌, ◌/◌, ◌%◌, ◌≤◌, ◌≡◌, refl, sym, inr, Option, none, some, List, [], ◌∷◌, ◌++◌, arith,
  leb, u32_mod,
}
use pico_sg2hid.Host.{split}
use pico_sg2hid.Command.{newline}
use pico_sg2hid.Bus.{BusPort}
use pico_sg2hid.MasterPort.Clock.{Within}
use pico_sg2hid.Observe.{Observer}
use pico_sg2hid.Observe.Commanded.{is_commanded}
use pico_sg2hid.Observe.Heard.{mode_of, given}
use pico_sg2hid.Observe.Running.{ObserveSdk, observe_main}
use pico_sg2hid.Observe.Paced.{ObserveClock, Serial}
use pico_sg2hid.Observe.Rounds.{observe_main-ends}

-- The time in nanoseconds, what has been read, and what waits to be read.
record Bench : Type 0 where
  now : ℕ
  typed : List ℕ
  waiting : List ℕ

abbrev later : ℕ → Bench → Bench
later ns bench = record bench { now = bench.now + ns }

abbrev take_waiting : List ℕ → Bench → Option ℕ × Bench
take_waiting [] bench = (none, later 100 bench)
take_waiting (c ∷ rest) bench =
    (some c, record (later 100 bench) { typed = bench.typed ++ c ∷ []; waiting = rest })

abbrev bench_sdk : ObserveSdk Bench
bench_sdk = record {
  time_us = λ bench. ((bench.now + 500) / 1000 % u32_mod, later 500 bench);
  get_char = λ bench. take_waiting bench.waiting bench;
  is_connected = λ bench. (leb 20000000 bench.now, bench);
  sleep_ms = λ ms bench. later (ms * 1000000) bench;
  print = λ _ bench. later 2000 bench;
}

-- No byte is answered.
abbrev bench_bus : BusPort Bench
bench_bus = record {
  att_assert = λ bench. bench;
  att_release = λ bench. bench;
  bus_wait_us = λ us bench. later (us * 1000 + 300) bench;
  exchange_byte = λ _ _ bench. (record { in_byte = none; elapsed_us = 132 }, later 132000 bench);
}

take_waiting-Within :
    (waiting : List ℕ) (bench : Bench) → Within 200000 bench.now (take_waiting waiting bench).1.now
take_waiting-Within [] bench = omega arith
take_waiting-Within (c ∷ rest) bench = omega arith

take_waiting-given :
    (waiting : List ℕ) (bench : Bench)
    → (take_waiting waiting bench).1.typed ≡ bench.typed ++ given (take_waiting waiting bench).0
take_waiting-given [] bench = sym (append-nil bench.typed)
take_waiting-given (c ∷ rest) bench = refl

bench_clock : ObserveClock bench_sdk bench_bus (λ bench. bench.now)
bench_clock = record {
  bus = record {
    lag = 200000;
    lag_bound = omega arith;
    reported = λ bench. refl;
    passes = λ bench. omega arith;
    reads = λ bench. omega arith;
    att_assert = λ bench. omega arith;
    att_release = λ bench. omega arith;
    bus_wait_us = λ us bench. omega arith;
    exchange_byte = λ _ _ bench. omega arith;
  };
  get_char = λ bench. take_waiting-Within bench.waiting bench;
  print = λ _ bench. omega arith;
  is_connected = λ bench. omega arith;
  sleep_ms = λ ms bench. omega arith;
}

bench-Serial : Serial bench_sdk bench_bus (λ bench. bench.typed)
bench-Serial = record {
  get_char = λ bench. take_waiting-given bench.waiting bench;
  time_us = λ bench. refl;
  is_connected = λ bench. refl;
  sleep_ms = λ _ bench. refl;
  print = λ _ bench. refl;
  bus = record {
    att_assert = λ bench. refl;
    att_release = λ bench. refl;
    bus_wait_us = λ _ bench. refl;
    exchange_byte = λ _ _ bench. refl;
  };
}

abbrev powered : Bench
powered = record {
  now = 7;
  typed = [];
  waiting = b'a' ∷ b'n' ∷ b'a' ∷ b'l' ∷ b'o' ∷ b'g' ∷ newline ∷ [];
}

observe_main-ends_example :
    (observer : Observer) × (poll_start : ℕ) × (bench : Bench) × (observe_main bench_sdk bench_bus
        9000000 30 powered
      ≡ some (observer, poll_start, bench))
    × (7 / 1000 + (30 * 8000) ≤ bench.now / 1000)
    × (observer.mode ≡ mode_of (is_commanded (split newline bench.typed)))
observe_main-ends_example =
    observe_main-ends bench_sdk bench_bus (λ bench. bench.now) bench_clock (λ bench. bench.typed)
      bench-Serial 9000000 (omega arith) 30 2 powered (inr (inr refl)) (omega arith) refl
