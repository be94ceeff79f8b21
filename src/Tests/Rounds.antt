-- ===== src/Tests/Rounds.antt =====
-- A round of the emulator firmware over a master that starts a frame and gives it up again and again.
use pico_sg2hid.Common.{
  ℕ, ◌<◌, ◌≡◌, Bool, true, false, Option, none, some, List, [], ◌∷◌, ◌++◌, arith,
}
use pico_sg2hid.Command.{newline}
use pico_sg2hid.Emulator.{new_model, reset}
use pico_sg2hid.Emulator.Frames.{serve}
use pico_sg2hid.Serving.{DevicePort, new_reader, round}
use pico_sg2hid.Serving.Line.{feed}
use pico_sg2hid.Serving.Calls.{Event, rearmed, taken, typed_chars, recording, Idles, Serves}
use pico_sg2hid.Serving.Runs.{LetsGo}
use pico_sg2hid.Serving.Rounds.{ComesBack, at, round-feed}

-- ATT by its readings: high twice, low four times, and so on.
data Phase : Type 0 where
  resting typing first second third last : Phase

abbrev next_phase : Phase → Bool × Phase
next_phase resting = (true, typing)
next_phase typing = (true, first)
next_phase first = (false, second)
next_phase second = (false, third)
next_phase third = (false, last)
next_phase last = (false, resting)

abbrev highs : Phase → ℕ
highs resting = 2
highs typing = 1
highs _ = 0

abbrev lows : Phase → ℕ
lows first = 4
lows second = 3
lows third = 2
lows last = 1
lows _ = 0

-- The phase, the bytes that the master sends and the characters of the serial port.
abbrev Bench : Type 0
Bench = Phase × List ℕ × List ℕ

abbrev next_of : List ℕ → Option ℕ × List ℕ
next_of [] = (none, [])
next_of (x ∷ xs) = (some x, xs)

abbrev bench : DevicePort Bench
bench = record {
  restart = λ s. s;
  take_byte =
      λ (phase, bytes, chars). let (byte, rest) = next_of bytes in (byte, (phase, rest, chars));
  answer = λ _ _ s. s;
  att_is_high = λ (phase, bytes, chars).
      let (level, after) = next_phase phase in (level, (after, bytes, chars));
  time_us = λ s. (0, s);
  get_char = λ (phase, bytes, chars). let (c, rest) = next_of chars in (c, (phase, bytes, rest));
}

high-highs :
    (phase : Phase) → (next_phase phase).0 ≡ true → highs (next_phase phase).1 < highs phase
high-highs resting e = omega arith
high-highs typing e = omega arith
high-highs first e = ground arith
high-highs second e = ground arith
high-highs third e = ground arith
high-highs last e = ground arith

low-lows : (phase : Phase) → (next_phase phase).0 ≡ false → lows (next_phase phase).1 < lows phase
low-lows resting e = ground arith
low-lows typing e = ground arith
low-lows first e = omega arith
low-lows second e = omega arith
low-lows third e = omega arith
low-lows last e = omega arith

few_highs : (phase : Phase) → highs phase < 9
few_highs resting = omega arith
few_highs typing = omega arith
few_highs first = omega arith
few_highs second = omega arith
few_highs third = omega arith
few_highs last = omega arith

few_lows : (phase : Phase) → lows phase < 9
few_lows resting = omega arith
few_lows typing = omega arith
few_lows first = omega arith
few_lows second = omega arith
few_lows third = omega arith
few_lows last = omega arith

bench-ComesBack : ComesBack bench (λ s. highs s.0)
bench-ComesBack = record {
  high = λ s. high-highs s.0;
  take = λ s. omega arith;
  restart = λ s. omega arith;
  get_char = λ s. omega arith;
}

bench-LetsGo : LetsGo bench (λ s. lows s.0)
bench-LetsGo = record {
  low = λ s. low-lows s.0;
  take = λ s. omega arith;
  answer = λ s _ _. omega arith;
  time = λ s. omega arith;
}

-- The bytes of a poll, and a line of one character.
abbrev on_bench : Bench
on_bench = (resting, 0x01 ∷ 0x42 ∷ 0x00 ∷ [], b'm' ∷ newline ∷ [])

round-feed_example :
    (idled : List Event) × (served : List Event) × (s' : Bench) × (let (reader', m', _) =
        feed new_reader new_model (typed_chars idled) in
      let after = (serve (reset m') (taken served)).1 in
      (round (recording bench) 9 (at bench (new_reader, new_model) on_bench [])
        ≡ some (at bench (reader', after) s' ((rearmed ∷ idled) ++ served)))
      × Idles new_reader new_model idled reader' m'
      × Serves (reset m') served after)
round-feed_example =
    round-feed bench (λ s. highs s.0) bench-ComesBack (λ s. lows s.0) 9 new_reader new_model
      on_bench bench-LetsGo (λ s. few_highs s.0) (λ s. few_lows s.0)
