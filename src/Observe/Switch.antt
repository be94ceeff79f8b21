-- ===== src/Observe/Switch.antt =====
-- When the observe firmware (src/app/observe.cpp) leaves digital mode: it depends on what is typed.
use mathlib.Core.List.{append_assoc, append-nil}
use pico_sg2hid.Common.{ℕ, ◌≡◌, none, some, List, [], ◌∷◌, ◌++◌, u32_sub}
use pico_sg2hid.Bus.{BusPort}
use pico_sg2hid.Command.{newline}
use pico_sg2hid.Host.{split}
use pico_sg2hid.Observe.Commanded.{is_commanded}
use pico_sg2hid.Observe.Heard.{
  Heard, mode_of, new_observer-Heard, poll_command-Heard, show-Heard, Heard-mode,
}
use pico_sg2hid.Observe.{
  Observing, Turn, asked, polled, new_observer, show, observe_once, poll_command, turn, turns,
}

-- The characters that the serial port gave.
abbrev pub typed_of : List Turn → List ℕ
typed_of [] = []
typed_of (asked none ∷ rest) = typed_of rest
typed_of (asked (some c) ∷ rest) = c ∷ typed_of rest
typed_of (polled start ∷ rest) = typed_of rest

module _ {S : Type 0} (port : BusPort S) where
  turns-Heard :
      (ts : List Turn) (text : List ℕ) (now : Observing S)
      → Heard text now.observer
      → Heard (text ++ typed_of ts) (turns port ts now).observer
  unfolding turns turn
  turns-Heard [] text now h = rw (append-nil text) h
  turns-Heard (asked none ∷ rest) text now h =
      turns-Heard rest text (turn port (asked none) now) (unfold poll_command in h)
  turns-Heard (asked (some c) ∷ rest) text now h =
      rw (← append_assoc text (c ∷ []) (typed_of rest)) (
        turns-Heard rest (text ++ c ∷ []) (turn port (asked (some c)) now)
          (poll_command-Heard text now.observer (some c) h))
  turns-Heard (polled start ∷ rest) text now h =
      turns-Heard rest text (turn port (polled start) now) (
        unfold observe_once show in
        show-Heard text now.observer _ start (u32_sub start now.poll_start) h)

  -- Since boot, over any bus and however the characters and the periods interleave: the observe
  -- firmware is in analog mode exactly if one of the lines that were typed to their end is
  -- `analog`, with or without a carriage return, and in digital mode otherwise.
  pub turns-is_commanded :
      (ts : List Turn) (start : ℕ) (s : S)
      → (turns port ts
          (record { observer = new_observer; poll_start = start; port = s })).observer.mode
        ≡ mode_of (is_commanded (split newline (typed_of ts)))
  turns-is_commanded ts start s =
      let now : Observing S = record { observer = new_observer; poll_start = start; port = s } in
      Heard-mode (typed_of ts) (turns port ts now).observer
        (turns-Heard ts [] now new_observer-Heard)
