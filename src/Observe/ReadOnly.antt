-- ===== src/Observe/ReadOnly.antt =====
-- What the observe firmware (src/app/observe.cpp) sends while it is in digital mode.
use mathlib.Core.List.{append-nil, append_assoc}
use pico_sg2hid.Common.{
  ℕ, ◌≡◌, refl, sym, ap, ◌∙◌, Option, none, some, List, [], ◌∷◌, ◌++◌, true, arith, inl, inr, ◌⊎◌,
}
use pico_sg2hid.Protocol.{att_setup_us}
use pico_sg2hid.Command.{LineEvent}
use pico_sg2hid.Bus.{BusPort, exchange_frame}
use pico_sg2hid.Bus.Events.{Event, asserted, released, waited, recording, sends, exchange_frame-log}
use pico_sg2hid.Observe.{
  Mode, Observer, Observing, Turn, asked, polled, new_observer, read_poll, answer, poll_command,
  frame_to_send, judge, show, observe_once, turn, turns,
}

-- The calls of one exchange of the read poll of which `done` bytes complete.
abbrev pub read_calls : ℕ → List Event
read_calls done =
    asserted ∷ waited att_setup_us ∷ sends true done (frame_to_send read_poll) ++ released ∷ []

-- The calls of read polls, one behind another.
abbrev pub read_polls : List ℕ → List Event
read_polls [] = []
read_polls (done ∷ dones) = read_calls done ++ read_polls dones

pub Mode-cases : (m : Mode) → (m ≡ Mode.digital) ⊎ (m ≡ Mode.analog)
Mode-cases Mode.digital = inl refl
Mode-cases Mode.analog = inr refl

answer-analog :
    (e : LineEvent) (observer : Observer)
    → observer.mode ≡ Mode.analog
    → (answer e observer).0.mode ≡ Mode.analog
unfolding answer
answer-analog LineEvent.pending observer h = h
answer-analog LineEvent.unknown observer h = h
answer-analog LineEvent.analog observer h = refl

poll_command-analog :
    (c : Option ℕ) (observer : Observer)
    → observer.mode ≡ Mode.analog
    → (poll_command c observer).0.mode ≡ Mode.analog
unfolding poll_command
poll_command-analog none observer h = h
poll_command-analog (some c) observer h = answer-analog _ _ h

module _ {S : Type 0} (port : BusPort S) where
  turn-analog :
      (t : Turn) (now : Observing S)
      → now.observer.mode ≡ Mode.analog
      → (turn port t now).observer.mode ≡ Mode.analog
  unfolding turn observe_once show judge
  turn-analog (asked c) now h = poll_command-analog c now.observer h
  turn-analog (polled start) now h = rw h refl

  turns-analog :
      (ts : List Turn) (now : Observing S)
      → now.observer.mode ≡ Mode.analog
      → (turns port ts now).observer.mode ≡ Mode.analog
  unfolding turns
  turns-analog [] now h = h
  turns-analog (t ∷ rest) now h = turns-analog rest (turn port t now) (turn-analog t now h)

module _ {S : Type 0} (port : BusPort S) where
  polled-log :
      (start : ℕ) (now : Observing (S × List Event))
      → now.observer.mode ≡ Mode.digital
      → (done : ℕ) × ((turn (recording port) (polled start) now).port.1
          ≡ now.port.1 ++ read_calls done)
  unfolding turn observe_once
  polled-log start now h = (
    (exchange_frame (recording port) (frame_to_send read_poll) now.port).done,
    rw h (exchange_frame-log port (frame_to_send read_poll) now.port.0 now.port.1),
  )

  turns-log :
      (ts : List Turn) (now : Observing (S × List Event))
      → (turns (recording port) ts now).observer.mode ≡ Mode.digital
      → (dones : List ℕ) × ((turns (recording port) ts now).port.1 ≡ now.port.1 ++ read_polls dones)
  unfolding turns turn
  turns-log [] now h = ([], sym (append-nil now.port.1))
  turns-log (asked c ∷ rest) now h = turns-log rest (turn (recording port) (asked c) now) h
  turns-log (polled start ∷ rest) now h = elim (Mode-cases now.observer.mode) [
    | inl e ↦
        let (done, one) = polled-log start now e in
        let (dones, more) = turns-log rest (turn (recording port) (polled start) now) h in
        (
          done ∷ dones,
          more
              ∙ ap (λ log. log ++ read_polls dones) one
              ∙ append_assoc now.port.1 (read_calls done) _,
        )
    | inr e ↦ absurd (
        let a =
          turns-analog (recording port) rest (turn (recording port) (polled start) now)
            (turn-analog (recording port) (polled start) now e) in
        ground arith)
  ]

  -- As long as the firmware has not been switched to analog mode, it is read-only: since boot, over
  -- any bus and whatever came over the serial port, the calls of the port are those of exchanges of
  -- the read poll and no others.
  pub turns-read_polls :
      (ts : List Turn) (start : ℕ) (s : S)
      → (turns
          (recording port)
          ts
          (record { observer = new_observer; poll_start = start; port = (s, []) })).observer.mode
        ≡ Mode.digital
      → (dones : List ℕ) × ((turns
            (recording port)
            ts
            (record { observer = new_observer; poll_start = start; port = (s, []) })).port.1
          ≡ read_polls dones)
  turns-read_polls ts start s h = turns-log ts _ h
