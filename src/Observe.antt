-- ===== src/Observe.antt =====
-- The observe firmware (src/app/observe.cpp): its serial commands and its frames. What the serial
-- port gives and the clock's readings are arguments, the bus port a parameter, and what is printed
-- is a value.
pub mod ReadOnly
pub mod Commanded
pub mod Heard
pub mod Switch
pub mod Running
pub mod Paced
pub mod Rounds
use pico_sg2hid.Common.{
  ℕ, ◌+◌, Bool, true, false, not, Option, none, some, List, [], ◌∷◌, if◌then◌else◌, u32_sub, length,
  take, replicate,
}
use pico_sg2hid.Protocol.{frame_start, cmd_poll, pad_byte}
use pico_sg2hid.Link.{Link, LinkState, FaultCause, absent, new_link, state_eq, step}
use pico_sg2hid.Trace.{WireByte, zero_wire}
use pico_sg2hid.Filter.{
  TracedFrame, TraceFilter, new_filter, max_traced_len, is_trace_due, note_printed,
}
use pico_sg2hid.Command.{LineEvent, CommandLine, new_line, take_char}
use pico_sg2hid.Command
use pico_sg2hid.Poll.{decode_poll}
use pico_sg2hid.Negotiation.{Master, new_master, Exchanged, command_for, advance}
use pico_sg2hid.Bus.{BusPort, exchange_frame}
use pico_sg2hid.Firmware.{put_outs}

abbrev pub read_poll : List ℕ
read_poll = frame_start ∷ cmd_poll ∷ pad_byte ∷ pad_byte ∷ pad_byte ∷ []

pub data Mode : Type 0 where
  digital analog : Mode

pub record Observer : Type 0 where
  pub mode : Mode
  pub link : Link
  pub master : Master
  pub shown : LinkState
  pub filter : TraceFilter
  pub line : CommandLine

-- `Observer{}`.
abbrev pub new_observer : Observer
new_observer = record {
  mode = Mode.digital;
  link = new_link;
  master = new_master;
  shown = absent;
  filter = new_filter;
  line = new_line;
}

-- The two answers on the serial port.
pub data Answer : Type 0 where
  ok_analog unknown_command : Answer

-- The `switch` on the event of a character.
unfoldable pub answer : LineEvent → Observer → Observer × Option Answer
answer LineEvent.pending observer = (observer, none)
answer LineEvent.unknown observer = (observer, some unknown_command)
answer LineEvent.analog observer =
    (record observer { mode = Mode.analog; master = new_master }, some ok_analog)

-- `none` is `PICO_ERROR_TIMEOUT`: no character is waiting.
unfoldable pub poll_command : Option ℕ → Observer → Observer × Option Answer
poll_command none observer = (observer, none)
poll_command (some c) observer =
    let (event, line) = take_char observer.line c in answer event (record observer { line = line })

abbrev pub command_of : Observer → List ℕ
command_of observer = elim observer.mode [
  | digital ↦ read_poll
  | analog ↦ command_for observer.master.stage
]

-- The frame to exchange: the command's bytes on a zeroed wire, cut to the command's length.
unfoldable pub frame_to_send : List ℕ → List WireByte
frame_to_send command =
    take (length command) (put_outs (length command) 0 command (replicate max_traced_len zero_wire))

-- The link judged by one frame: the observer, the state and the fault.
unfoldable pub judge : Observer → Exchanged → ℕ → Observer × LinkState × FaultCause
judge observer exchanged elapsed_us = elim observer.mode [
  | digital ↦
      (let link = step observer.link (decode_poll exchanged.wire exchanged.completed) elapsed_us in
        (record observer { link = link }, link.state, link.last_fault))
  | analog ↦
      (let (master, now) = advance observer.master exchanged elapsed_us in
        (record observer { master = master }, now, master.link.last_fault))
]

-- The `link:` line and the `T1` line, where they are printed.
pub record Shown : Type 0 where
  pub link : Option (LinkState × LinkState × FaultCause)
  pub trace : Option (List WireByte × ℕ)

-- The part of `observe_once` behind the exchange.
unfoldable pub show : Observer → Exchanged → ℕ → ℕ → Observer × Shown
show observer exchanged start elapsed_us =
    let (judged, now, fault) = judge observer exchanged elapsed_us in
    let traced : TracedFrame = record {
      wire = exchanged.wire;
      completed = exchanged.completed;
      state = now;
    } in
    let is_due = is_trace_due judged.filter traced start in
    let was = judged.shown in
    (
      record judged {
        shown = now;
        filter = if is_due then note_printed judged.filter traced start else judged.filter;
      },
      record {
        link = if not (state_eq now was) then some (was, now, fault) else none;
        trace = if is_due then some (exchanged.wire, exchanged.completed) else none;
      },
    )

-- The variables of `main`, with the bus.
pub record Observing (S : Type 0) : Type 0 where
  pub observer : Observer
  pub poll_start : ℕ
  pub port : S

-- What the loop of `main` does next: it asks the serial port, or the period has passed and it
-- exchanges a frame at the clock reading.
pub data Turn : Type 0 where
  asked : Option ℕ → Turn
  polled : ℕ → Turn

module _ {S : Type 0} (port : BusPort S) where
  unfoldable pub observe_once : Observer → ℕ → ℕ → S → Observer × Shown × S
  observe_once observer start elapsed_us s =
      let exchanged = exchange_frame port (frame_to_send (command_of observer)) s in
      let (after, shown) =
        show observer (record { wire = exchanged.frame; completed = exchanged.done }) start
          elapsed_us in
      (after, shown, exchanged.port)

  unfoldable pub turn : Turn → Observing S → Observing S
  turn (asked c) now = record now { observer = (poll_command c now.observer).0 }
  turn (polled start) now =
      let elapsed_us = u32_sub start now.poll_start in
      let (observer, shown, s) = observe_once now.observer start elapsed_us now.port in
      record { observer = observer; poll_start = start; port = s }

  unfoldable pub turns : List Turn → Observing S → Observing S
  turns [] now = now
  turns (t ∷ rest) now = turns rest (turn t now)
