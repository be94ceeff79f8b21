-- ===== src/Firmware.antt =====
-- The master firmware (src/app/main.cpp): one round of its loop, which exchanges a frame, judges
-- it and hands the report on. The clock's readings and the HID interface's state are arguments, the
-- bus port a parameter, and what is printed on a change of the link's state is a value.
pub mod Turns
pub mod Reports
pub mod Summary
pub mod Running
pub mod Paced
pub mod Rounds
use pico_sg2hid.Common.{
  ℕ, zero, suc, ◌+◌, ◌%◌, Bool, true, false, not, ◌&&◌, Option, none, some, List, [], ◌∷◌, map, ltb,
  ◌==◌, if◌then◌else◌, u32_add, u32_sub, length, get_or, set, take, replicate,
}
use pico_sg2hid.Protocol.{analog, frame_len}
use pico_sg2hid.Frame.{DecodeOutcome, value, error, has_value}
use pico_sg2hid.Guitar.{map_frame}
use pico_sg2hid.Report.{HidReport}
use pico_sg2hid.Link.{LinkState, FaultCause, analog_streaming, state_eq}
use pico_sg2hid.Trace.{WireByte, zero_wire}
use pico_sg2hid.Poll.{PollTally, new_tally, decode_poll, count_poll, neutral_report, report_for}
use pico_sg2hid.Negotiation.{Master, new_master, Exchanged, command_for, advance}
use pico_sg2hid.Bus.{BusPort, Exchange, exchange_frame}
use pico_sg2hid.Usb.{UsbDevice, send_report}

abbrev pub polls_per_summary : ℕ
polls_per_summary = 125

abbrev pub wire_len : ℕ
wire_len = frame_len analog + 1

pub record Poller : Type 0 where
  pub master : Master
  pub tally : PollTally
  pub whammy : ℕ
  pub has_whammy : Bool
  pub report : HidReport
  pub poll_start : ℕ
  pub batch_start : ℕ
  pub hand_max_us : ℕ
  pub busy : ℕ

-- `Poller poller{}` and the two clock readings that `main` stores.
unfoldable pub new_poller : ℕ → Poller
new_poller start = record {
  master = new_master;
  tally = new_tally;
  whammy = 0;
  has_whammy = false;
  report = neutral_report;
  poll_start = start;
  batch_start = start;
  hand_max_us = 0;
  busy = 0;
}

-- `for ( i = …; i < command.size( ); ++i ) wire[ i ].out = command[ i ]`, by the rounds left.
unfoldable pub put_outs : ℕ → ℕ → List ℕ → List WireByte → List WireByte
put_outs zero i command wire = wire
put_outs (suc n) i command wire =
    put_outs n (i + 1) command
      (set wire i (record (get_or wire i zero_wire) { out = get_or command i 0 }))

-- The frame to exchange: the command's bytes on a zeroed wire, cut to the command's length.
unfoldable pub frame_of : List ℕ → List WireByte
unfolding put_outs
frame_of command =
    take (length command) (put_outs (length command) 0 command (replicate wire_len zero_wire))

-- What is printed when the link's state changes: the `link:` line and the frame's trace.
pub record Printed : Type 0 where
  pub from : LinkState
  pub to : LinkState
  pub fault : FaultCause
  pub frame : List WireByte
  pub completed : ℕ

-- What a round leaves: the poller, the USB device, the bus, and what was printed.
pub record Round (S : Type 0) : Type 0 where
  pub poller : Poller
  pub device : UsbDevice
  pub port : S
  pub printed : Option Printed

-- The readings of a round: the HID interface's state at its two queries, the clock when the frame
-- starts and when its report is handed over.
pub record Readings : Type 0 where
  pub is_report_ready : Bool
  pub is_send_ready : Bool
  pub frame_start : ℕ
  pub handed_at : ℕ
  pub summarised_at : ℕ

-- The whammy of a good analog frame is kept for the summary.
keep_whammy : LinkState → DecodeOutcome → Poller → Poller
keep_whammy now (error e) poller = poller
keep_whammy now (value frame) poller =
    if state_eq now analog_streaming
    then record poller { whammy = (map_frame frame).whammy; has_whammy = true }
    else poller

-- The part of `poll_once` behind the exchange.
unfoldable pub judge_frame :
    Readings → ℕ → List WireByte → ℕ → Poller → UsbDevice → Poller × UsbDevice × Option Printed
unfolding keep_whammy
judge_frame readings elapsed_us frame completed poller device =
    let outcome = decode_poll frame completed in
    let was = poller.master.link.state in
    let (master, now) =
      advance poller.master (record { wire = frame; completed = completed }) elapsed_us in
    let report = report_for now outcome in
    let hand_us = u32_sub readings.handed_at readings.frame_start in
    let judged = record poller {
      master = master;
      tally = count_poll poller.tally now outcome;
      report = report;
      busy = if readings.is_report_ready then poller.busy else u32_add poller.busy 1;
      hand_max_us = if ltb poller.hand_max_us hand_us then hand_us else poller.hand_max_us;
    } in
    let printed : Printed = record {
      from = was;
      to = now;
      fault = master.link.last_fault;
      frame = frame;
      completed = completed;
    } in
    (
      keep_whammy now outcome judged,
      send_report readings.is_send_ready report device,
      if state_eq now was then none else some printed,
    )

-- Whether `main` prints a summary behind a round.
abbrev pub is_summary_due : Poller → Bool
is_summary_due poller = poller.tally.polls % polls_per_summary == 0

-- What `print_summary` leaves of the poller, at the clock reading `now`.
unfoldable pub print_summary : ℕ → Poller → Poller
print_summary now poller = record poller { batch_start = now; hand_max_us = 0; busy = 0 }

unfoldable pub summarise : ℕ → Poller → Poller
summarise now poller = if is_summary_due poller then print_summary now poller else poller

module _ {S : Type 0} (port : BusPort S) where
  unfoldable pub poll_once : Readings → ℕ → Poller → UsbDevice → S → Round S
  poll_once readings elapsed_us poller device s =
      let exchanged = exchange_frame port (frame_of (command_for poller.master.stage)) s in
      let (poller', device', printed) =
        judge_frame readings elapsed_us exchanged.frame exchanged.done poller device in
      record { poller = poller'; device = device'; port = exchanged.port; printed = printed }

  -- One turn of the `for ( ;; )` loop of `main`, from the clock reading that ends the wait.
  unfoldable pub turn : Readings → ℕ → Poller → UsbDevice → S → Round S
  turn readings start poller device s =
      let elapsed_us = u32_sub start poller.poll_start in
      poll_once readings elapsed_us (record poller { poll_start = start }) device s

  -- The loop of `main`: a turn for each entry, with the summary when it is due.
  unfoldable pub turns : List (Readings × ℕ) → Poller → UsbDevice → S → Round S
  turns [] poller device s = record { poller = poller; device = device; port = s; printed = none }
  turns ((readings, start) ∷ rest) poller device s =
      let after = turn readings start poller device s in
      turns rest (summarise readings.summarised_at after.poller) after.device after.port
