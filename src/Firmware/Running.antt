-- ===== src/Firmware/Running.antt =====
-- `main` of src/app/main.cpp on its hardware: the wait for the next period, a poll with its clock
-- readings taken where the source takes them, and the summary. The Pico SDK's and TinyUSB's calls are
-- a parameter, and so is the bus port. The wait takes fuel, and gives `none` when that runs out.
use pico_sg2hid.Common.{
  ℕ, zero, suc, Bool, true, false, Option, none, some, List, ltb, if◌then◌else◌, u32_sub,
}
use pico_sg2hid.Protocol.{poll_period_us}
use pico_sg2hid.Report.{HidReport}
use pico_sg2hid.Poll.{decode_poll, report_for}
use pico_sg2hid.Negotiation.{command_for, advance}
use pico_sg2hid.Bus.{BusPort, exchange_frame}
use pico_sg2hid.Usb.{UsbDevice, new_device}
use pico_sg2hid.Console.{print_link, print_trace}
use pico_sg2hid.Firmware.{
  Poller, Printed, frame_of, judge_frame, is_summary_due, print_summary, new_poller,
}
use pico_sg2hid.Firmware.Summary.{summary_line}

-- `print` writes to the USB serial port.
pub record MainSdk (S : Type 0) : Type 0 where
  pub time_us : S → ℕ × S
  pub task : S → S
  pub hid_ready : S → Bool × S
  pub hid_report : HidReport → S → S
  pub att_level : S → Bool × S
  pub print : List ℕ → S → S

module _ {S : Type 0} (sdk : MainSdk S) (port : BusPort S) where
  -- `while ( time_us_32( ) - poller.poll_start < ps2::kPollPeriodUs ) usb::task( )`.
  unfoldable pub wait_period : ℕ → ℕ → S → Option S
  wait_period zero poll_start s = none
  wait_period (suc fuel) poll_start s =
      let (now, s₁) = sdk.time_us s in
      elim (ltb (u32_sub now poll_start) poll_period_us) [
        | true ↦ wait_period fuel poll_start (sdk.task s₁)
        | false ↦ some s₁
      ]

  -- The lines of a change of the link's state.
  abbrev pub print_change : Option Printed → S → S
  print_change none s = s
  print_change (some printed) s =
      sdk.print (print_trace printed.frame printed.completed)
        (sdk.print (print_link printed.from printed.to printed.fault) s)

  -- `usb::send_report`, as far as the hardware is concerned.
  unfoldable pub hand_report : HidReport → S → Bool × S
  hand_report report s =
      let (is_ready, s') = sdk.hid_ready s in
      (is_ready, if is_ready then sdk.hid_report report s' else s')

  unfoldable pub poll_frame : ℕ → Poller → UsbDevice → S → Poller × UsbDevice × S
  poll_frame elapsed_us poller device s =
      let (frame_start, s₁) = sdk.time_us s in
      let exchanged = exchange_frame port (frame_of (command_for poller.master.stage)) s₁ in
      let outcome = decode_poll exchanged.frame exchanged.done in
      let (_, now) =
        advance poller.master (record { wire = exchanged.frame; completed = exchanged.done })
          elapsed_us in
      let (is_report_ready, s₂) = sdk.hid_ready exchanged.port in
      let (is_send_ready, s₃) = hand_report (report_for now outcome) s₂ in
      let (handed_at, s₄) = sdk.time_us s₃ in
      let (poller', device', printed) =
        judge_frame
          (record {
            is_report_ready = is_report_ready;
            is_send_ready = is_send_ready;
            frame_start = frame_start;
            handed_at = handed_at;
            summarised_at = 0;
          })
          elapsed_us exchanged.frame exchanged.done poller device in
      (poller', device', print_change printed s₄)

  -- `print_summary`, when it is due.
  unfoldable pub summarise_when_due : Poller → S → Poller × S
  summarise_when_due poller s =
      let (is_att_high, s₁) = sdk.att_level s in
      let (now, s₂) = sdk.time_us s₁ in
      if is_summary_due poller
      then (print_summary now poller, sdk.print (summary_line is_att_high now poller) s₂)
      else (poller, s)

  -- A round of the `for ( ;; )` loop.
  unfoldable pub main_round : ℕ → Poller → UsbDevice → S → Option (Poller × UsbDevice × S)
  main_round fuel poller device s = elim (wait_period fuel poller.poll_start s) [
    | none ↦ none
    | some s₁ ↦
        (let (start, s₂) = sdk.time_us s₁ in
          let elapsed_us = u32_sub start poller.poll_start in
          let (poller', device', s₃) =
            poll_frame elapsed_us (record poller { poll_start = start }) device s₂ in
          let (poller'', s₄) = summarise_when_due poller' s₃ in some (poller'', device', s₄))
  ]

  unfoldable pub main_rounds : ℕ → ℕ → Poller → UsbDevice → S → Option (Poller × UsbDevice × S)
  main_rounds fuel zero poller device s = some (poller, device, s)
  main_rounds fuel (suc n) poller device s = elim (main_round fuel poller device s) [
    | none ↦ none
    | some (poller', device', s') ↦ main_rounds fuel n poller' device' s'
  ]

  -- `main` behind the calls that start the hardware: so many rounds of its loop.
  unfoldable pub run_main : ℕ → ℕ → S → Option (Poller × UsbDevice × S)
  run_main fuel n s =
      let (start, s₁) = sdk.time_us s in main_rounds fuel n (new_poller start) new_device s₁
