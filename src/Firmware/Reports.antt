-- ===== src/Firmware/Reports.antt =====
-- The form of the reports that the master firmware (src/app/main.cpp) hands to TinyUSB.
use pico_sg2hid.Common.{ℕ, ◌≤◌, ◌<◌, Bool, true, false, List, [], ◌∷◌, ◌++◌, arith, get_or}
use pico_sg2hid.Protocol.{ControllerId, digital, analog, config}
use pico_sg2hid.Frame.{DecodeOutcome, value, error}
use pico_sg2hid.Guitar.{map_frame, whammy_from_axis}
use pico_sg2hid.Guitar.Controls.{whammy_from_axis_lem}
use pico_sg2hid.Report.{HidReport, build_report}
use pico_sg2hid.Report.Layout.{state_of, build_report_lem, byte_of, byte_of_bits}
use pico_sg2hid.Link.{LinkState, absent, negotiating, digital_streaming, analog_streaming}
use pico_sg2hid.Poll.{report_for, decode_poll, neutral_report}
use pico_sg2hid.Poll.Reports.{neutral_report_lem}
use pico_sg2hid.Bus.{BusPort}
use pico_sg2hid.Usb.{UsbDevice, send_report, new_device}
use pico_sg2hid.Firmware.{
  Poller, Readings, turn, turns, summarise, poll_once, judge_frame, new_poller,
}
use pico_sg2hid.Firmware.Turns.{exchanged, judged}

-- A report of the descriptor: three bytes, the padding bits of the second clear, and the whammy at
-- most the largest that the axis gives.
abbrev pub IsReport : HidReport → Type 0
IsReport (low ∷ high ∷ whammy ∷ []) = (low < 256) × (high < 4) × (whammy ≤ 254)
IsReport _ = ⊥

abbrev pub AreReports : List HidReport → Type 0
AreReports [] = Unit {0}
AreReports (report ∷ rest) = IsReport report × AreReports rest

AreReports-append :
    (reports : List HidReport) (last : HidReport)
    → AreReports reports
    → IsReport last
    → AreReports (reports ++ last ∷ [])
AreReports-append [] last a b = (b, tt)
AreReports-append (report ∷ rest) last (r, a) b = (r, AreReports-append rest last a b)

high_byte-lt : (se ti : Bool) → byte_of se ti false false false false false false < 4
high_byte-lt true true = omega arith
high_byte-lt true false = omega arith
high_byte-lt false true = omega arith
high_byte-lt false false = omega arith

state_of-IsReport :
    (g r y b o up down st se ti : Bool) (w : ℕ)
    → w ≤ 254
    → IsReport (build_report (state_of g r y b o up down st se ti w))
state_of-IsReport g r y b o up down st se ti w h =
    let low = byte_of_bits g r y b o up down st in
    rw (build_report_lem g r y b o up down st se ti w) (low.0, high_byte-lt se ti, h)

frame-IsReport :
    (id : ControllerId) (payload : List ℕ)
    → IsReport (build_report (map_frame (record { id = id; payload = payload })))
unfolding map_frame
frame-IsReport digital payload = state_of-IsReport _ _ _ _ _ _ _ _ _ _ 0 (omega arith)
frame-IsReport analog payload =
    state_of-IsReport _ _ _ _ _ _ _ _ _ _ (whammy_from_axis (get_or payload 5 0))
      (omega (arith, whammy_from_axis_lem (get_or payload 5 0)))
frame-IsReport config payload =
    state_of-IsReport false false false false false false false false false false 0 (omega arith)

neutral-IsReport : IsReport neutral_report
neutral-IsReport = rw neutral_report_lem (omega arith)

report_for-IsReport :
    (now : LinkState) (outcome : DecodeOutcome) → IsReport (report_for now outcome)
unfolding report_for
report_for-IsReport analog_streaming (value frame) = frame-IsReport frame.id frame.payload
report_for-IsReport analog_streaming (error e) = neutral-IsReport
report_for-IsReport absent outcome = neutral-IsReport
report_for-IsReport negotiating outcome = neutral-IsReport
report_for-IsReport digital_streaming outcome = neutral-IsReport

-- What the device holds.
record WellFormed (d : UsbDevice) : Type 0 where
  stored : IsReport d.stored_report
  handed : AreReports d.handed

send_report-WellFormed :
    (ready : Bool) (report : HidReport) (d : UsbDevice)
    → IsReport report
    → WellFormed d
    → WellFormed (send_report ready report d)
unfolding send_report
send_report-WellFormed true report d r w = record {
  stored = r;
  handed = AreReports-append d.handed report w.handed r;
}
send_report-WellFormed false report d r w = record { stored = r; handed = w.handed }

module _ {S : Type 0} (port : BusPort S) where
  turn-WellFormed :
      (r : Readings) (start : ℕ) (p : Poller) (d : UsbDevice) (s : S)
      → WellFormed d
      → WellFormed (turn port r start p d s).device
  unfolding turn poll_once judge_frame
  turn-WellFormed r start p d s w =
      let x = exchanged port r start p d s in
      let now = (judged port r start p d s).1 in
      send_report-WellFormed r.is_send_ready (report_for now (decode_poll x.frame x.done)) d
        (report_for-IsReport now (decode_poll x.frame x.done)) w

  turns-WellFormed :
      (rs : List (Readings × ℕ)) (p : Poller) (d : UsbDevice) (s : S)
      → WellFormed d
      → WellFormed (turns port rs p d s).device
  unfolding turns
  turns-WellFormed [] p d s w = w
  turns-WellFormed ((r, start) ∷ rest) p d s w =
      let after = turn port r start p d s in
      turns-WellFormed rest (summarise r.summarised_at after.poller) after.device after.port
        (turn-WellFormed r start p d s w)

  -- Whatever came over the bus, byte by byte and of whatever size: every report that the firmware
  -- ever handed to TinyUSB since boot, and the one it stores for a host that asks, is a report of the
  -- descriptor: three bytes, the six padding bits clear, the whammy at most 254.
  pub turns-IsReport :
      (rs : List (Readings × ℕ)) (start : ℕ) (s : S)
      → let device = (turns port rs (new_poller start) new_device s).device in
        AreReports device.handed × IsReport device.stored_report
  unfolding new_device
  turns-IsReport rs start s =
      let w =
        turns-WellFormed rs (new_poller start) new_device s
          (record { stored = neutral-IsReport; handed = tt }) in
      (w.handed, w.stored)
