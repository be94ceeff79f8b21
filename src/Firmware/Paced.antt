-- ===== src/Firmware/Paced.antt =====
-- The time that the rounds of `main` of src/app/main.cpp take, over any hardware whose clock goes on.
use pico_sg2hid.Common.{
  ℕ, zero, suc, ◌+◌, ◌*◌, ◌/◌, ◌%◌, ◌≤◌, ◌<◌, ◌≡◌, refl, Bool-cases, inl, inr, Option, none, some,
  List, arith, ltb, ltb-true, ltb-false, u32_sub, u32_mod, length,
}
use pico_sg2hid.Protocol.{poll_period_us}
use pico_sg2hid.Report.{HidReport}
use pico_sg2hid.Negotiation.{
  NegotiationStage, enter_config, set_analog, leave_config, polling, command_for, advance,
}
use pico_sg2hid.Bus.{BusPort, exchange_frame}
use pico_sg2hid.MasterPort.Clock.{Within}
use pico_sg2hid.Bus.Paced.{BusClock, exchange_frame-Within, elapsed}
use pico_sg2hid.Poll.{decode_poll, report_for}
use pico_sg2hid.Console.{print_link, print_trace}
use pico_sg2hid.Firmware.Summary.{summary_line}
use pico_sg2hid.Usb.{UsbDevice}
use pico_sg2hid.Firmware.{Poller, Printed, is_summary_due, frame_of, put_outs}
use pico_sg2hid.Firmware.Running.{
  MainSdk, wait_period, print_change, hand_report, poll_frame, summarise_when_due,
}

-- The clock and the bus port take their time as `BusClock` says, and no other call takes longer.
pub record MainClock {S : Type 0} (sdk : MainSdk S) (port : BusPort S) (now_ns : S → ℕ)
    : Type 0 where
  pub bus : BusClock sdk.time_us port now_ns
  pub task : (s : S) → Within bus.lag (now_ns s) (now_ns (sdk.task s))
  pub hid_ready : (s : S) → Within bus.lag (now_ns s) (now_ns (sdk.hid_ready s).1)
  pub hid_report :
      (report : HidReport) (s : S) → Within bus.lag (now_ns s) (now_ns (sdk.hid_report report s))
  pub att_level : (s : S) → Within bus.lag (now_ns s) (now_ns (sdk.att_level s).1)
  pub print : (text : List ℕ) (s : S) → Within bus.lag (now_ns s) (now_ns (sdk.print text s))

module _ {S : Type 0} (sdk : MainSdk S) (port : BusPort S) (now_ns : S → ℕ)
    (clock : MainClock sdk port now_ns) where
  pub wait_period-ends :
      (begin noted : ℕ)
      → noted ≡ begin / 1000 % u32_mod
      → (fuel : ℕ) (s : S) → begin ≤ now_ns s
      → now_ns s ≤ begin + 200000000000
      → begin + 8001000 < now_ns s + fuel
      → 0 < fuel
      → (s' : S) × (wait_period sdk port fuel noted s ≡ some s')
        × (begin / 1000 + 8000 ≤ now_ns s' / 1000)
        × (now_ns s ≤ now_ns s')
        × (now_ns s' ≤ begin + 201000000000)
  unfolding wait_period
  wait_period-ends begin noted e zero s b r f p = absurd (omega arith)
  wait_period-ends begin noted e (suc fuel) s b r f p =
      let s₁ = (sdk.time_us s).1 in
      let passes = clock.bus.passes s in
      let takes = clock.bus.reads s in
      let tasks = clock.task s₁ in
      let l = clock.bus.lag_bound in
      let since = elapsed sdk.time_us port now_ns clock.bus begin noted s b (omega arith) e in
      elim (Bool-cases (ltb (u32_sub (sdk.time_us s).0 noted) poll_period_us)) [
        | inr t ↦
            let over = ltb-false t in
            (s₁, rw (t, wait_period) refl, omega (arith, since), omega arith, omega arith)
        | inl t ↦
            let early = ltb-true t in
            let (s', i, j, k, m) =
              wait_period-ends begin noted e fuel (sdk.task s₁) (omega arith) (omega (arith, since))
                (omega arith) (omega (arith, since)) in
            (s', rw (t, wait_period) i, j, omega arith, m)
      ]

  length-frame_of : (stage : NegotiationStage) → length (frame_of (command_for stage)) ≤ 9
  unfolding frame_of put_outs command_for
  length-frame_of enter_config = omega arith
  length-frame_of set_analog = omega arith
  length-frame_of leave_config = omega arith
  length-frame_of polling = omega arith

  hand_report-Within :
      (report : HidReport) (s : S)
      → Within (2 * clock.bus.lag) (now_ns s) (now_ns (hand_report sdk port report s).1)
  unfolding hand_report
  hand_report-Within report s =
      let asks = clock.hid_ready s in
      elim (Bool-cases (sdk.hid_ready s).0) [
        | inl e ↦
            let hands = clock.hid_report report (sdk.hid_ready s).1 in
            rw (e, hand_report) (omega arith)
        | inr e ↦ rw (e, hand_report) (omega arith)
      ]

  print_change-Within :
      (printed : Option Printed) (s : S)
      → Within (2 * clock.bus.lag) (now_ns s) (now_ns (print_change sdk port printed s))
  print_change-Within none s = omega arith
  print_change-Within (some printed) s =
      let link = print_link printed.from printed.to printed.fault in
      let one = clock.print link s in
      let two = clock.print (print_trace printed.frame printed.completed) (sdk.print link s) in
      omega arith

  pub poll_frame-Within :
      (elapsed_us : ℕ) (p : Poller) (d : UsbDevice) (s : S)
      → Within
          (200000 + (28 * clock.bus.lag))
          (now_ns s)
          (now_ns (poll_frame sdk port elapsed_us p d s).2)
  unfolding poll_frame
  poll_frame-Within elapsed_us p d s =
      let s₁ = (sdk.time_us s).1 in
      let ex = exchange_frame port (frame_of (command_for p.master.stage)) s₁ in
      let report =
        report_for (advance p.master (record { wire = ex.frame; completed = ex.done }) elapsed_us).1
          (decode_poll ex.frame ex.done) in
      let s₂ = (sdk.hid_ready ex.port).1 in
      let (is_ready, s₃) = hand_report sdk port report s₂ in
      let starts = clock.bus.passes s in
      let starts' = clock.bus.reads s in
      let exchanges =
        exchange_frame-Within sdk.time_us port now_ns clock.bus
          (frame_of (command_for p.master.stage)) s₁ (length-frame_of p.master.stage) in
      let asks = clock.hid_ready ex.port in
      let hands = hand_report-Within report s₂ in
      let reads = clock.bus.passes s₃ in
      let reads' = clock.bus.reads s₃ in omega (arith, print_change-Within _ (sdk.time_us s₃).1)

  pub summarise-Within :
      (p : Poller) (s : S)
      → Within (3 * clock.bus.lag) (now_ns s) (now_ns (summarise_when_due sdk port p s).1)
  unfolding summarise_when_due
  summarise-Within p s =
      let s₁ = (sdk.att_level s).1 in
      let s₂ = (sdk.time_us s₁).1 in
      let asks = clock.att_level s in
      let reads = clock.bus.passes s₁ in
      let reads' = clock.bus.reads s₁ in
      let prints = clock.print (summary_line (sdk.att_level s).0 (sdk.time_us s₁).0 p) s₂ in
      elim (Bool-cases (is_summary_due p)) [
        | inl e ↦ rw (e, summarise_when_due) (omega arith)
        | inr e ↦ rw (e, summarise_when_due) (omega arith)
      ]
