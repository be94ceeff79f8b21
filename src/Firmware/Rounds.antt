-- ===== src/Firmware/Rounds.antt =====
-- The rounds of `main` of src/app/main.cpp: each ends, takes a period or more, and is a turn.
use pico_sg2hid.Common.{
  ℕ, zero, suc, ◌+◌, ◌*◌, ◌/◌, ◌%◌, ◌≤◌, ◌<◌, ◌≡◌, ◌≢◌, ◌⊎◌, ◌∙◌, refl, ap, Option, some, [], ◌∷◌,
  arith, u32_sub, u32_mod,
}
use native.Mathlib.Nat.{suc-mul}
use pico_sg2hid.Link.{analog_streaming, digital_streaming}
use pico_sg2hid.Negotiation.{command_for, advance}
use pico_sg2hid.Bus.{BusPort, exchange_frame}
use pico_sg2hid.Poll.{decode_poll, report_for}
use pico_sg2hid.Usb.{UsbDevice, new_device}
use pico_sg2hid.Firmware.{
  Poller, Readings, frame_of, judge_frame, poll_once, turn, summarise, print_summary, new_poller,
}
use pico_sg2hid.Firmware.Turns.{
  Holds, boot-Holds, turn-Holds, turn-leaves, summarise-Holds, Holds-quiet,
}
use pico_sg2hid.Firmware.Running.{
  MainSdk, hand_report, poll_frame, summarise_when_due, main_round, main_rounds, run_main,
}
use pico_sg2hid.Firmware.Paced.{MainClock, wait_period-ends, poll_frame-Within, summarise-Within}

module _ {S : Type 0} (sdk : MainSdk S) (port : BusPort S) where
  -- The readings that a poll takes.
  abbrev readings_of : ℕ → Poller → S → Readings
  readings_of elapsed_us p s =
      let ex = exchange_frame port (frame_of (command_for p.master.stage)) (sdk.time_us s).1 in
      let outcome = decode_poll ex.frame ex.done in
      let now = (advance p.master (record { wire = ex.frame; completed = ex.done }) elapsed_us).1 in
      let (is_report_ready, s₂) = sdk.hid_ready ex.port in
      let (is_send_ready, s₃) = hand_report sdk port (report_for now outcome) s₂ in
      record {
        is_report_ready = is_report_ready;
        is_send_ready = is_send_ready;
        frame_start = (sdk.time_us s).0;
        handed_at = (sdk.time_us s₃).0;
        summarised_at = 0;
      }

  -- A poll on the hardware is a turn at the readings that it takes.
  poll_frame-turn :
      (start : ℕ) (p : Poller) (d : UsbDevice) (s : S)
      → let elapsed_us = u32_sub start p.poll_start in
        let p' = record p { poll_start = start } in
        let after = poll_frame sdk port elapsed_us p' d s in
        let turned = turn port (readings_of elapsed_us p' s) start p d (sdk.time_us s).1 in
        (after.0 ≡ turned.poller) × (after.1 ≡ turned.device)
  unfolding poll_frame turn poll_once judge_frame
  poll_frame-turn start p d s = (refl, refl)

  summarise_when_due-summarise :
      (p : Poller) (s : S) → (now : ℕ) × ((summarise_when_due sdk port p s).0 ≡ summarise now p)
  unfolding summarise_when_due summarise
  summarise_when_due-summarise p s = ((sdk.time_us (sdk.att_level s).1).0, ground arith)

  summarise-poll_start : (now : ℕ) (p : Poller) → (summarise now p).poll_start ≡ p.poll_start
  unfolding summarise print_summary
  summarise-poll_start now p = ground arith

  module _ (now_ns : S → ℕ) (clock : MainClock sdk port now_ns) (fuel : ℕ)
      (enough : 8001000 < fuel) where
    -- Between two rounds: a poll started at the time `begin`, and its start is noted.
    record Between (begin : ℕ) (p : Poller) (d : UsbDevice) (s : S) : Type 0 where
      holds : Holds p d
      noted : p.poll_start ≡ begin / 1000 % u32_mod
      past : begin ≤ now_ns s
      recent : now_ns s ≤ begin + 100000000000

    -- A round ends, and its poll starts a period or more behind the last.
    abbrev NextRound : ℕ → Option (Poller × UsbDevice × S) → Type 0
    NextRound begin outcome =
        (begin' : ℕ) × (p : Poller) × (d : UsbDevice) × (s : S) × (outcome ≡ some (p, d, s))
        × (begin / 1000 + 8000 ≤ begin' / 1000)
        × Between begin' p d s

    main_round-NextRound :
        (begin : ℕ) (p : Poller) (d : UsbDevice) (s : S)
        → Between begin p d s
        → NextRound begin (main_round sdk port fuel p d s)
    unfolding main_round
    main_round-NextRound begin p d s b =
        let past = b.past in
        let recent = b.recent in
        let l = clock.bus.lag_bound in
        let (s₁, waits, period, later, soon) =
          wait_period-ends sdk port now_ns clock begin p.poll_start b.noted fuel s b.past
            (omega arith) (omega arith) (omega arith) in
        let s₂ = (sdk.time_us s₁).1 in
        let start = (sdk.time_us s₁).0 in
        let reads = clock.bus.passes s₁ in
        let elapsed_us = u32_sub start p.poll_start in
        let p' = record p { poll_start = start } in
        let (p₁, d₁, s₃) = poll_frame sdk port elapsed_us p' d s₂ in
        let turned = turn port (readings_of elapsed_us p' s₂) start p d (sdk.time_us s₂).1 in
        let (is_poller, is_device) = poll_frame-turn start p d s₂ in
        let (now, summarised) = summarise_when_due-summarise p₁ s₃ in
        let polls = poll_frame-Within sdk port now_ns clock elapsed_us p' d s₂ in
        let prints = summarise-Within sdk port now_ns clock p₁ s₃ in
        let holds₁ : Holds p₁ d₁ =
          rw (is_poller, is_device)
            (turn-Holds port (readings_of elapsed_us p' s₂) start p d (sdk.time_us s₂).1 b.holds) in
        let leaves = turn-leaves port (readings_of elapsed_us p' s₂) start p d (sdk.time_us s₂).1 in
        let (p₂, s₄) = summarise_when_due sdk port p₁ s₃ in
        (
          now_ns s₂,
          p₂,
          d₁,
          s₄,
          rw (waits, main_round) refl,
          omega arith,
          record {
            holds = rw summarised (summarise-Holds now p₁ d₁ holds₁);
            noted =
                ap (λ q. q.poll_start) summarised
                ∙ summarise-poll_start now p₁
                ∙ ap (λ q. q.poll_start) is_poller
                ∙ leaves.start_is
                ∙ clock.bus.reported s₁;
            past = omega arith;
            recent = omega arith;
          },
        )

    -- So many rounds.
    abbrev AfterRounds : ℕ → ℕ → Option (Poller × UsbDevice × S) → Type 0
    AfterRounds n begin outcome =
        (begin' : ℕ) × (p : Poller) × (d : UsbDevice) × (s : S) × (outcome ≡ some (p, d, s))
        × (begin / 1000 + (n * 8000) ≤ begin' / 1000)
        × Between begin' p d s

    main_rounds-AfterRounds :
        (n begin : ℕ) (p : Poller) (d : UsbDevice) (s : S)
        → Between begin p d s
        → AfterRounds n begin (main_rounds sdk port fuel n p d s)
    unfolding main_rounds
    main_rounds-AfterRounds zero begin p d s b = (begin, p, d, s, refl, omega arith, b)
    main_rounds-AfterRounds (suc n) begin p d s b =
        let (begin₁, p₁, d₁, s₁, one, period, b₁) = main_round-NextRound begin p d s b in
        let (begin₂, p₂, d₂, s₂, more, periods, b₂) =
          main_rounds-AfterRounds n begin₁ p₁ d₁ s₁ b₁ in
        (begin₂, p₂, d₂, s₂, rw (one, main_rounds) more, rw (suc-mul n 8000) (omega arith), b₂)

    -- Over any bus and any USB host, where each reading of the clock takes a nanosecond or more and
    -- no call of the hardware longer than a second, the bus's wait beyond what it is asked to wait:
    -- every number of rounds of `main` ends, and so many rounds take so many periods of 8 ms or
    -- more. After them the link does not stream digital, and unless it streams analog the stored
    -- report is neutral.
    pub run_main-ends :
        (n : ℕ) (s : S)
        → (p : Poller) × (d : UsbDevice) × (s' : S) × (run_main sdk port fuel n s ≡ some (p, d, s'))
          × (now_ns s / 1000 + (n * 8000) ≤ now_ns s' / 1000)
          × (p.master.link.state ≢ digital_streaming)
          × ((p.master.link.state ≡ analog_streaming) ⊎ (d.stored_report ≡ 0 ∷ 0 ∷ 0 ∷ []))
    unfolding run_main new_poller
    run_main-ends n s =
        let start = (sdk.time_us s).0 in
        let s₁ = (sdk.time_us s).1 in
        let reads = clock.bus.passes s in
        let (begin, p, d, s', runs, periods, b) =
          main_rounds-AfterRounds n (now_ns s₁) (new_poller start) new_device s₁ (record {
            holds = boot-Holds start;
            noted = clock.bus.reported s;
            past = omega arith;
            recent = omega arith;
          }) in
        let past = b.past in
        let (not_digital, quiet) = Holds-quiet p d b.holds in
        (p, d, s', runs, omega arith, not_digital, quiet)
