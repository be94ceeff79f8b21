-- ===== src/Tests/Master.antt =====
-- The master at concrete inputs: links of src/core/link.cpp, sequences of src/core/negotiation.cpp,
-- counters of src/core/poll.cpp.
use pico_sg2hid.Protocol.{digital}
use pico_sg2hid.Common.{
  ◌++◌, some, ℕ, ◌+◌, ◌%◌, ◌≤◌, ◌≡◌, refl, ◌≢◌, ◌↔◌, ◌⊎◌, inr, List, [], ◌∷◌, arith, length,
  u32_mod,
}
use pico_sg2hid.Protocol.{analog, config}
use pico_sg2hid.Frame.{Ps2Frame, DecodeStatus, value, error}
use pico_sg2hid.Link.{
  Link, LinkState, FaultCause, absent, analog_streaming, negotiation_timeout_us, step,
  add_saturating,
}
use pico_sg2hid.Link.Lifecycle.{IsGood, step-state_iff}
use pico_sg2hid.Link.Drops.{Up, Drops, run-last_fault}
use pico_sg2hid.Link.Runs.{run, Poll, negotiating-bounded, total_us, Stays}
use pico_sg2hid.Trace.{WireByte}
use pico_sg2hid.Filter.{TracedFrame, new_filter, note_printed, is_trace_due, trace_gap_us}
use pico_sg2hid.Filter.Rules.{outs, says_new, is_trace_due-note_printed}
use pico_sg2hid.Common.{not, ◌&&◌, ◌||◌, list_eq, leb, u32_sub}
use pico_sg2hid.Link.{digital_streaming, state_eq}
use pico_sg2hid.Console.{print_link}
use pico_sg2hid.Console.Host.{read_link, read_link-print_link}
use pico_sg2hid.Poll.{decode_poll, new_tally}
use pico_sg2hid.Poll.Counters.{
  Counted, count_all, absents, changes, good_payloads, count_all-new_tally,
}
use pico_sg2hid.Frame.{decode}
use pico_sg2hid.Negotiation.{
  Master, Exchanged, enter_config, polling, new_master, advance, prefix_id,
}
use pico_sg2hid.Negotiation.Sequence.{IsSound, advance-IsSound, new_master-IsSound, Timed, InTime}
use pico_sg2hid.Negotiation.Sequence
use pico_sg2hid.Negotiation.Streaming.{polling-streams_iff}

abbrev wire_byte : ℕ → ℕ → WireByte
wire_byte out in_byte = record { out = out; in_byte = in_byte; elapsed_us = 50 }

-- Frames of nine wire bytes under an id, all of it answered.
abbrev answered : ℕ → List WireByte
answered id =
    wire_byte 0x01 0xFF
    ∷ wire_byte 0x42 id
    ∷ wire_byte 0 0x5A
    ∷ wire_byte 0 0xFF
    ∷ wire_byte 0 0xFD
    ∷ wire_byte 0 0x7F
    ∷ wire_byte 0 0x7F
    ∷ wire_byte 0 0x7F
    ∷ wire_byte 0 0x40
    ∷ []

abbrev digital_answer : Exchanged
digital_answer = record { wire = answered 0x41; completed = 5 }

abbrev config_answer : Exchanged
config_answer = record { wire = answered 0xF3; completed = 9 }

abbrev analog_answer : Exchanged
analog_answer = record { wire = answered 0x73; completed = 9 }

abbrev analog_frame : Ps2Frame
analog_frame = record { id = analog; payload = 0xFF ∷ 0xFD ∷ 0x7F ∷ 0x7F ∷ 0x7F ∷ 0x40 ∷ [] }

abbrev config_frame : Ps2Frame
config_frame = record { id = config; payload = 0 ∷ 0 ∷ 0 ∷ 0 ∷ 0 ∷ 0 ∷ [] }

-- Three frames of the sequence and a poll.
abbrev started : List Timed
started =
    (digital_answer, 8000)
    ∷ (config_answer, 8000)
    ∷ (config_answer, 8000)
    ∷ (analog_answer, 8000)
    ∷ []

started-InTime : InTime started
started-InTime = (omega arith, (omega arith, (omega arith, (omega arith, tt))))

started-streams : (Sequence.run new_master started).link.state ≡ analog_streaming
unfolding Sequence.run advance prefix_id decode_poll decode step add_saturating
started-streams = refl

advance-IsSound_example : IsSound (advance new_master digital_answer 8000).0
advance-IsSound_example =
    advance-IsSound new_master digital_answer 8000 (omega arith) new_master-IsSound

abbrev streaming_link : Link
streaming_link = record {
  state = analog_streaming;
  last_fault = FaultCause.none;
  us_in_state = 80000;
}

abbrev polling_master : Master
polling_master = record { link = streaming_link; stage = polling }

polling_master-IsSound : IsSound polling_master
polling_master-IsSound = record { link_inv = ground arith; agrees = inr refl }

polling-streams_iff_example :
    let after = (advance polling_master analog_answer 8000).0 in
    ((after.link.state ≡ analog_streaming)
      ↔ ((f : Ps2Frame) × (decode_poll (answered 0x73) 9 ≡ value f) × (f.id ≡ analog)))
    × ((after.link.state ≡ analog_streaming)
        ⊎ ((after.link.state ≡ absent) × (after.stage ≡ enter_config)))
polling-streams_iff_example =
    polling-streams_iff polling_master analog_answer 8000 (omega arith) polling_master-IsSound refl

decoded : decode_poll (answered 0x73) 9 ≡ value analog_frame
unfolding decode_poll decode
decoded = refl

abbrev negotiating_link : Link
negotiating_link = record {
  state = LinkState.negotiating;
  last_fault = FaultCause.none;
  us_in_state = 40000;
}

-- Config mode past the timeout.
step-state_iff_example :
    let after = step negotiating_link (value config_frame) 9000 in
    ((after.state ≡ analog_streaming) ↔ IsGood analog (value config_frame))
    × ((after.state ≡ digital_streaming) ↔ IsGood digital (value config_frame))
    × ((after.state ≡ LinkState.negotiating) ↔ (
        IsGood config (value config_frame)
        × ((LinkState.negotiating ≢ LinkState.negotiating)
            ⊎ (40000 + 9000 ≤ negotiation_timeout_us))))
step-state_iff_example =
    step-state_iff negotiating_link (value config_frame) 9000 (omega arith) (omega arith)

-- An answer in time, one past the timeout, and a good analog frame.
abbrev dropped_once : List Poll
dropped_once =
    (value config_frame, 8000) ∷ (value config_frame, 9000) ∷ (value analog_frame, 8000) ∷ []

dropped_once-last_fault : (run negotiating_link dropped_once).last_fault ≡ FaultCause.negotiating
unfolding run step add_saturating
dropped_once-last_fault = refl

run-last_fault_example :
    (Up negotiating_link dropped_once
      × ((run negotiating_link dropped_once).last_fault ≡ FaultCause.none))
    ⊎ ((before : List Poll) × (last : Poll) × (after : List Poll) × (dropped_once
          ≡ before ++ last ∷ after)
        × Drops (run negotiating_link before) last (run negotiating_link dropped_once).last_fault
        × Up (run negotiating_link (before ++ last ∷ [])) after)
run-last_fault_example =
    run-last_fault negotiating_link dropped_once (ground arith)
      (omega arith, (omega arith, (omega arith, tt)))

-- One more answer in config mode, in time.
abbrev one_more : List Poll
one_more = (value config_frame, 8000) ∷ []

one_more-Stays : Stays LinkState.negotiating negotiating_link one_more
unfolding step add_saturating
one_more-Stays = (refl, omega arith, refl)

negotiating-bounded_example : 40000 + total_us one_more ≤ negotiation_timeout_us
negotiating-bounded_example =
    negotiating-bounded negotiating_link one_more (ground arith) one_more-Stays

abbrev counted : List Counted
counted =
    (analog_streaming, value analog_frame)
    ∷ (absent, error DecodeStatus.ack_timeout)
    ∷ (analog_streaming, value (record { id = analog; payload = [] }))
    ∷ []

count_all-new_tally_example :
    let after = count_all new_tally counted in
    (after.polls ≡ length counted % u32_mod)
    × (after.refused ≡ absents counted % u32_mod)
    × (after.payload_changes ≡ changes (good_payloads counted) % u32_mod)
count_all-new_tally_example = count_all-new_tally counted

abbrev digital_traced : TracedFrame
digital_traced = record { wire = answered 0x41; completed = 5; state = digital_streaming }

abbrev later_traced : TracedFrame
later_traced = record { wire = answered 0xF3; completed = 5; state = digital_streaming }

is_trace_due-note_printed_example :
    is_trace_due (note_printed new_filter digital_traced 8000) later_traced 18000 ≡ (
      not (list_eq (outs later_traced.wire) (outs digital_traced.wire))
      || not (state_eq digital_streaming digital_streaming)
      || (says_new later_traced digital_traced && leb trace_gap_us (u32_sub 18000 8000)))
is_trace_due-note_printed_example =
    is_trace_due-note_printed new_filter digital_traced later_traced 8000 18000 (omega arith)

read_link-print_link_example :
    read_link (print_link LinkState.negotiating analog_streaming FaultCause.declined)
    ≡ some (record {
      from = LinkState.negotiating;
      to = analog_streaming;
      fault = FaultCause.declined;
    })
read_link-print_link_example =
    read_link-print_link LinkState.negotiating analog_streaming FaultCause.declined
