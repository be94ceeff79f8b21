-- ===== src/Tests/Instruments.antt =====
-- The observe firmware of src/app/observe.cpp and the emulated guitar of src/emu/sg_model.cpp at
-- concrete inputs.
use pico_sg2hid.Common.{ℕ, ◌≡◌, refl, none, some, List, [], ◌∷◌, arith}
use pico_sg2hid.Common.{◌||◌, ltb, leb, ◌==◌, if◌then◌else◌, length}
use pico_sg2hid.Trace.{
  WireByte, format_trace_line, put_dec, put_text, put_char, put_list, put_out, put_in, put_elapsed,
  put_hex, put_sep, dec_digits,
}
use pico_sg2hid.Trace.Line.{trace_line, format_trace_line-trace_line}
use pico_sg2hid.Common.{zero, suc, ◌≤◌, get_or, u32_max}
use pico_sg2hid.Trace.{zero_wire}
use pico_sg2hid.Bus.Events.{Event, recording}
use pico_sg2hid.Command.{take_char}
use pico_sg2hid.Emulator.{SgModel, decline, new_model, reset}
use pico_sg2hid.Emulator.Frames.{Silent, serve, serve-other_address}
use pico_sg2hid.Observe.{
  Mode, Observing, Turn, asked, polled, new_observer, answer, poll_command, judge, show,
  observe_once, turn, turns,
}
use pico_sg2hid.Observe.ReadOnly.{read_polls, turns-read_polls}
use pico_sg2hid.Wired.{Guitar, wired}

-- A character of `analog` is typed, and two periods pass.
abbrev watched : List Turn
watched = asked none ∷ polled 8000 ∷ asked (some 97) ∷ polled 16000 ∷ []

abbrev watching : Observing (Guitar × List Event)
watching = record { observer = new_observer; poll_start = 0; port = ((new_model, 0xFF), []) }

still_digital : (turns (recording (wired 50)) watched watching).observer.mode ≡ Mode.digital
unfolding turns turn poll_command observe_once show judge answer take_char
still_digital = refl

turns-read_polls_example :
    (dones : List ℕ) × ((turns (recording (wired 50)) watched watching).port.1 ≡ read_polls dones)
turns-read_polls_example = turns-read_polls (wired 50) watched 0 (new_model, 0xFF) still_digital

-- A frame for a memory card.
serve-other_address_example :
    let (answers, after) = serve (reset new_model) (0x81 ∷ 0x52 ∷ 0x00 ∷ []) in
    Silent answers
    × ((reset after).is_analog ≡ (reset new_model).is_analog)
    × ((reset after).is_config ≡ (reset new_model).is_config)
serve-other_address_example = serve-other_address new_model 0x81 (0x52 ∷ 0x00 ∷ []) (omega arith)

abbrev declining : SgModel
declining = record new_model { fault = record { kind = decline; value = 0 } }

-- The master's sequence: config mode entered, analog selected, config mode left, a poll.
abbrev sequence : List (List ℕ)
sequence =
    (0x01 ∷ 0x43 ∷ 0x00 ∷ 0x01 ∷ 0x00 ∷ [])
    ∷ (0x01 ∷ 0x44 ∷ 0x00 ∷ 0x01 ∷ 0x03 ∷ 0x00 ∷ 0x00 ∷ 0x00 ∷ 0x00 ∷ [])
    ∷ (0x01 ∷ 0x43 ∷ 0x00 ∷ 0x00 ∷ 0x00 ∷ 0x00 ∷ 0x00 ∷ 0x00 ∷ 0x00 ∷ [])
    ∷ (0x01 ∷ 0x42 ∷ 0x00 ∷ 0x00 ∷ 0x00 ∷ [])
    ∷ []

-- A digital answer, and one that stopped behind two bytes.
abbrev cut_frame : List WireByte
cut_frame =
    record { out = 0x01; in_byte = 0xFF; elapsed_us = 50 }
    ∷ record { out = 0x42; in_byte = 0x41; elapsed_us = 51 }
    ∷ record { out = 0x00; in_byte = 0x00; elapsed_us = 100 }
    ∷ record { out = 0x00; in_byte = 0x00; elapsed_us = 0 }
    ∷ record { out = 0x00; in_byte = 0x00; elapsed_us = 0 }
    ∷ []

cut_line :
    format_trace_line cut_frame 2 256
    ≡ b'T' ∷ b'1' ∷ b' ' ∷ b'n' ∷ b'=' ∷ b'5' ∷ b' ' ∷ b'k' ∷ b'=' ∷ b'2' ∷ b' ' ∷ b'o' ∷ b'u'
      ∷ b't' ∷ b'=' ∷ b'0' ∷ b'1' ∷ b',' ∷ b'4' ∷ b'2' ∷ b',' ∷ b'0' ∷ b'0' ∷ b',' ∷ b'0' ∷ b'0'
      ∷ b',' ∷ b'0' ∷ b'0' ∷ b' ' ∷ b'i' ∷ b'n' ∷ b'=' ∷ b'F' ∷ b'F' ∷ b',' ∷ b'4' ∷ b'1' ∷ b','
      ∷ b'-' ∷ b'-' ∷ b',' ∷ b'-' ∷ b'-' ∷ b',' ∷ b'-' ∷ b'-' ∷ b' ' ∷ b'u' ∷ b's' ∷ b'=' ∷ b'5'
      ∷ b'0' ∷ b',' ∷ b'5' ∷ b'1' ∷ b',' ∷ b'1' ∷ b'0' ∷ b'0' ∷ b',' ∷ b'-' ∷ b',' ∷ b'-' ∷ []
unfolding format_trace_line put_dec put_text put_char put_list put_out put_in put_elapsed put_hex
    put_sep dec_digits
cut_line = refl

format_trace_line-trace_line_example : format_trace_line cut_frame 2 256 ≡ (
    if length cut_frame == 0 || ltb (length cut_frame) 2
    then []
    else if leb (length (trace_line cut_frame 2)) 256
    then trace_line cut_frame 2
    else [])
format_trace_line-trace_line_example = format_trace_line-trace_line cut_frame 2 256

cut_frame-elapsed : (i : ℕ) → (get_or cut_frame i zero_wire).elapsed_us ≤ u32_max
cut_frame-elapsed zero = omega arith
cut_frame-elapsed (suc zero) = omega arith
cut_frame-elapsed (suc (suc zero)) = omega arith
cut_frame-elapsed (suc (suc (suc zero))) = omega arith
cut_frame-elapsed (suc (suc (suc (suc zero)))) = omega arith
cut_frame-elapsed (suc (suc (suc (suc (suc i))))) = omega arith
