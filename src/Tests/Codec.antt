-- ===== src/Tests/Codec.antt =====
-- The codecs at concrete inputs: frames of src/core/ps2_frame.cpp, guitars of
-- src/core/guitar_state.cpp, reports of src/core/hid_report.cpp, lines of src/core/command_line.cpp.
use pico_sg2hid.Common.{ℕ, ◌≤◌, ◌<◌, ◌≡◌, refl, ◌≢◌, ◌↔◌, ◌⊎◌, true, false, List, [], ◌∷◌, arith}
use pico_sg2hid.Protocol.{ControllerId, digital, analog, config, id_byte}
use pico_sg2hid.Frame.{Ps2Frame, value, error, decode}
use pico_sg2hid.Frame.{ack_timeout}
use pico_sg2hid.Frame.Refusals.{Refused, decode-error_iff}
use pico_sg2hid.Frame.Decode.{Accepts, decode-value_iff}
use pico_sg2hid.Guitar.{map_frame, whammy_from_axis}
use pico_sg2hid.Guitar.Controls.{frame_controls, map_frame_lem, whammy_from_axis_travel}
use pico_sg2hid.Report.{build_report}
use pico_sg2hid.Report.Descriptor.{hid_report_descriptor}
use pico_sg2hid.Report.Host.{read_report}
use pico_sg2hid.Report.Layout.{state_of, button, axis_x, read_report-build_report}
use pico_sg2hid.Command.Lines.{OneLine}

-- A digital frame with the green fret held, and a byte behind it.
abbrev green_bytes : List ℕ
green_bytes = 0x41 ∷ 0x5A ∷ 0xFF ∷ 0xFD ∷ 0x00 ∷ []

abbrev green_frame : Ps2Frame
green_frame = record { id = digital; payload = 0xFF ∷ 0xFD ∷ 0 ∷ 0 ∷ 0 ∷ 0 ∷ [] }

decode_green : decode green_bytes ≡ value green_frame
unfolding decode
decode_green = refl

decode-value_iff_example :
    (decode green_bytes ≡ value green_frame) ↔ Accepts green_bytes green_frame
decode-value_iff_example = decode-value_iff green_bytes green_frame

undeclared : (id : ControllerId) → 0xFF ≢ id_byte id
undeclared digital = omega arith
undeclared analog = omega arith
undeclared config = omega arith

map_frame_lem_example :
    map_frame (record { id = analog; payload = 0xFE ∷ 0xFD ∷ 0x7F ∷ 0x7F ∷ 0x7F ∷ 0x40 ∷ [] })
    ≡ frame_controls analog 0xFE 0xFD 0x40
map_frame_lem_example =
    map_frame_lem analog 0xFE 0xFD 0x7F 0x7F 0x7F 0x40 (omega arith) (omega arith)

whammy_from_axis_travel_example :
    (whammy_from_axis 0x7F ≤ whammy_from_axis 0x40)
    × ((127 ≤ 0x40) ⊎ (whammy_from_axis 0x7F < whammy_from_axis 0x40))
    × (whammy_from_axis 0x40 ≤ 254)
    × ((0x7F < 127) ⊎ (whammy_from_axis 0x7F ≡ 0))
whammy_from_axis_travel_example = whammy_from_axis_travel 0x7F 0x40 (omega arith)

read_report-build_report_example :
    read_report hid_report_descriptor
      (build_report (state_of true false false false true false true false false true 200))
    ≡ button 1 1
      ∷ button 2 0
      ∷ button 3 0
      ∷ button 4 0
      ∷ button 5 1
      ∷ button 6 0
      ∷ button 7 1
      ∷ button 8 0
      ∷ button 9 0
      ∷ button 10 1
      ∷ axis_x 200
      ∷ []
read_report-build_report_example =
    read_report-build_report true false false false true false true false false true 200
      (omega arith)

-- `analog` behind a carriage return.
abbrev typed : List ℕ
typed = 97 ∷ 110 ∷ 97 ∷ 108 ∷ 111 ∷ 103 ∷ 13 ∷ []

typed-OneLine : OneLine typed
typed-OneLine = (
  omega arith,
  (omega arith, (omega arith, (omega arith, (omega arith, (omega arith, (omega arith, tt)))))),
)

-- An analog frame of which the last byte is missing.
decode-error_iff_example :
    (decode (0x73 ∷ 0x5A ∷ 1 ∷ 2 ∷ 3 ∷ 4 ∷ 5 ∷ []) ≡ error ack_timeout)
    ↔ Refused (0x73 ∷ 0x5A ∷ 1 ∷ 2 ∷ 3 ∷ 4 ∷ 5 ∷ []) ack_timeout
decode-error_iff_example = decode-error_iff (0x73 ∷ 0x5A ∷ 1 ∷ 2 ∷ 3 ∷ 4 ∷ 5 ∷ []) ack_timeout
