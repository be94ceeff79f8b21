-- ===== src/Poll/Reports.antt =====
-- When the host is told of a control (src/core/poll.cpp).
use pico_sg2hid.Common.{◌≡◌, refl, ◌≢◌, [], ◌∷◌}
use pico_sg2hid.Frame.{Ps2Frame, DecodeOutcome, value, error}
use pico_sg2hid.Guitar.{map_frame}
use pico_sg2hid.Report.{build_report, set_button, fret_of}
use pico_sg2hid.Link.{LinkState, absent, negotiating, digital_streaming, analog_streaming}
use pico_sg2hid.Poll.{neutral_report, report_for}

-- The neutral report is three zero bytes: no button set, the whammy at rest.
pub neutral_report_lem : neutral_report ≡ 0 ∷ 0 ∷ 0 ∷ []
unfolding neutral_report build_report set_button fret_of
neutral_report_lem = refl

-- A report other than the neutral one is that of a good frame decoded while the link streams
-- analog: no press is held on the host across a dropped link, and none comes from another mode.
pub report_for_pressed :
    (now : LinkState) (outcome : DecodeOutcome)
    → report_for now outcome ≢ 0 ∷ 0 ∷ 0 ∷ []
    → (now ≡ analog_streaming)
      × (frame : Ps2Frame) × (outcome ≡ value frame)
      × (report_for now outcome ≡ build_report (map_frame frame))
unfolding report_for
report_for_pressed analog_streaming (value frame) h = (refl, frame, refl, refl)
report_for_pressed analog_streaming (error e) h = absurd (h neutral_report_lem)
report_for_pressed absent o h = absurd (h neutral_report_lem)
report_for_pressed negotiating o h = absurd (h neutral_report_lem)
report_for_pressed digital_streaming o h = absurd (h neutral_report_lem)
