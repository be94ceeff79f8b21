-- ===== src/Tests/Observing.antt =====
-- The observe firmware (src/app/observe.cpp) and the reports of the master (src/app/main.cpp) at
-- concrete inputs.
use pico_sg2hid.Common.{ℕ, ◌≡◌, refl, true, none, some, List, [], ◌∷◌}
use pico_sg2hid.Command.{newline}
use pico_sg2hid.Emulator.{new_model}
use pico_sg2hid.Usb.{new_device}
use pico_sg2hid.Host.{split}
use pico_sg2hid.Observe.{Turn, asked, polled, new_observer, turns}
use pico_sg2hid.Observe.Commanded.{is_commanded}
use pico_sg2hid.Observe.Heard.{mode_of}
use pico_sg2hid.Observe.Switch.{typed_of, turns-is_commanded}
use pico_sg2hid.Firmware.{Readings, new_poller}
use pico_sg2hid.Firmware
use pico_sg2hid.Firmware.Reports.{AreReports, IsReport, turns-IsReport}
use pico_sg2hid.Wired.{wired}

-- `hi`, then `analog` with a carriage return, with a frame between the characters.
abbrev session : List Turn
session =
    asked (some b'h')
    ∷ asked (some b'i')
    ∷ asked (some newline)
    ∷ asked none
    ∷ polled 8000
    ∷ asked (some b'a')
    ∷ asked (some b'n')
    ∷ polled 16000
    ∷ asked (some b'a')
    ∷ asked (some b'l')
    ∷ asked (some b'o')
    ∷ asked (some b'g')
    ∷ asked (some 13)
    ∷ asked (some newline)
    ∷ polled 24000
    ∷ []

session_commands : is_commanded (split newline (typed_of session)) ≡ true
unfolding split
session_commands = refl

turns-is_commanded_example :
    (turns
      (wired 50)
      session
      (record { observer = new_observer; poll_start = 0; port = (new_model, 0xFF) })).observer.mode
    ≡ mode_of (is_commanded (split newline (typed_of session)))
turns-is_commanded_example = turns-is_commanded (wired 50) session 0 (new_model, 0xFF)

abbrev polled_at : ℕ → Readings
polled_at start = record {
  is_report_ready = true;
  is_send_ready = true;
  frame_start = start;
  handed_at = start;
  summarised_at = start;
}

turns-IsReport_example :
    let device =
      (Firmware.turns
        (wired 50)
        ((polled_at 8000, 8000) ∷ (polled_at 16000, 16000) ∷ [])
        (new_poller 0)
        new_device
        (new_model, 0xFF)).device in
    AreReports device.handed × IsReport device.stored_report
turns-IsReport_example =
    turns-IsReport (wired 50) ((polled_at 8000, 8000) ∷ (polled_at 16000, 16000) ∷ []) 0
      (new_model, 0xFF)
