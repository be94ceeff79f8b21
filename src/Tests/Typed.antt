-- ===== src/Tests/Typed.antt =====
-- The path from a typed line to the USB host at concrete inputs (src/emu/main.cpp, src/app/main.cpp).
use pico_sg2hid.Common.{ℕ, ◌≡◌, refl, [], ◌∷◌, ◌++◌, arith, true}
use pico_sg2hid.Command.{newline}
use pico_sg2hid.Report.Descriptor.{hid_report_descriptor}
use pico_sg2hid.Report.Host.{read_report}
use pico_sg2hid.Negotiation.Sequence.{new_master-IsSound}
use pico_sg2hid.Emulator.{new_model}
use pico_sg2hid.Emulator.Commands.Payloads.{payload_line}
use pico_sg2hid.Serving.{new_reader}
use pico_sg2hid.Serving.Line.{feed}
use pico_sg2hid.Usb.{new_device}
use pico_sg2hid.Firmware.{Readings, turns, new_poller}
use pico_sg2hid.Wired.{wired}
use pico_sg2hid.Wired.Typed.{played, typed-played}

abbrev read_at : ℕ → Readings
read_at start = record {
  is_report_ready = true;
  is_send_ready = true;
  frame_start = start;
  handed_at = start;
  summarised_at = start;
}

-- The green fret and the strum bar up, with the whammy bar half way.
typed-played_example :
    let guitar =
      (feed new_reader new_model (payload_line 0xEF 0xFD 0x7F 0x7F 0x7F 0x40 ++ newline ∷ [])).1 in
    let after =
      turns
        (wired 50)
        ((read_at 8000, 8000)
          ∷ (read_at 16000, 16000)
          ∷ (read_at 24000, 24000)
          ∷ (read_at 32000, 32000)
          ∷ (read_at 40000, 40000)
          ∷ [])
        (new_poller 0)
        new_device
        (guitar, 0xFF) in
    read_report hid_report_descriptor after.device.stored_report ≡ played 0xEF 0xFD 0x40
unfolding new_poller
typed-played_example =
    typed-played 0xEF 0xFD 0x7F 0x7F 0x7F 0x40 (omega arith) new_reader new_model 50 0xFF
      (read_at 8000) (read_at 16000) (read_at 24000) (read_at 32000) 8000 16000 24000 32000
      ((read_at 40000, 40000) ∷ []) (new_poller 0) new_device (refl, refl) refl new_master-IsSound
      refl (omega arith)
