-- ===== src/Tests/Firmware.antt =====
-- The firmware of src/app/main.cpp and the frame loop of src/hal/bus_frame.cpp at concrete inputs,
-- over the emulated guitar.
use pico_sg2hid.Common.{ℕ, ◌≡◌, refl, ◌≢◌, ◌⊎◌, true, List, [], ◌∷◌, ◌++◌, arith}
use pico_sg2hid.Protocol.{analog, att_setup_us}
use pico_sg2hid.Guitar.{map_frame}
use pico_sg2hid.Report.{build_report}
use pico_sg2hid.Link.{digital_streaming, analog_streaming}
use pico_sg2hid.Trace.{WireByte}
use pico_sg2hid.Negotiation.{enter_config_command}
use pico_sg2hid.Negotiation.Sequence.{new_master-IsSound}
use pico_sg2hid.Bus.{exchange_frame}
use pico_sg2hid.Bus.Loop.{exchanges, exchange_frame-exchanges}
use pico_sg2hid.Bus.Events.{asserted, released, waited, recording, sends, exchange_frame-calls}
use pico_sg2hid.Emulator.{SgModel, decline, new_model}
use pico_sg2hid.Emulator.Frames.{Declines}
use pico_sg2hid.Usb.{new_device}
use pico_sg2hid.Firmware.{Readings, new_poller, frame_of, turns}
use pico_sg2hid.Firmware.Turns.{boot-quiet}
use pico_sg2hid.Wired.{wired}
use pico_sg2hid.Wired.Declined.{boot-Declines}
use pico_sg2hid.Wired.Streaming.{startup-streams}

abbrev ready_at : ℕ → Readings
ready_at start = record {
  is_report_ready = true;
  is_send_ready = true;
  frame_start = start;
  handed_at = start;
  summarised_at = start;
}

-- A digital guitar with the green fret held and the bar pressed.
abbrev held : SgModel
held = record new_model { payload = 0xFF ∷ 0xFD ∷ 0x7F ∷ 0x7F ∷ 0x7F ∷ 0x40 ∷ [] }

startup-streams_example :
    let after =
      turns
        (wired 50)
        ((ready_at 8000, 8000)
          ∷ (ready_at 16000, 16000)
          ∷ (ready_at 24000, 24000)
          ∷ (ready_at 32000, 32000)
          ∷ (ready_at 40000, 40000)
          ∷ [])
        (new_poller 0)
        new_device
        (held, 0xFF) in
    (after.poller.master.link.state ≡ analog_streaming)
    × (after.device.stored_report
        ≡ build_report (
            map_frame
              (record { id = analog; payload = 0xFF ∷ 0xFD ∷ 0x7F ∷ 0x7F ∷ 0x7F ∷ 0x40 ∷ [] })))
unfolding new_poller
startup-streams_example =
    startup-streams 50 0xFF 0xFD 0x7F 0x7F 0x7F 0x40 (ready_at 8000) (ready_at 16000)
      (ready_at 24000) (ready_at 32000) 8000 16000 24000 32000 ((ready_at 40000, 40000) ∷ [])
      (new_poller 0) new_device held 0xFF new_master-IsSound refl refl refl (omega arith)

boot-quiet_example :
    let after =
      turns (wired 50) ((ready_at 8000, 8000) ∷ []) (new_poller 0) new_device (held, 0xFF) in
    (after.poller.master.link.state ≢ digital_streaming)
    × ((after.poller.master.link.state ≡ analog_streaming)
        ⊎ (after.device.stored_report ≡ 0 ∷ 0 ∷ 0 ∷ []))
boot-quiet_example = boot-quiet (wired 50) ((ready_at 8000, 8000) ∷ []) 0 (held, 0xFF)

abbrev first_frame : List WireByte
first_frame = frame_of enter_config_command

exchange_frame-calls_example :
    let after = exchange_frame (recording (wired 50)) first_frame ((held, 0xFF), []) in
    after.port.1
    ≡ asserted ∷ waited att_setup_us ∷ sends true after.done first_frame ++ released ∷ []
exchange_frame-calls_example = exchange_frame-calls (wired 50) first_frame (held, 0xFF)

exchange_frame-exchanges_example : exchange_frame (wired 50) first_frame (held, 0xFF) ≡ (
    let after =
      exchanges
        (wired 50)
        true
        first_frame
        ((wired 50).bus_wait_us att_setup_us ((wired 50).att_assert (held, 0xFF))) in
    record after { port = (wired 50).att_release after.port })
exchange_frame-exchanges_example = exchange_frame-exchanges (wired 50) first_frame (held, 0xFF)

-- A guitar that keeps to digital mode, with the green fret held.
abbrev declining : SgModel
declining = record held { fault = record { kind = decline; value = 0 } }

boot-Declines_example :
    let after =
      turns
        (wired 50)
        ((ready_at 8000, 8000)
          ∷ (ready_at 16000, 16000)
          ∷ (ready_at 24000, 24000)
          ∷ (ready_at 32000, 32000)
          ∷ [])
        (new_poller 0)
        new_device
        (declining, 0xFF) in
    (after.poller.master.link.state ≢ analog_streaming)
    × (after.device.stored_report ≡ 0 ∷ 0 ∷ 0 ∷ [])
    × Declines after.port.0
boot-Declines_example =
    boot-Declines 50
      ((ready_at 8000, 8000)
        ∷ (ready_at 16000, 16000)
        ∷ (ready_at 24000, 24000)
        ∷ (ready_at 32000, 32000)
        ∷ [])
      0 (declining, 0xFF) (refl, refl)
