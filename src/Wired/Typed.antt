-- ===== src/Wired/Typed.antt =====
-- The whole path of src/: a line typed at the emulator's serial port (src/emu/main.cpp), the frames of
-- the bus, the master firmware (src/app/main.cpp) and the report that a USB host reads.
use pico_sg2hid.Common.{ℕ, ◌-◌, ◌*◌, ◌≤◌, ◌≡◌, ◌∙◌, refl, ap, List, [], ◌∷◌, ◌++◌, arith, u32_sub}
use pico_sg2hid.Host.{hex-legible}
use pico_sg2hid.Command.{newline}
use pico_sg2hid.Command.Lines.{OneLine}
use pico_sg2hid.Protocol.{analog}
use pico_sg2hid.Guitar.{map_frame}
use pico_sg2hid.Guitar.Controls.{is_clear, map_frame_analog}
use pico_sg2hid.Report.{build_report}
use pico_sg2hid.Report.Descriptor.{hid_report_descriptor}
use pico_sg2hid.Report.Host.{Control, read_report}
use pico_sg2hid.Report.Layout.{button, axis_x, one_if, read_report-build_report}
use pico_sg2hid.Link.{negotiation_timeout_us}
use pico_sg2hid.Negotiation.{enter_config}
use pico_sg2hid.Negotiation.Sequence.{IsSound}
use pico_sg2hid.Emulator.{SgModel, no_fault}
use pico_sg2hid.Emulator.Commands.{payload_text}
use pico_sg2hid.Emulator.Commands.Payloads.{AreBytes, spaced_bytes, payload_line, apply-payload}
use pico_sg2hid.Emulator.Commands.Numbers.{Plain}
use pico_sg2hid.Serving.{LineReader, finish_line}
use pico_sg2hid.Serving.Line.{feed, IsEmpty, feed-finish_line}
use pico_sg2hid.Usb.{UsbDevice}
use pico_sg2hid.Firmware.{Poller, Readings, turns}
use pico_sg2hid.Wired.{wired}
use pico_sg2hid.Wired.Streaming.{startup-streams}

-- The controls that the buttons' two bytes and the byte of the whammy bar stand for.
abbrev pub played : ℕ → ℕ → ℕ → List Control
played low high bar =
    button 1 (one_if (is_clear high 1))
    ∷ button 2 (one_if (is_clear high 5))
    ∷ button 3 (one_if (is_clear high 4))
    ∷ button 4 (one_if (is_clear high 6))
    ∷ button 5 (one_if (is_clear high 7))
    ∷ button 6 (one_if (is_clear low 4))
    ∷ button 7 (one_if (is_clear low 6))
    ∷ button 8 (one_if (is_clear low 3))
    ∷ button 9 (one_if (is_clear low 0))
    ∷ button 10 (one_if (is_clear high 0))
    ∷ axis_x ((127 - bar) * 2)
    ∷ []

spaced_bytes-OneLine : (bytes : List ℕ) → AreBytes bytes → OneLine (spaced_bytes bytes)
spaced_bytes-OneLine [] fit = tt
spaced_bytes-OneLine (byte ∷ bytes) (below, fit) =
    let (h, l, _) = hex-legible byte below in
    ((λ q. omega arith), ((λ q. omega arith), ((λ q. omega arith), spaced_bytes-OneLine bytes fit)))

Plain-append-OneLine : (text rest : List ℕ) → Plain text → OneLine rest → OneLine (text ++ rest)
Plain-append-OneLine [] rest p o = o
Plain-append-OneLine (c ∷ text) rest (pc, p) o =
    ((λ q. omega arith), Plain-append-OneLine text rest p o)

module _ (a b c d e f : ℕ) (fit : AreBytes (a ∷ b ∷ c ∷ d ∷ e ∷ f ∷ [])) where
  report-played :
      read_report hid_report_descriptor
        (build_report (map_frame (record { id = analog; payload = a ∷ b ∷ c ∷ d ∷ e ∷ f ∷ [] })))
      ≡ played a b f
  report-played =
      ap (λ state. read_report hid_report_descriptor (build_report state))
        (map_frame_analog a b (omega arith) (omega arith) c d e f)
      ∙ read_report-build_report _ _ _ _ _ _ _ _ _ _ ((127 - f) * 2) (omega arith)

  payload_line-OneLine : OneLine (payload_line a b c d e f)
  payload_line-OneLine =
      Plain-append-OneLine payload_text (spaced_bytes (a ∷ b ∷ c ∷ d ∷ e ∷ f ∷ [])) (omega arith)
        (spaced_bytes-OneLine (a ∷ b ∷ c ∷ d ∷ e ∷ f ∷ []) fit)

  typed-payload :
      (reader : LineReader) (m : SgModel)
      → IsEmpty reader
      → (feed reader m (payload_line a b c d e f ++ newline ∷ [])).1
        ≡ record m { payload = a ∷ b ∷ c ∷ d ∷ e ∷ f ∷ [] }
  unfolding finish_line
  typed-payload reader m empty =
      let (is_model, _, _) =
        feed-finish_line (payload_line a b c d e f) reader m payload_line-OneLine empty in
      is_model ∙ rw (finish_line, apply-payload a b c d e f fit m) refl

  -- Six bytes typed at the emulator's serial port as a `payload` line, whatever it held and whatever
  -- mode the guitar is in, and no fault set: from a master at the start of the sequence, after four
  -- turns of the firmware and for as many as follow, a USB host that reads the report by the
  -- report descriptor finds each button pressed whose bit is clear in the first two bytes, and the
  -- whammy at twice the bar's way from its rest. The third turn follows the second within the
  -- negotiation timeout.
  pub typed-played :
      (reader : LineReader) (m : SgModel) (us next : ℕ) (r₁ r₂ r₃ r₄ : Readings) (t₁ t₂ t₃ t₄ : ℕ)
      (rs : List (Readings × ℕ)) (p : Poller) (dev : UsbDevice)
      → IsEmpty reader
      → m.fault ≡ no_fault
      → IsSound p.master
      → p.master.stage ≡ enter_config
      → u32_sub t₃ t₂ ≤ negotiation_timeout_us
      → let guitar = (feed reader m (payload_line a b c d e f ++ newline ∷ [])).1 in
        let after =
          turns (wired us) ((r₁, t₁) ∷ (r₂, t₂) ∷ (r₃, t₃) ∷ (r₄, t₄) ∷ rs) p dev (guitar, next) in
        read_report hid_report_descriptor after.device.stored_report ≡ played a b f
  typed-played reader m us next r₁ r₂ r₃ r₄ t₁ t₂ t₃ t₄ rs p dev empty no_f sound at_start hu =
      let guitar = (feed reader m (payload_line a b c d e f ++ newline ∷ [])).1 in
      let is_guitar = typed-payload reader m empty in
      let (_, stored) =
        startup-streams us a b c d e f r₁ r₂ r₃ r₄ t₁ t₂ t₃ t₄ rs p dev guitar next sound at_start
          (ap (λ g. g.fault) is_guitar ∙ no_f) (ap (λ g. g.payload) is_guitar) hu in
      ap (read_report hid_report_descriptor) stored ∙ report-played
