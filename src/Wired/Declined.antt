-- ===== src/Wired/Declined.antt =====
-- The master firmware (src/app/main.cpp) over an emulated guitar that declines analog mode
-- (src/emu/sg_model.cpp).
use pico_sg2hid.Common.{
  ℕ, ◌≤◌, ◌≡◌, ◌≢◌, inl, inr, refl, sym, ◌∙◌, Bool, true, false, Bool-cases, none, some,
  Option-cases, List, [], ◌∷◌, arith, get_or, u32_max, u32_sub, if◌then◌else◌,
}
use pico_sg2hid.Protocol.{analog}
use pico_sg2hid.Frame.Decode.{id_from_byte_iff}
use pico_sg2hid.Link
use pico_sg2hid.Link.{analog_streaming}
use pico_sg2hid.Link.Lifecycle.{step_value, step_error}
use pico_sg2hid.Trace.{WireByte, zero_wire}
use pico_sg2hid.Poll.{decode_poll}
use pico_sg2hid.Negotiation.{
  Master, Exchanged, NegotiationStage, prefix_id, command_for, advance, enter_config, set_analog,
  leave_config, polling,
}
use pico_sg2hid.Negotiation.Prefix.{prefix_id-decode_poll}
use pico_sg2hid.Negotiation.Sequence.{Outcome-cases}
use pico_sg2hid.Bus.{Exchange, exchange_frame}
use pico_sg2hid.Bus.Loop.{
  has_more, exchanges, exchanges_unanswered, exchanges_answered, exchange_frame-exchanges,
}
use pico_sg2hid.Emulator.{SgModel, idle_byte, reset, step}
use pico_sg2hid.Emulator.Frames.{Declines, reset-Declines, step-Declines}
use pico_sg2hid.Usb.{UsbDevice, new_device}
use pico_sg2hid.Firmware.{
  Poller, Readings, frame_of, turn, turns, summarise, print_summary, is_summary_due, new_poller,
}
use pico_sg2hid.Firmware.Turns.{
  Holds, boot-Holds, turn-Holds, turn-leaves, exchanged, summarise-Holds, boot-quiet,
}
use pico_sg2hid.Wired.Served.{exchange_one-wired}
use pico_sg2hid.Wired.{wired, wired_exchange, Guitar}

-- The byte behind the first one of a frame is not the id of the analog mode.
header-declined : (m : SgModel) (out : ℕ) → Declines m → m.index ≡ 0 → (step m out).0.next ≢ 0x73
unfolding step
header-declined m out d h e = ground arith

prefix_id-other :
    (x : Exchanged) → (get_or x.wire 1 zero_wire).in_byte ≢ 0x73 → prefix_id x ≢ some analog
unfolding prefix_id
prefix_id-other x h e = ground (arith, id_from_byte_iff (get_or x.wire 1 zero_wire).in_byte analog)

step-other :
    (m : Master) (x : Exchanged) (us : ℕ)
    → m.link.us_in_state ≤ u32_max
    → us ≤ u32_max
    → prefix_id x ≢ some analog
    → (Link.step m.link (decode_poll x.wire x.completed) us).state ≢ analog_streaming
step-other m x us hl hu h = elim (Outcome-cases (decode_poll x.wire x.completed)) [
  | inl (f, e) ↦
      let (long, shown) = prefix_id-decode_poll x.wire x.completed f e in
      rw e (ground (arith, step_value m.link f us hl hu))
  | inr (err, e) ↦ rw e (ground (arith, step_error m.link err us hl hu))
]

advance-other :
    (m : Master) (x : Exchanged) (us : ℕ)
    → m.link.us_in_state ≤ u32_max
    → us ≤ u32_max
    → m.link.state ≢ analog_streaming
    → prefix_id x ≢ some analog
    → (advance m x us).0.link.state ≢ analog_streaming
unfolding advance
advance-other m x us hl hu hs h = ground (arith, step-other m x us hl hu h)

-- A byte that comes in is the one that the model decided on before.
same_byte : (failed : Bool) (next b : ℕ) → (if failed then none else some next) ≡ some b → b ≡ next
same_byte true next b e = absurd (cc)
same_byte false next b e = cc

module _ (us : ℕ) where
  exchanges-Declines :
      (first : Bool) (frame : List WireByte) (m : SgModel) (next : ℕ)
      → Declines m
      → Declines (exchanges (wired us) first frame (m, next)).port.0
  unfolding exchanges
  exchanges-Declines first [] m next d = d
  exchanges-Declines first (w ∷ rest) m next d =
      let got = wired_exchange us w.out (has_more rest) (m, next) in
      let e = exchange_one-wired us first w rest (m, next) in
      let d' = step-Declines m w.out d in
      elim (Option-cases got.0.in_byte) [
        | inl n ↦ rw (exchanges_unanswered (wired us) first w rest (m, next) got e n) d'
        | inr (b, n) ↦
            rw (exchanges_answered (wired us) first w rest (m, next) got b e n)
              (exchanges-Declines false rest (step m w.out).1 (step m w.out).0.next d')
      ]

  -- What the frame shows behind its first byte.
  exchanges-header :
      (w₀ w₁ : WireByte) (rest : List WireByte) (m : SgModel) (next : ℕ)
      → Declines m
      → m.index ≡ 0
      → w₁.in_byte ≡ 0
      → (get_or (exchanges (wired us) true (w₀ ∷ w₁ ∷ rest) (m, next)).frame 1 zero_wire).in_byte
        ≢ 0x73
  exchanges-header w₀ w₁ rest m next d e z =
      let got = wired_exchange us w₀.out true (m, next) in
      let (m', next') = got.1 in
      let got' = wired_exchange us w₁.out (has_more rest) (m', next') in
      let e₀ = exchange_one-wired us true w₀ (w₁ ∷ rest) (m, next) in
      let e₁ = exchange_one-wired us false w₁ rest (m', next') in
      elim (Option-cases got.0.in_byte) [
        | inl n ↦
            rw (exchanges_unanswered (wired us) true w₀ (w₁ ∷ rest) (m, next) got e₀ n)
              (ground arith)
        | inr (b, n) ↦
            rw (exchanges_answered (wired us) true w₀ (w₁ ∷ rest) (m, next) got b e₀ n)
              (elim (Option-cases got'.0.in_byte) [
                | inl n' ↦
                    rw (exchanges_unanswered (wired us) false w₁ rest (m', next') got' e₁ n')
                      (ground arith)
                | inr (b', n') ↦
                    let same = same_byte _ next' b' n' in
                    let other = header-declined m w₀.out d e in
                    rw (exchanges_answered (wired us) false w₁ rest (m', next') got' b' e₁ n')
                      (λ h. other (sym same ∙ h))
              ])
      ]

  -- A frame of the sequence has a second byte, into which nothing has come.
  frame_of-two :
      (stage : NegotiationStage)
      → (w₀ w₁ : WireByte) × (rest : List WireByte) × (frame_of (command_for stage)
          ≡ w₀ ∷ w₁ ∷ rest)
        × (w₁.in_byte ≡ 0)
  unfolding frame_of command_for
  frame_of-two enter_config = (_, _, _, refl, refl)
  frame_of-two set_analog = (_, _, _, refl, refl)
  frame_of-two leave_config = (_, _, _, refl, refl)
  frame_of-two polling = (_, _, _, refl, refl)

  Declined : Exchange Guitar → Type 0
  Declined x = Declines x.port.0 × ((get_or x.frame 1 zero_wire).in_byte ≢ 0x73)

  exchange-Declined :
      (stage : NegotiationStage) (m : SgModel) (next : ℕ)
      → Declines m
      → Declined (exchange_frame (wired us) (frame_of (command_for stage)) (m, next))
  unfolding Declined reset
  exchange-Declined stage m next d =
      let (w₀, w₁, rest, e, z) = frame_of-two stage in
      let d' = reset-Declines m d in
      rw (exchange_frame-exchanges (wired us) (frame_of (command_for stage)) (m, next)) (
        exchanges-Declines true (frame_of (command_for stage)) (reset m) idle_byte d',
        rw e (exchanges-header w₀ w₁ rest (reset m) idle_byte d' refl z),
      )

  -- Between two turns: the guitar still declines, and the link does not stream analog.
  record Refused (p : Poller) (d : UsbDevice) (guitar : Guitar) : Type 0 where
    holds : Holds p d
    declines : Declines guitar.0
    silent : p.master.link.state ≢ analog_streaming

  turn-Refused :
      (r : Readings) (start : ℕ) (p : Poller) (d : UsbDevice) (guitar : Guitar)
      → Refused p d guitar
      → let after = turn (wired us) r start p d guitar in
        Refused after.poller after.device after.port
  unfolding Declined
  turn-Refused r start p d (m, next) h =
      let leaves = turn-leaves (wired us) r start p d (m, next) in
      let x = exchanged (wired us) r start p d (m, next) in
      let (declines, other) = exchange-Declined p.master.stage m next h.declines in
      let shown : Exchanged = record { wire = x.frame; completed = x.done } in
      record {
        holds = turn-Holds (wired us) r start p d (m, next) h.holds;
        declines = rw leaves.port_is declines;
        silent = rw leaves.master_is (
            advance-other p.master shown (u32_sub start p.poll_start) h.holds.sound.link_inv.fits
              (omega arith) h.silent (prefix_id-other shown other));
      }

  summarise-Refused :
      (now : ℕ) (p : Poller) (d : UsbDevice) (guitar : Guitar)
      → Refused p d guitar
      → Refused (summarise now p) d guitar
  unfolding summarise print_summary
  summarise-Refused now p d guitar h = elim (Bool-cases (is_summary_due p)) [
    | inl e ↦ record {
      holds = summarise-Holds now p d h.holds;
      declines = h.declines;
      silent = rw e h.silent;
    }
    | inr e ↦ record {
      holds = summarise-Holds now p d h.holds;
      declines = h.declines;
      silent = rw e h.silent;
    }
  ]

  turns-Refused :
      (rs : List (Readings × ℕ)) (p : Poller) (d : UsbDevice) (guitar : Guitar)
      → Refused p d guitar
      → let after = turns (wired us) rs p d guitar in Refused after.poller after.device after.port
  unfolding turns
  turns-Refused [] p d guitar h = h
  turns-Refused ((r, start) ∷ rest) p d guitar h =
      let after = turn (wired us) r start p d guitar in
      turns-Refused rest (summarise r.summarised_at after.poller) after.device after.port (
        summarise-Refused r.summarised_at after.poller after.device after.port
          (turn-Refused r start p d guitar h))

  -- Over an emulated guitar with the fault `decline` that is not in analog mode, whatever run of turns
  -- the master firmware makes from boot on: the link never streams analog, and a host always reads the
  -- neutral report, no control pressed and the whammy at rest. The guitar keeps declining.
  pub boot-Declines :
      (rs : List (Readings × ℕ)) (start : ℕ) (guitar : Guitar)
      → Declines guitar.0
      → let after = turns (wired us) rs (new_poller start) new_device guitar in
        (after.poller.master.link.state ≢ analog_streaming)
        × (after.device.stored_report ≡ 0 ∷ 0 ∷ 0 ∷ [])
        × Declines after.port.0
  unfolding new_poller
  boot-Declines rs start guitar d =
      let h =
        turns-Refused rs (new_poller start) new_device guitar
          (record { holds = boot-Holds start; declines = d; silent = ground arith }) in
      let (_, quiet) = boot-quiet (wired us) rs start guitar in
      (h.silent, elim quiet [ inl e ↦ absurd (h.silent e) | inr e ↦ e ], h.declines)
