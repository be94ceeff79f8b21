-- ===== src/Wired/Streaming.antt =====
-- From switching on, or from any drop of the link, to the guitar's controls at the host: the
-- firmware of src/app/main.cpp over the emulated guitar of src/emu/sg_model.cpp.
use pico_sg2hid.Common.{
  ℕ, ◌≤◌, ◌≡◌, ap, ◌∙◌, Bool, true, false, List, [], ◌∷◌, arith, u32_sub, Bool-cases, inl, inr,
}
use pico_sg2hid.Protocol.{analog}
use pico_sg2hid.Guitar.{map_frame}
use pico_sg2hid.Report.{build_report}
use pico_sg2hid.Link.{LinkState, absent, negotiating, analog_streaming, negotiation_timeout_us}
use pico_sg2hid.Negotiation.{NegotiationStage, enter_config, set_analog, leave_config, polling}
use pico_sg2hid.Negotiation.Sequence.{IsSound}
use pico_sg2hid.Emulator.{SgModel, Payload, no_fault, reset}
use pico_sg2hid.Usb.{UsbDevice}
use pico_sg2hid.Firmware.{
  Poller, Readings, Round, turn, turns, summarise, print_summary, is_summary_due,
}
use pico_sg2hid.Firmware.Turns.{turn-leaves}
use pico_sg2hid.Wired.{wired, Guitar}
use pico_sg2hid.Wired.Exchange.{selected}
use pico_sg2hid.Wired.Startup.{Phase, turn-enter, turn-set, turn-leave, turn-poll}

-- A guitar without a fault is met in one of its modes, with its payload.
reset-selected :
    (m : SgModel)
    → m.fault ≡ no_fault
    → reset m
      ≡ selected
          (reset m).is_analog
          (reset m).is_config
          (reset m).command
          (reset m).argument
          m.payload
unfolding reset
reset-selected m e = ground arith

summarise-Phase :
    (stage : NegotiationStage) (state : LinkState) (an cf : Bool) (payload : Payload) (p : Poller)
    (g : Guitar) (now : ℕ)
    → Phase stage state an cf payload p g
    → Phase stage state an cf payload (summarise now p) g
unfolding summarise print_summary
summarise-Phase stage state an cf payload p g now h = elim (Bool-cases (is_summary_due p)) [
  | inl e ↦ rw e (record {
    stage_is = h.stage_is;
    state_is = h.state_is;
    fresh = h.fresh;
    command = h.command;
    argument = h.argument;
    model_is = h.model_is;
  })
  | inr e ↦ rw e h
]

summarise-poll_start : (now : ℕ) (p : Poller) → (summarise now p).poll_start ≡ p.poll_start
unfolding summarise print_summary
summarise-poll_start now p = ground arith

-- The analog frame's controls as the report that the host reads.
abbrev host_report : Payload → List ℕ
host_report payload = build_report (map_frame (record { id = analog; payload = payload }))

module _ (us a b c d e f : ℕ) where
  abbrev payload : Payload
  payload = a ∷ b ∷ c ∷ d ∷ e ∷ f ∷ []

  Streams : Round Guitar → Type 0
  Streams after =
      (after.poller.master.link.state ≡ analog_streaming)
      × (after.device.stored_report ≡ host_report payload)

  keeps_streaming :
      (rs : List (Readings × ℕ)) (p : Poller) (dev : UsbDevice) (g : Guitar)
      → Phase polling analog_streaming true false payload p g
      → dev.stored_report ≡ host_report payload
      → Streams (turns (wired us) rs p dev g)
  unfolding turns Streams
  keeps_streaming [] p dev g h q = (h.state_is, q)
  keeps_streaming ((r, start) ∷ rest) p dev g h q =
      let after = turn (wired us) r start p dev g in
      let (h', q') = turn-poll us a b c d e f r start p dev g analog_streaming h in
      keeps_streaming rest (summarise r.summarised_at after.poller) after.device after.port
        (summarise-Phase _ _ _ _ _ after.poller after.port r.summarised_at h') q'

  from_polling :
      (r : Readings) (start : ℕ) (rs : List (Readings × ℕ)) (p : Poller) (dev : UsbDevice)
      (g : Guitar)
      → Phase polling negotiating true false payload p g
      → Streams (turns (wired us) ((r, start) ∷ rs) p dev g)
  unfolding turns
  from_polling r start rs p dev g h =
      let after = turn (wired us) r start p dev g in
      let (h', q') = turn-poll us a b c d e f r start p dev g negotiating h in
      keeps_streaming rs (summarise r.summarised_at after.poller) after.device after.port
        (summarise-Phase _ _ _ _ _ after.poller after.port r.summarised_at h') q'

  from_leaving :
      (r₃ r₄ : Readings) (t₃ t₄ : ℕ) (rs : List (Readings × ℕ)) (p : Poller) (dev : UsbDevice)
      (g : Guitar)
      → Phase leave_config negotiating true true payload p g
      → u32_sub t₃ p.poll_start ≤ negotiation_timeout_us
      → Streams (turns (wired us) ((r₃, t₃) ∷ (r₄, t₄) ∷ rs) p dev g)
  unfolding turns
  from_leaving r₃ r₄ t₃ t₄ rs p dev g h hu =
      let after = turn (wired us) r₃ t₃ p dev g in
      let h' = turn-leave us a b c d e f r₃ t₃ p dev g h hu in
      from_polling r₄ t₄ rs (summarise r₃.summarised_at after.poller) after.device after.port
        (summarise-Phase _ _ _ _ _ after.poller after.port r₃.summarised_at h')

  from_setting :
      (r₂ r₃ r₄ : Readings) (t₂ t₃ t₄ : ℕ) (rs : List (Readings × ℕ)) (p : Poller) (dev : UsbDevice)
      (g : Guitar) (is_analog : Bool)
      → Phase set_analog absent is_analog true payload p g
      → u32_sub t₃ t₂ ≤ negotiation_timeout_us
      → Streams (turns (wired us) ((r₂, t₂) ∷ (r₃, t₃) ∷ (r₄, t₄) ∷ rs) p dev g)
  unfolding turns
  from_setting r₂ r₃ r₄ t₂ t₃ t₄ rs p dev g is_analog h hu =
      let after = turn (wired us) r₂ t₂ p dev g in
      let h' = turn-set us a b c d e f r₂ t₂ p dev g is_analog h in
      let start_is =
        summarise-poll_start r₂.summarised_at after.poller
        ∙ (turn-leaves (wired us) r₂ t₂ p dev g).start_is in
      from_leaving r₃ r₄ t₃ t₄ rs (summarise r₂.summarised_at after.poller) after.device after.port
        (summarise-Phase _ _ _ _ _ after.poller after.port r₂.summarised_at h') (rw start_is hu)

  -- Whatever mode a faultless guitar is in, whatever it was told last and whatever its six payload
  -- bytes are: from a master at the start of the sequence, four turns of the firmware bring the
  -- link to stream analog, and from then on, for as many turns as there are, the report that a
  -- host reads is that of the guitar's payload as an analog frame. The turns may come at any times,
  -- except that the third follows the second within the negotiation timeout.
  pub startup-streams :
      (r₁ r₂ r₃ r₄ : Readings) (t₁ t₂ t₃ t₄ : ℕ) (rs : List (Readings × ℕ)) (p : Poller)
      (dev : UsbDevice) (m : SgModel) (next : ℕ)
      → IsSound p.master
      → p.master.stage ≡ enter_config
      → m.fault ≡ no_fault
      → m.payload ≡ a ∷ b ∷ c ∷ d ∷ e ∷ f ∷ []
      → u32_sub t₃ t₂ ≤ negotiation_timeout_us
      → let after =
          turns (wired us) ((r₁, t₁) ∷ (r₂, t₂) ∷ (r₃, t₃) ∷ (r₄, t₄) ∷ rs) p dev (m, next) in
        (after.poller.master.link.state ≡ analog_streaming)
        × (after.device.stored_report
            ≡ build_report
                (map_frame (record { id = analog; payload = a ∷ b ∷ c ∷ d ∷ e ∷ f ∷ [] })))
  unfolding turns Streams
  startup-streams r₁ r₂ r₃ r₄ t₁ t₂ t₃ t₄ rs p dev m next sound at_start no_f pay hu =
      let after = turn (wired us) r₁ t₁ p dev (m, next) in
      let h : Phase enter_config absent (reset m).is_analog (reset m).is_config payload p
          (m, next) =
        record {
          stage_is = at_start;
          state_is = ground (arith, sound.agrees);
          fresh = λ q. absurd (cc);
          command = (reset m).command;
          argument = (reset m).argument;
          model_is = reset-selected m no_f ∙ ap (selected _ _ _ _) pay;
        } in
      let h' = turn-enter us a b c d e f r₁ t₁ p dev (m, next) _ _ h in
      from_setting r₂ r₃ r₄ t₂ t₃ t₄ rs (summarise r₁.summarised_at after.poller) after.device
        after.port (reset m).is_analog
        (summarise-Phase _ _ _ _ _ after.poller after.port r₁.summarised_at h') hu
