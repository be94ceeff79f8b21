-- ===== src/Wired/Exchange.antt =====
-- The frames of the analog-mode sequence (src/core/negotiation.cpp) as the emulated guitar
-- (src/emu/sg_model.cpp) answers them, for every payload.
use pico_sg2hid.Common.{ℕ, ◌≤◌, ◌≡◌, refl, Bool, true, false, some, [], ◌∷◌, arith, length}
use pico_sg2hid.Protocol.{analog, config}
use pico_sg2hid.Frame.{value, decode}
use pico_sg2hid.Poll.{decode_poll}
use pico_sg2hid.Bus.{Exchange, exchange_frame, exchange_loop, attempt, put_elapsed, put_in}
use pico_sg2hid.Emulator.{SgModel, Payload, no_fault, reset, step, idle_byte, mode_id}
use pico_sg2hid.Negotiation.{
  NegotiationStage, Exchanged, prefix_id, command_for, enter_config, set_analog, leave_config,
  polling,
}
use pico_sg2hid.Firmware.{frame_of}
use pico_sg2hid.Wired.{wired, Guitar}

-- A selected model without a fault, its mode and its last command given.
abbrev pub selected : Bool → Bool → ℕ → ℕ → Payload → SgModel
selected is_analog is_config command argument payload = record {
  is_analog = is_analog;
  is_config = is_config;
  command = command;
  argument = argument;
  has_argument = false;
  payload = payload;
  fault = no_fault;
  index = 0;
  is_broken = false;
}

pub served : ℕ → NegotiationStage → SgModel → Exchange Guitar
served us stage model =
    let frame = frame_of (command_for stage) in
    exchange_loop (wired us) (length frame) 0 frame (model, idle_byte)

pub exchange-served :
    (us : ℕ) (stage : NegotiationStage) (m model : SgModel) (next : ℕ)
    → reset m ≡ model
    → exchange_frame (wired us) (frame_of (command_for stage)) (m, next) ≡ served us stage model
unfolding exchange_frame served
exchange-served us stage m model next e = rw e

abbrev pub exchanged : Exchange Guitar → Exchanged
exchanged x = record { wire = x.frame; completed = x.done }

module _ (us command argument a b c d e f : ℕ) where
  abbrev payload : Payload
  payload = a ∷ b ∷ c ∷ d ∷ e ∷ f ∷ []

  -- In any mode the five bytes that enter config mode complete, with the mode's id in the prefix.
  pub served-enter :
      (is_analog is_config : Bool)
      → let x = served us enter_config (selected is_analog is_config command argument payload) in
        (prefix_id (exchanged x)
          ≡ some (mode_id (selected is_analog is_config command argument payload)))
        × (5 ≤ x.done)
        × (reset x.port.0 ≡ selected is_analog true 0x43 0x01 payload)
  unfolding served exchange_loop attempt put_elapsed put_in frame_of command_for step reset
      prefix_id
  served-enter true true = (refl, omega arith, refl)
  served-enter true false = (refl, omega arith, refl)
  served-enter false true = (refl, omega arith, refl)
  served-enter false false = (refl, omega arith, refl)

  -- In config mode the command that selects analog is answered by a config frame, and obeyed.
  pub served-set :
      (is_analog : Bool)
      → let x = served us set_analog (selected is_analog true command argument payload) in
        (decode_poll x.frame x.done
          ≡ value (record { id = config; payload = 0 ∷ 0 ∷ 0 ∷ 0 ∷ 0 ∷ 0 ∷ [] }))
        × (prefix_id (exchanged x) ≡ some config)
        × (reset x.port.0 ≡ selected true true 0x44 0x01 payload)
  unfolding served exchange_loop attempt put_elapsed put_in frame_of command_for step reset
      prefix_id decode_poll decode
  served-set true = (refl, refl, refl)
  served-set false = (refl, refl, refl)

  -- The command that leaves config mode is still answered by a config frame, and obeyed.
  pub served-leave :
      let x = served us leave_config (selected true true command argument payload) in
      (decode_poll x.frame x.done
        ≡ value (record { id = config; payload = 0 ∷ 0 ∷ 0 ∷ 0 ∷ 0 ∷ 0 ∷ [] }))
      × (prefix_id (exchanged x) ≡ some config)
      × (reset x.port.0 ≡ selected true false 0x43 0x00 payload)
  unfolding served exchange_loop attempt put_elapsed put_in frame_of command_for step reset
      prefix_id decode_poll decode
  served-leave = (refl, refl, refl)

  -- In analog mode a poll is answered by an analog frame with the guitar's payload.
  pub served-poll :
      let x = served us polling (selected true false command argument payload) in
      (decode_poll x.frame x.done ≡ value (record { id = analog; payload = payload }))
      × (prefix_id (exchanged x) ≡ some analog)
      × (reset x.port.0 ≡ selected true false 0x42 0x00 payload)
  unfolding served exchange_loop attempt put_elapsed put_in frame_of command_for step reset
      prefix_id decode_poll decode
  served-poll = (refl, refl, refl)
