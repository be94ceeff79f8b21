-- ===== src/Negotiation.antt =====
-- The analog-mode sequence, master side (src/core/negotiation.h, src/core/negotiation.cpp): which
-- frame to send next, and what the answer means. `advance` takes the master and returns the new one
-- with the state that the source's function returns.
pub mod Prefix
pub mod Sequence
pub mod Streaming
use pico_sg2hid.Common.{
  ℕ, ◌+◌, Bool, true, false, not, ◌&&◌, ◌||◌, Option, none, some, List, [], ◌∷◌, ltb, leb, ◌==◌,
  if◌then◌else◌, length, get_or,
}
use pico_sg2hid.Protocol.{
  ControllerId, digital, analog, config, id_eq, frame_start, cmd_poll, cmd_config, cmd_set_mode,
  pad_byte, config_enter, config_leave, mode_analog, mode_locked, header_index, ready_index,
  prefix_len, ready_byte, id_from_byte, frame_len,
}
use pico_sg2hid.Link.{Link, LinkState, FaultCause, absent, new_link, state_eq, step}
use pico_sg2hid.Trace.{WireByte, zero_wire}
use pico_sg2hid.Poll.{decode_poll}

pub data NegotiationStage : Type 0 where
  enter_config set_analog leave_config polling : NegotiationStage

abbrev pub stage_eq : NegotiationStage → NegotiationStage → Bool
stage_eq enter_config enter_config = true
stage_eq set_analog set_analog = true
stage_eq leave_config leave_config = true
stage_eq polling polling = true
stage_eq _ _ = false

pub record Master : Type 0 where
  pub link : Link
  pub stage : NegotiationStage

-- `Master{}`.
abbrev pub new_master : Master
new_master = record { link = new_link; stage = enter_config }

pub record Exchanged : Type 0 where
  pub wire : List WireByte
  pub completed : ℕ

abbrev pub enter_config_len : ℕ
enter_config_len = frame_len digital + 1

abbrev pub long_frame_len : ℕ
long_frame_len = frame_len analog + 1

abbrev pub wire_header_index : ℕ
wire_header_index = header_index + 1

abbrev pub wire_ready_index : ℕ
wire_ready_index = ready_index + 1

abbrev pub wire_prefix_len : ℕ
wire_prefix_len = prefix_len + 1

abbrev pub enter_config_command : List ℕ
enter_config_command = frame_start ∷ cmd_config ∷ pad_byte ∷ config_enter ∷ pad_byte ∷ []

abbrev pub set_analog_command : List ℕ
set_analog_command =
    frame_start ∷ cmd_set_mode ∷ pad_byte ∷ mode_analog ∷ mode_locked ∷ pad_byte ∷ pad_byte
    ∷ pad_byte ∷ pad_byte ∷ []

abbrev pub leave_config_command : List ℕ
leave_config_command =
    frame_start ∷ cmd_config ∷ pad_byte ∷ config_leave ∷ pad_byte ∷ pad_byte ∷ pad_byte ∷ pad_byte
    ∷ pad_byte ∷ []

abbrev pub analog_poll_command : List ℕ
analog_poll_command =
    frame_start ∷ cmd_poll ∷ pad_byte ∷ pad_byte ∷ pad_byte ∷ pad_byte ∷ pad_byte ∷ pad_byte
    ∷ pad_byte ∷ []

unfoldable pub prefix_id : Exchanged → Option ControllerId
prefix_id exchanged =
    if ltb exchanged.completed wire_prefix_len
      || ltb (length exchanged.wire) wire_prefix_len
      || not ((get_or exchanged.wire wire_ready_index zero_wire).in_byte == ready_byte)
    then none
    else id_from_byte (get_or exchanged.wire wire_header_index zero_wire).in_byte

abbrev pub expected_id : NegotiationStage → ControllerId
expected_id stage = if stage_eq stage polling then analog else config

abbrev pub next_stage : NegotiationStage → NegotiationStage
next_stage enter_config = set_analog
next_stage set_analog = leave_config
next_stage leave_config = polling
next_stage polling = polling

unfoldable pub command_for : NegotiationStage → List ℕ
command_for enter_config = enter_config_command
command_for set_analog = set_analog_command
command_for leave_config = leave_config_command
command_for polling = analog_poll_command

-- The link stepped by the frame's decode, the stage left as it was.
step_link : Master → Exchanged → ℕ → Master
step_link master exchanged elapsed_us = record master {
  link = step master.link (decode_poll exchanged.wire exchanged.completed) elapsed_us;
}

-- `id.has_value( ) && *id != expected_id( stage )`
is_declined : NegotiationStage → Option ControllerId → Bool
is_declined stage none = false
is_declined stage (some id) = not (id_eq id (expected_id stage))

advance_enter : Master → Exchanged → ℕ → Option ControllerId → Master
unfolding step_link
advance_enter master exchanged elapsed_us none = step_link master exchanged elapsed_us
advance_enter master exchanged elapsed_us (some id) =
    if leb enter_config_len exchanged.completed
    then record master { stage = next_stage master.stage }
    else step_link master exchanged elapsed_us

advance_later : Master → Exchanged → ℕ → Option ControllerId → Master
unfolding step_link is_declined
advance_later master exchanged elapsed_us id =
    if is_declined master.stage id
    then record {
      link = record { state = absent; last_fault = FaultCause.declined; us_in_state = 0 };
      stage = enter_config;
    }
    else (let stepped = step_link master exchanged elapsed_us in
        record stepped {
          stage =
              if state_eq stepped.link.state absent then enter_config else next_stage master.stage;
        })

unfoldable pub advance : Master → Exchanged → ℕ → Master × LinkState
unfolding advance_enter advance_later
advance master exchanged elapsed_us =
    let id = prefix_id exchanged in
    let after =
      if stage_eq master.stage enter_config
      then advance_enter master exchanged elapsed_us id
      else advance_later master exchanged elapsed_us id in
    (after, after.link.state)
