-- ===== src/Emulator.antt =====
-- What the emulated guitar answers on the bus (src/emu/sg_model.h, the class `SgModel` of
-- src/emu/sg_model.cpp), one byte at a time. A method that changes the model returns the new one.
pub mod Commands
pub mod Frames
use pico_sg2hid.Common.{
  ℕ, ◌+◌, ◌-◌, Bool, true, false, not, ◌&&◌, ◌||◌, List, [], ◌∷◌, ltb, leb, ◌==◌, if◌then◌else◌, u8,
  get_or,
}
use pico_sg2hid.Protocol.{
  ControllerId, digital, analog, config, id_byte, frame_start, cmd_poll, cmd_config, cmd_set_mode,
  config_enter, config_leave, mode_analog, mode_digital, ready_byte, frame_len,
}

abbrev pub ack_delay_us : ℕ
ack_delay_us = 11

abbrev pub ack_pulse_us : ℕ
ack_pulse_us = 2

abbrev pub max_line_len : ℕ
max_line_len = 64

abbrev pub max_payload : ℕ
max_payload = 6

abbrev pub idle_byte : ℕ
idle_byte = 0xFF

abbrev pub buttons_released : ℕ
buttons_released = 0xFF

abbrev pub axis_centred : ℕ
axis_centred = 0x80

abbrev pub config_reply_byte : ℕ
config_reply_byte = 0x00

abbrev pub wire_id_index : ℕ
wire_id_index = 1

abbrev pub wire_ready_index : ℕ
wire_ready_index = 2

abbrev pub wire_payload_start : ℕ
wire_payload_start = 3

abbrev pub wire_argument_index : ℕ
wire_argument_index = 3

abbrev pub Payload : Type 0
Payload = List ℕ

pub record ByteAnswer : Type 0 where
  pub next : ℕ
  pub should_ack : Bool
  pub ack_delay_us : ℕ

pub data FaultKind : Type 0 where
  none ack late id decline : FaultKind

abbrev pub kind_eq : FaultKind → FaultKind → Bool
kind_eq none none = true
kind_eq ack ack = true
kind_eq late late = true
kind_eq id id = true
kind_eq decline decline = true
kind_eq _ _ = false

pub record Fault : Type 0 where
  pub kind : FaultKind
  pub value : ℕ

abbrev pub no_fault : Fault
no_fault = record { kind = none; value = 0 }

pub record SgModel : Type 0 where
  pub is_analog : Bool
  pub is_config : Bool
  pub command : ℕ
  pub argument : ℕ
  pub has_argument : Bool
  pub payload : Payload
  pub fault : Fault
  pub index : ℕ
  pub is_broken : Bool

-- `SgModel{}`, by the members' initialisers.
abbrev pub new_model : SgModel
new_model = record {
  is_analog = false;
  is_config = false;
  command = 0;
  argument = 0;
  has_argument = false;
  payload =
      buttons_released ∷ buttons_released ∷ axis_centred ∷ axis_centred ∷ axis_centred
      ∷ axis_centred ∷ [];
  fault = no_fault;
  index = 0;
  is_broken = false;
}

unfoldable pub apply_command : SgModel → SgModel
apply_command m =
    let is_declined = kind_eq m.fault.kind decline in
    if m.command == cmd_config && m.argument == config_enter
    then record m { is_config = true }
    else if m.command == cmd_config && m.argument == config_leave
    then record m { is_config = false }
    else if m.command == cmd_set_mode && m.argument == mode_analog && not is_declined
    then record m { is_analog = true }
    else if m.command == cmd_set_mode && m.argument == mode_digital
    then record m { is_analog = false }
    else m

unfoldable pub reset : SgModel → SgModel
unfolding apply_command
reset m =
    let applied = if m.has_argument then apply_command m else m in
    record applied { has_argument = false; index = 0; is_broken = false }

abbrev pub mode_id : SgModel → ControllerId
mode_id m = if m.is_config then config else if m.is_analog then analog else digital

abbrev pub last_index : SgModel → ℕ
last_index m = frame_len (mode_id m)

unfoldable pub byte_at : SgModel → ℕ → ℕ
byte_at m index =
    if index == wire_id_index
    then (if kind_eq m.fault.kind id then u8 m.fault.value else id_byte (mode_id m))
    else if index == wire_ready_index
    then ready_byte
    else if leb wire_payload_start index && leb index (last_index m)
    then (if m.is_config
        then config_reply_byte
        else get_or m.payload (index - wire_payload_start) 0)
    else idle_byte

-- The command, the argument and the breaks that a received byte leaves in the model.
unfoldable pub receive : SgModel → ℕ → SgModel
receive m received =
    let is_command_accepted =
      received == cmd_poll || received == cmd_config || (m.is_config && received == cmd_set_mode) in
    let breaks =
      (m.index == 0 && not (received == frame_start))
      || (m.index == wire_id_index && not is_command_accepted) in
    let is_broken = if breaks then true else m.is_broken in
    let is_command = not is_broken && m.index == wire_id_index in
    let is_argument = not is_broken && m.index == wire_argument_index in
    record m {
      index = m.index + 1;
      is_broken = is_broken;
      command = if is_command then received else m.command;
      argument = if is_argument then received else m.argument;
      has_argument = if is_argument then true else m.has_argument;
    }

unfoldable pub step : SgModel → ℕ → ByteAnswer × SgModel
unfolding byte_at receive
step m received =
    let index = m.index in
    let after = receive m received in
    let should_ack = not after.is_broken && ltb index (last_index after) in
    let is_withheld = kind_eq after.fault.kind ack && index == after.fault.value in
    (
      record {
        next = if after.is_broken then idle_byte else byte_at after (index + 1);
        should_ack = if is_withheld then false else should_ack;
        ack_delay_us = if kind_eq after.fault.kind late then after.fault.value else ack_delay_us;
      },
      after,
    )
