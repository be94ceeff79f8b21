-- ===== src/Protocol.antt =====
-- The PS2 controller bus on the wire (src/core/ps2_protocol.h): the bytes that the protocol fixes,
-- the controller ids, and the length of a frame. The wire byte of an id is `id_byte`, C++'s
-- `static_cast<std::uint8_t>( id )`.
use Prim.Native.Nat.{bit_and}
use pico_sg2hid.Common.{ℕ, ◌+◌, ◌*◌, Bool, true, false, Option, none, some, ◌==◌, if◌then◌else◌}

-- Bytes the master sends.
abbrev pub frame_start : ℕ
frame_start = 0x01

abbrev pub cmd_poll : ℕ
cmd_poll = 0x42

abbrev pub cmd_config : ℕ
cmd_config = 0x43

abbrev pub cmd_set_mode : ℕ
cmd_set_mode = 0x44

abbrev pub pad_byte : ℕ
pad_byte = 0x00

abbrev pub config_enter : ℕ
config_enter = 0x01

abbrev pub config_leave : ℕ
config_leave = 0x00

abbrev pub mode_digital : ℕ
mode_digital = 0x00

abbrev pub mode_analog : ℕ
mode_analog = 0x01

abbrev pub mode_locked : ℕ
mode_locked = 0x03

-- Bus timing, in microseconds.
abbrev pub wire_bits_per_byte : ℕ
wire_bits_per_byte = 8

abbrev pub bus_clock_hz : ℕ
bus_clock_hz = 250000

abbrev pub att_setup_us : ℕ
att_setup_us = 20

abbrev pub byte_gap_us : ℕ
byte_gap_us = 20

abbrev pub poll_period_us : ℕ
poll_period_us = 8000

-- Bytes the controller sends.
abbrev pub ack_timeout_us : ℕ
ack_timeout_us = 100

abbrev pub ready_byte : ℕ
ready_byte = 0x5A

abbrev pub id_digital : ℕ
id_digital = 0x41

abbrev pub id_analog : ℕ
id_analog = 0x73

abbrev pub id_config : ℕ
id_config = 0xF3

pub data ControllerId : Type 0 where
  digital analog config : ControllerId

abbrev pub id_byte : ControllerId → ℕ
id_byte digital = id_digital
id_byte analog = id_analog
id_byte config = id_config

abbrev pub id_eq : ControllerId → ControllerId → Bool
id_eq digital digital = true
id_eq analog analog = true
id_eq config config = true
id_eq _ _ = false

-- Frame geometry.
abbrev pub header_index : ℕ
header_index = 0

abbrev pub ready_index : ℕ
ready_index = 1

abbrev pub payload_index : ℕ
payload_index = 2

abbrev pub prefix_len : ℕ
prefix_len = payload_index

abbrev pub payload_nibble_mask : ℕ
payload_nibble_mask = 0x0F

abbrev pub bytes_per_nibble : ℕ
bytes_per_nibble = 2

abbrev pub id_from_byte : ℕ → Option ControllerId
id_from_byte header =
    if header == id_digital
    then some digital
    else if header == id_analog
    then some analog
    else if header == id_config
    then some config
    else none

abbrev pub payload_len : ControllerId → ℕ
payload_len id = bit_and (id_byte id) payload_nibble_mask * bytes_per_nibble

abbrev pub frame_len : ControllerId → ℕ
frame_len id = prefix_len + payload_len id
