-- ===== src/Frame.antt =====
-- One decoded PS2 poll frame (src/core/ps2_frame.h, src/core/ps2_frame.cpp). A byte is a number
-- below 256 and a span of bytes a list. `std::expected<Ps2Frame, DecodeStatus>` is `DecodeOutcome`.
pub mod Decode
pub mod Refusals
use pico_sg2hid.Common.{
  ℕ, zero, suc, ◌+◌, Bool, true, false, not, Option, none, some, List, [], ◌∷◌, ltb, ◌==◌,
  if◌then◌else◌, length, get_or, set, drop, replicate,
}
use pico_sg2hid.Protocol.{
  ControllerId, analog, header_index, ready_index, payload_index, prefix_len, ready_byte,
  id_from_byte, payload_len, frame_len,
}

pub data DecodeStatus : Type 0 where
  ack_timeout unknown_id not_ready : DecodeStatus

abbrev pub max_payload_len : ℕ
max_payload_len = payload_len analog

pub record Ps2Frame : Type 0 where
  pub id : ControllerId
  pub payload : List ℕ

pub data DecodeOutcome : Type 0 where
  value : Ps2Frame → DecodeOutcome
  error : DecodeStatus → DecodeOutcome

abbrev pub has_value : DecodeOutcome → Bool
has_value (value f) = true
has_value (error e) = false

-- `for ( i = …; i < copy; ++i ) payload[ i ] = arrived[ i ]`, by the rounds left.
copy_bytes : ℕ → ℕ → List ℕ → List ℕ → List ℕ
copy_bytes zero i arrived payload = payload
copy_bytes (suc n) i arrived payload =
    copy_bytes n (i + 1) arrived (set payload i (get_or arrived i 0))

-- The part of `decode` behind the check of the id.
decode_body : ControllerId → List ℕ → DecodeOutcome
unfolding copy_bytes
decode_body id bytes =
    if ltb (length bytes) (frame_len id)
    then error ack_timeout
    else if not (get_or bytes ready_index 0 == ready_byte)
    then error not_ready
    else (let arrived = drop payload_index bytes in
        let count = payload_len id in
        let copy = if ltb count (length arrived) then count else length arrived in
        value
          (record { id = id; payload = copy_bytes copy 0 arrived (replicate max_payload_len 0) }))

unfoldable pub decode : List ℕ → DecodeOutcome
unfolding decode_body
decode bytes =
    if ltb (length bytes) prefix_len
    then error ack_timeout
    else elim (id_from_byte (get_or bytes header_index 0)) [
      | none ↦ error unknown_id
      | some id ↦ decode_body id bytes
    ]
