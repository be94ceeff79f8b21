-- ===== src/Loopback.antt =====
-- The loopback firmware (src/app/loopback.cpp), a self test of the wires: frames of one Pico whose
-- outputs are jumpered to its inputs. The clock's readings and the level of ATT are arguments, the
-- bus port a parameter, and a printed line is a value.
pub mod Echo
pub mod Lines
pub mod Probe
use pico_sg2hid.Common.{
  ℕ, zero, suc, Bool, true, false, ◌&&◌, Option, none, some, List, [], ◌∷◌, ◌==◌, if◌then◌else◌,
  u32_sub, length, set, get_or, take, replicate,
}
use pico_sg2hid.Trace.{WireByte, zero_wire, format_trace_line}
use pico_sg2hid.Bus.{BusPort, exchange_frame}

abbrev pub probe_byte : ℕ
probe_byte = 0x01

abbrev pub longest_seq : ℕ
longest_seq = 9

abbrev pub loopback_line_size : ℕ
loopback_line_size = 256

abbrev pub seq_poll : List ℕ
seq_poll = 0x01 ∷ 0x42 ∷ 0x00 ∷ 0x00 ∷ 0x00 ∷ []

abbrev pub seq_pattern : List ℕ
seq_pattern = 0xFF ∷ 0x00 ∷ 0xA5 ∷ 0x5A ∷ 0x80 ∷ 0x01 ∷ 0xFE ∷ 0x7F ∷ 0x3C ∷ []

abbrev pub seq_single : List ℕ
seq_single = 0x80 ∷ []

abbrev pub sequences : List (List ℕ)
sequences = seq_poll ∷ seq_pattern ∷ seq_single ∷ []

-- `for ( i = …; i < sent.size( ); ++i ) frame[ i ].out = sent[ i ]`, by the rounds left.
unfoldable pub put_sent : ℕ → ℕ → List ℕ → List WireByte → List WireByte
put_sent zero i sent frame = frame
put_sent (suc n) i sent frame =
    put_sent n (suc i) sent
      (set frame i (record (get_or frame i zero_wire) { out = get_or sent i 0 }))

unfoldable pub wire_of : List ℕ → List WireByte
wire_of sent = take (length sent) (put_sent (length sent) 0 sent (replicate longest_seq zero_wire))

-- `std::equal` of the bytes that were sent and the bytes that came in.
unfoldable pub came_back : List ℕ → List WireByte → Bool
came_back [] wire = true
came_back (out ∷ sent) [] = false
came_back (out ∷ sent) (got ∷ wire) = (got.in_byte == out) && came_back sent wire

-- The `loopback:` line and the line behind it, which is the trace, or says that it is too long.
pub record LoopbackLine : Type 0 where
  pub index : ℕ
  pub count : ℕ
  pub size : ℕ
  pub is_match : Bool
  pub is_att_high : Bool
  pub took : ℕ
  pub trace : Option (List ℕ)

-- `length == 0` is a line that did not fit.
abbrev pub trace_of : List ℕ → Option (List ℕ)
trace_of [] = none
trace_of (c ∷ line) = some (c ∷ line)

-- The clock before and behind a frame, and the level of ATT behind it.
pub record LoopReadings : Type 0 where
  pub start : ℕ
  pub ended : ℕ
  pub att_level : Bool

module _ {S : Type 0} (port : BusPort S) where
  unfoldable pub print_loopback : ℕ → List ℕ → LoopReadings → S → LoopbackLine × S
  print_loopback index sent readings s =
      let after = exchange_frame port (wire_of sent) s in
      (
        record {
          index = index;
          count = after.done;
          size = length sent;
          is_match = (after.done == length sent) && came_back sent after.frame;
          is_att_high = readings.att_level;
          took = u32_sub readings.ended readings.start;
          trace = trace_of (format_trace_line after.frame after.done loopback_line_size);
        },
        after.port,
      )

  -- The `for` loop of a round of `main`, with the readings of each frame.
  unfoldable pub print_loopbacks :
      ℕ → List (List ℕ) → (ℕ → LoopReadings) → S → List LoopbackLine × S
  print_loopbacks index [] readings s = ([], s)
  print_loopbacks index (sent ∷ rest) readings s =
      let (line, s') = print_loopback index sent (readings index) s in
      let (lines, s'') = print_loopbacks (suc index) rest readings s' in (line ∷ lines, s'')
