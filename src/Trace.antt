-- ===== src/Trace.antt =====
-- The bus trace (src/core/bus_trace.h, src/core/bus_trace.cpp): one byte on the wire as the frame
-- loop records it, and the `T1` line of a frame. A character is its code; a line is the list of the
-- characters written so far. `in_byte` is the source's `in`.
pub mod Writer
pub mod Line
pub mod Fits
use pico_sg2hid.Common.{
  ℕ, zero, suc, ◌+◌, ◌-◌, ◌/◌, ◌%◌, Bool, true, false, ◌||◌, List, [], ◌∷◌, ◌++◌, ltb, leb, ◌==◌,
  if◌then◌else◌, length, get_or,
}

pub record WireByte : Type 0 where
  pub out : ℕ
  pub in_byte : ℕ
  pub elapsed_us : ℕ

-- `WireByte{}`.
abbrev pub zero_wire : WireByte
zero_wire = record { out = 0; in_byte = 0; elapsed_us = 0 }

abbrev pub version_text : List ℕ
version_text = b'T' ∷ b'1' ∷ []

abbrev pub length_text : List ℕ
length_text = b' ' ∷ b'n' ∷ b'=' ∷ []

abbrev pub completed_text : List ℕ
completed_text = b' ' ∷ b'k' ∷ b'=' ∷ []

abbrev pub out_text : List ℕ
out_text = b' ' ∷ b'o' ∷ b'u' ∷ b't' ∷ b'=' ∷ []

abbrev pub in_text : List ℕ
in_text = b' ' ∷ b'i' ∷ b'n' ∷ b'=' ∷ []

abbrev pub elapsed_text : List ℕ
elapsed_text = b' ' ∷ b'u' ∷ b's' ∷ b'=' ∷ []

abbrev pub absent_in : List ℕ
absent_in = b'-' ∷ b'-' ∷ []

abbrev pub absent_us : List ℕ
absent_us = b'-' ∷ []

abbrev pub item_sep : ℕ
item_sep = b','

abbrev pub hex_digits : List ℕ
hex_digits =
    b'0' ∷ b'1' ∷ b'2' ∷ b'3' ∷ b'4' ∷ b'5' ∷ b'6' ∷ b'7' ∷ b'8' ∷ b'9' ∷ b'A' ∷ b'B' ∷ b'C' ∷ b'D'
    ∷ b'E' ∷ b'F' ∷ []

-- What `std::to_chars` writes: the decimal digits. Twenty are enough for a 64-bit number.
unfoldable pub dec_digits : ℕ → ℕ → List ℕ
dec_digits zero n = []
dec_digits (suc left) n = elim (ltb n 10) [
  | true ↦ (b'0' + n) ∷ []
  | false ↦ dec_digits left (n / 10) ++ (b'0' + n % 10) ∷ []
]

abbrev pub dec : ℕ → List ℕ
dec n = dec_digits 20 n

-- The buffer's size, the characters written, and whether anything fell off the end.
pub record LineWriter : Type 0 where
  pub capacity : ℕ
  pub text : List ℕ
  pub is_overflow : Bool

unfoldable pub put_char : ℕ → LineWriter → LineWriter
put_char c writer =
    if leb writer.capacity (length writer.text)
    then record writer { is_overflow = true }
    else record writer { text = writer.text ++ c ∷ [] }

unfoldable pub put_text : List ℕ → LineWriter → LineWriter
put_text [] writer = writer
put_text (c ∷ text) writer = put_text text (put_char c writer)

-- `std::to_chars` fails, and then moves nothing, when the digits do not fit.
unfoldable pub put_dec : ℕ → LineWriter → LineWriter
put_dec value writer =
    if ltb writer.capacity (length writer.text + length (dec value))
    then record writer { is_overflow = true }
    else record writer { text = writer.text ++ dec value }

unfoldable pub put_hex : ℕ → LineWriter → LineWriter
put_hex value writer =
    put_char (get_or hex_digits (value % 16) 0)
      (put_char (get_or hex_digits (value / 16 % 16) 0) writer)

unfoldable pub put_sep : ℕ → LineWriter → LineWriter
put_sep i writer = if ltb 0 i then put_char item_sep writer else writer

-- The characters of the line, none when the writer's `length( )` is 0.
abbrev pub written : LineWriter → List ℕ
written writer = if writer.is_overflow then [] else writer.text

-- The bodies of the three loops, behind the separator.
unfoldable pub put_out : List WireByte → ℕ → LineWriter → LineWriter
put_out frame i = put_hex (get_or frame i zero_wire).out

unfoldable pub put_in : List WireByte → ℕ → ℕ → LineWriter → LineWriter
put_in frame completed i writer =
    if ltb i completed
    then put_hex (get_or frame i zero_wire).in_byte writer
    else put_text absent_in writer

unfoldable pub put_elapsed : List WireByte → ℕ → ℕ → LineWriter → LineWriter
put_elapsed frame completed i writer =
    let is_attempted = leb i completed in
    if is_attempted
    then put_dec (get_or frame i zero_wire).elapsed_us writer
    else put_text absent_us writer

-- `for ( i = …; i < frame.size( ); ++i )` with such a body, by the rounds left.
unfoldable pub put_list : (ℕ → LineWriter → LineWriter) → ℕ → ℕ → LineWriter → LineWriter
put_list item zero i writer = writer
put_list item (suc n) i writer = put_list item n (i + 1) (item i (put_sep i writer))

-- The line for `frame` in a buffer of `capacity` characters.
unfoldable pub format_trace_line : List WireByte → ℕ → ℕ → List ℕ
format_trace_line frame completed capacity =
    let n = length frame in
    if n == 0 || ltb n completed
    then []
    else (let writer : LineWriter = record {
      capacity = capacity;
      text = [];
      is_overflow = false;
    } in
        let writer = put_dec n (put_text length_text (put_text version_text writer)) in
        let writer = put_dec completed (put_text completed_text writer) in
        let writer = put_list (put_out frame) n 0 (put_text out_text writer) in
        let writer = put_list (put_in frame completed) n 0 (put_text in_text writer) in
        written (put_list (put_elapsed frame completed) n 0 (put_text elapsed_text writer)))
