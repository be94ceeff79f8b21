-- ===== src/Console.antt =====
-- The serial-port lines of the master firmwares (src/app/console.cpp): the names of the link's states
-- and faults, the line of a link-state change and the trace line of a frame. A character is its
-- code, a line the list of its characters with the newline.
pub mod Host
pub mod Reader
pub mod Items
pub mod Read
use pico_sg2hid.Common.{ℕ, List, [], ◌∷◌, ◌++◌, ◌==◌, if◌then◌else◌, length}
use pico_sg2hid.Link.{LinkState, FaultCause, absent, digital_streaming, analog_streaming}
use pico_sg2hid.Trace.{WireByte, format_trace_line}
use pico_sg2hid.Trace.Fits.{trace_line_size}

unfoldable pub state_name : LinkState → List ℕ
state_name absent = b'a' ∷ b'b' ∷ b's' ∷ b'e' ∷ b'n' ∷ b't' ∷ []
state_name LinkState.negotiating =
    b'n' ∷ b'e' ∷ b'g' ∷ b'o' ∷ b't' ∷ b'i' ∷ b'a' ∷ b't' ∷ b'i' ∷ b'n' ∷ b'g' ∷ []
state_name digital_streaming = b'd' ∷ b'i' ∷ b'g' ∷ b'i' ∷ b't' ∷ b'a' ∷ b'l' ∷ []
state_name analog_streaming = b'a' ∷ b'n' ∷ b'a' ∷ b'l' ∷ b'o' ∷ b'g' ∷ []

unfoldable pub fault_name : FaultCause → List ℕ
fault_name FaultCause.none = b'n' ∷ b'o' ∷ b'n' ∷ b'e' ∷ []
fault_name FaultCause.ack_timeout =
    b'a' ∷ b'c' ∷ b'k' ∷ b'-' ∷ b't' ∷ b'i' ∷ b'm' ∷ b'e' ∷ b'o' ∷ b'u' ∷ b't' ∷ []
fault_name FaultCause.unknown_id =
    b'u' ∷ b'n' ∷ b'k' ∷ b'n' ∷ b'o' ∷ b'w' ∷ b'n' ∷ b'-' ∷ b'i' ∷ b'd' ∷ []
fault_name FaultCause.not_ready = b'n' ∷ b'o' ∷ b't' ∷ b'-' ∷ b'r' ∷ b'e' ∷ b'a' ∷ b'd' ∷ b'y' ∷ []
fault_name FaultCause.negotiating =
    b'n' ∷ b'e' ∷ b'g' ∷ b'o' ∷ b't' ∷ b'i' ∷ b'a' ∷ b't' ∷ b'i' ∷ b'n' ∷ b'g' ∷ []
fault_name FaultCause.declined = b'd' ∷ b'e' ∷ b'c' ∷ b'l' ∷ b'i' ∷ b'n' ∷ b'e' ∷ b'd' ∷ []

abbrev pub newline_text : List ℕ
newline_text = 10 ∷ []

abbrev pub too_long_text : List ℕ
too_long_text =
    b't' ∷ b'r' ∷ b'a' ∷ b'c' ∷ b'e' ∷ b':' ∷ 32 ∷ b'l' ∷ b'i' ∷ b'n' ∷ b'e' ∷ 32 ∷ b't' ∷ b'o'
    ∷ b'o' ∷ 32 ∷ b'l' ∷ b'o' ∷ b'n' ∷ b'g' ∷ []

abbrev pub link_text : List ℕ
link_text = b'l' ∷ b'i' ∷ b'n' ∷ b'k' ∷ b':' ∷ 32 ∷ []

abbrev pub arrow_text : List ℕ
arrow_text = 32 ∷ b'-' ∷ b'>' ∷ 32 ∷ []

abbrev pub fault_text : List ℕ
fault_text = 32 ∷ b'f' ∷ b'a' ∷ b'u' ∷ b'l' ∷ b't' ∷ b'=' ∷ []

-- What is printed for a frame of which the first `completed` bytes completed.
unfoldable pub print_trace : List WireByte → ℕ → List ℕ
print_trace frame completed =
    let line = format_trace_line frame completed trace_line_size in
    (if length line == 0 then too_long_text else line) ++ newline_text

unfoldable pub print_link : LinkState → LinkState → FaultCause → List ℕ
print_link from to fault =
    link_text
    ++ (state_name from
        ++ (arrow_text ++ (state_name to ++ (fault_text ++ (fault_name fault ++ newline_text)))))
