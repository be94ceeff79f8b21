-- ===== src/Firmware/Summary.antt =====
-- The summary that the master firmware prints once a second (`report_text` and `print_summary` of
-- src/app/main.cpp). A buffer is the list of its characters; `snprintf` cuts what it writes to the
-- room behind `at`, with a NUL at the end, and `%s` prints a buffer up to its NUL.
pub mod Read
use pico_sg2hid.Common.{
  ℕ, zero, suc, ◌+◌, ◌*◌, ◌-◌, Bool, true, false, List, [], ◌∷◌, ◌++◌, ◌==◌, if◌then◌else◌, u32_sub,
  length, get_or, set, take, replicate,
}
use pico_sg2hid.Report.{HidReport, report_len}
use pico_sg2hid.Trace.{dec}
use pico_sg2hid.Trace.Writer.{hex}
use pico_sg2hid.Poll.{PollTally}
use pico_sg2hid.Console.{state_name, fault_name, newline_text}
use pico_sg2hid.Firmware.{Poller}

abbrev payload_text_size : ℕ
payload_text_size = 6

abbrev whammy_text_size : ℕ
whammy_text_size = 3

abbrev pub report_text_size : ℕ
report_text_size = 3 * report_len

unfoldable pub put_chars : List ℕ → ℕ → List ℕ → List ℕ
put_chars [] at text = text
put_chars (c ∷ piece) at text = put_chars piece (at + 1) (set text at c)

-- `std::snprintf( text.data( ) + at, text.size( ) - at, … )` of the characters `piece`.
unfoldable pub snprintf : ℕ → List ℕ → List ℕ → List ℕ
snprintf at piece text =
    let room = length text - at in
    if room == 0 then text else put_chars (take (room - 1) piece ++ 0 ∷ []) at text

unfoldable pub c_string : List ℕ → List ℕ
c_string [] = []
c_string (c ∷ text) = if c == 0 then [] else c ∷ c_string text

-- The loop of `report_text`: the bytes left, the characters used, the buffer.
unfoldable pub report_loop : HidReport → ℕ → List ℕ → List ℕ
report_loop [] used text = text
report_loop (byte ∷ report) used text =
    let piece = if used == 0 then hex byte else 32 ∷ hex byte in
    report_loop report (used + length piece) (snprintf used piece text)

unfoldable pub report_text : HidReport → List ℕ
report_text report = report_loop report 0 (replicate report_text_size 0)

-- A buffer of this size that starts as `{ '-', '-' }`.
abbrev dashes : ℕ → List ℕ
dashes size = b'-' ∷ b'-' ∷ replicate (size - 2) 0

unfoldable pub last_payload_text : PollTally → List ℕ
last_payload_text tally =
    if tally.has_payload
    then snprintf 0
        (hex (get_or tally.last_payload 0 0) ++ 32 ∷ hex (get_or tally.last_payload 1 0))
        (dashes payload_text_size)
    else dashes payload_text_size

unfoldable pub whammy_text : Bool → ℕ → List ℕ
whammy_text has_whammy whammy =
    if has_whammy
    then snprintf 0 (hex whammy) (dashes whammy_text_size)
    else dashes whammy_text_size

abbrev pub level_text : Bool → List ℕ
level_text true = b'h' ∷ b'i' ∷ b'g' ∷ b'h' ∷ []
level_text false = b'l' ∷ b'o' ∷ b'w' ∷ []

abbrev pub polls_text : List ℕ
polls_text = b'h' ∷ b'i' ∷ b'l' ∷ b':' ∷ 32 ∷ b'p' ∷ b'o' ∷ b'l' ∷ b'l' ∷ b's' ∷ b'=' ∷ []

abbrev pub refused_text : List ℕ
refused_text = 32 ∷ b'r' ∷ b'e' ∷ b'f' ∷ b'u' ∷ b's' ∷ b'e' ∷ b'd' ∷ b'=' ∷ []

abbrev pub changes_text : List ℕ
changes_text = 32 ∷ b'c' ∷ b'h' ∷ b'a' ∷ b'n' ∷ b'g' ∷ b'e' ∷ b's' ∷ b'=' ∷ []

abbrev pub us_text : List ℕ
us_text = 32 ∷ b'u' ∷ b's' ∷ b'=' ∷ []

abbrev pub state_text : List ℕ
state_text = 32 ∷ b's' ∷ b't' ∷ b'a' ∷ b't' ∷ b'e' ∷ b'=' ∷ []

abbrev pub fault_field : List ℕ
fault_field = 32 ∷ b'f' ∷ b'a' ∷ b'u' ∷ b'l' ∷ b't' ∷ b'=' ∷ []

abbrev pub att_text : List ℕ
att_text = 32 ∷ b'a' ∷ b't' ∷ b't' ∷ b'=' ∷ []

abbrev pub payload_field : List ℕ
payload_field = 32 ∷ b'p' ∷ b'a' ∷ b'y' ∷ b'l' ∷ b'o' ∷ b'a' ∷ b'd' ∷ b'=' ∷ []

abbrev pub whammy_field : List ℕ
whammy_field = 32 ∷ b'w' ∷ b'h' ∷ b'a' ∷ b'm' ∷ b'm' ∷ b'y' ∷ b'=' ∷ []

abbrev pub report_field : List ℕ
report_field = 32 ∷ b'r' ∷ b'e' ∷ b'p' ∷ b'o' ∷ b'r' ∷ b't' ∷ b'=' ∷ []

abbrev pub hand_text : List ℕ
hand_text = 32 ∷ b'h' ∷ b'a' ∷ b'n' ∷ b'd' ∷ b'=' ∷ []

abbrev pub busy_text : List ℕ
busy_text = 32 ∷ b'b' ∷ b'u' ∷ b's' ∷ b'y' ∷ b'=' ∷ []

-- The line, at a level of ATT and a reading of the clock.
unfoldable pub summary_line : Bool → ℕ → Poller → List ℕ
summary_line is_att_high now poller =
    let took = u32_sub now poller.batch_start in
    let tally = poller.tally in
    polls_text
    ++ dec tally.polls
    ++ refused_text
    ++ dec tally.refused
    ++ changes_text
    ++ dec tally.payload_changes
    ++ us_text
    ++ dec took
    ++ state_text
    ++ state_name poller.master.link.state
    ++ fault_field
    ++ fault_name poller.master.link.last_fault
    ++ att_text
    ++ level_text is_att_high
    ++ payload_field
    ++ c_string (last_payload_text tally)
    ++ whammy_field
    ++ c_string (whammy_text poller.has_whammy poller.whammy)
    ++ report_field
    ++ c_string (report_text poller.report)
    ++ hand_text
    ++ dec poller.hand_max_us
    ++ busy_text
    ++ dec poller.busy
    ++ newline_text
