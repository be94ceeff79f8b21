-- ===== src/Command.antt =====
-- The observe firmware's serial input (src/core/command_line.h, src/core/command_line.cpp), one
-- character, here its code, at a time.
pub mod Lines
use pico_sg2hid.Common.{
  ℕ, ◌+◌, Bool, true, false, not, List, [], ◌∷◌, ltb, ◌==◌, if◌then◌else◌, length, set, take,
  replicate, list_eq,
}

abbrev pub newline : ℕ
newline = 10

abbrev pub carriage_return : ℕ
carriage_return = 13

abbrev pub analog_command : List ℕ
analog_command = b'a' ∷ b'n' ∷ b'a' ∷ b'l' ∷ b'o' ∷ b'g' ∷ []

abbrev pub command_buffer_size : ℕ
command_buffer_size = length analog_command + 2

pub data LineEvent : Type 0 where
  pending analog unknown : LineEvent

pub record CommandLine : Type 0 where
  pub text : List ℕ
  pub len : ℕ
  pub is_overlong : Bool

-- `CommandLine{}`.
abbrev pub new_line : CommandLine
new_line = record { text = replicate command_buffer_size 0; len = 0; is_overlong = false }

-- `if ( !text.empty( ) && text.back( ) == '\r' ) text.remove_suffix( 1 )`
unfoldable pub drop_return : List ℕ → List ℕ
drop_return [] = []
drop_return (c ∷ []) = if c == carriage_return then [] else c ∷ []
drop_return (c ∷ d ∷ rest) = c ∷ drop_return (d ∷ rest)

unfoldable pub is_empty : List ℕ → Bool
is_empty [] = true
is_empty (c ∷ rest) = false

judge : CommandLine → LineEvent
judge line =
    let text = drop_return (take line.len line.text) in
    if line.is_overlong
    then unknown
    else if is_empty text
    then pending
    else if list_eq text analog_command
    then analog
    else unknown

unfoldable pub take_char : CommandLine → ℕ → LineEvent × CommandLine
unfolding judge
take_char line c =
    if not (c == newline)
    then (if ltb line.len (length line.text)
        then (pending, record line { text = set line.text line.len c; len = line.len + 1 })
        else (pending, record line { is_overlong = true }))
    else (judge line, new_line)
