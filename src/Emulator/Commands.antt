-- ===== src/Emulator/Commands.antt =====
-- The line commands of the emulated guitar (`SgModel::apply` and its parsers, src/emu/sg_model.cpp).
-- A character is its code; the text of a refusal is a constructor.
pub mod Numbers
pub mod Faults
pub mod Payloads
use pico_sg2hid.Common.{
  ℕ, zero, suc, ◌+◌, ◌-◌, ◌*◌, ◌%◌, Bool, true, false, not, ◌&&◌, ◌||◌, Option, none, some, List,
  [], ◌∷◌, ltb, leb, ◌==◌, if◌then◌else◌, u8, u32_max, length, list_eq,
}
use pico_sg2hid.Command.{drop_return, is_empty}
use pico_sg2hid.Emulator.{SgModel, Payload, Fault, FaultKind, max_line_len, max_payload}

abbrev pub max_ack_byte : ℕ
max_ack_byte = 7

abbrev pub max_late_us : ℕ
max_late_us = 10000

abbrev pub space : ℕ
space = 32

unfoldable pub skip_spaces : List ℕ → List ℕ
skip_spaces [] = []
skip_spaces (c ∷ rest) = if c == space then skip_spaces rest else c ∷ rest

unfoldable pub word_of : List ℕ → List ℕ
word_of [] = []
word_of (c ∷ rest) = if c == space then [] else c ∷ word_of rest

unfoldable pub behind_word : List ℕ → List ℕ
behind_word [] = []
behind_word (c ∷ rest) = if c == space then c ∷ rest else behind_word rest

-- The next word, and what follows it.
abbrev pub next_word : List ℕ → List ℕ × List ℕ
next_word rest = (word_of (skip_spaces rest), behind_word (skip_spaces rest))

-- What `std::from_chars` takes for a digit, either case.
unfoldable pub digit_of : ℕ → ℕ → Option ℕ
digit_of base c =
    let value =
      if leb b'0' c && leb c b'9'
      then c - b'0'
      else if leb b'a' c && leb c b'z'
      then c - b'a' + 10
      else if leb b'A' c && leb c b'Z'
      then c - b'A' + 10
      else 36 in
    if ltb value base then some value else none

unfoldable pub read_digits : ℕ → ℕ → List ℕ → Option ℕ
read_digits base value [] = some value
read_digits base value (c ∷ rest) = elim (digit_of base c) [
  | none ↦ none
  | some d ↦ read_digits base (value * base + d) rest
]

-- The whole word as a 32-bit number, or nothing.
unfoldable pub parse_number : List ℕ → ℕ → Option ℕ
parse_number word base = if is_empty word then none else elim (read_digits base 0 word) [
  | none ↦ none
  | some value ↦ if leb value u32_max then some value else none
]

unfoldable pub parse_hex_byte : List ℕ → Option ℕ
parse_hex_byte word =
    if not (length word == 2)
    then none
    else elim (parse_number word 16) [ none ↦ none | some value ↦ some (u8 value) ]

pub data Refusal : Type 0 where
  usage_mode usage_payload usage_fault usage_ack usage_late usage_id : Refusal
  line_too_long unknown_command : Refusal

pub data Parsed (A : Type 0) : Type 0 where
  parsed : A → Parsed A
  refused : Refusal → Parsed A

abbrev pub digital_text : List ℕ
digital_text = b'd' ∷ b'i' ∷ b'g' ∷ b'i' ∷ b't' ∷ b'a' ∷ b'l' ∷ []

abbrev pub analog_text : List ℕ
analog_text = b'a' ∷ b'n' ∷ b'a' ∷ b'l' ∷ b'o' ∷ b'g' ∷ []

unfoldable pub parse_mode : List ℕ → Parsed Bool
parse_mode rest =
    let (mode, rest) = next_word rest in
    if not (is_empty (next_word rest).0)
      || (not (list_eq mode digital_text) && not (list_eq mode analog_text))
    then refused usage_mode
    else parsed (list_eq mode analog_text)

-- The loop over the payload's bytes, by the bytes left: the bytes, and the rest of the line.
unfoldable pub read_bytes : ℕ → List ℕ → Option (Payload × List ℕ)
read_bytes zero rest = some ([], rest)
read_bytes (suc n) rest = elim (parse_hex_byte (next_word rest).0) [
  | none ↦ none
  | some byte ↦ elim (read_bytes n (next_word rest).1) [
    | none ↦ none
    | some (bytes, after) ↦ some (byte ∷ bytes, after)
  ]
]

unfoldable pub parse_payload : List ℕ → Parsed Payload
parse_payload rest = elim (read_bytes max_payload rest) [
  | none ↦ refused usage_payload
  | some (payload, rest) ↦
      if not (is_empty (next_word rest).0) then refused usage_payload else parsed payload
]

abbrev pub none_text : List ℕ
none_text = b'n' ∷ b'o' ∷ b'n' ∷ b'e' ∷ []

abbrev pub decline_text : List ℕ
decline_text = b'd' ∷ b'e' ∷ b'c' ∷ b'l' ∷ b'i' ∷ b'n' ∷ b'e' ∷ []

abbrev pub ack_text : List ℕ
ack_text = b'a' ∷ b'c' ∷ b'k' ∷ []

abbrev pub late_text : List ℕ
late_text = b'l' ∷ b'a' ∷ b't' ∷ b'e' ∷ []

abbrev pub id_text : List ℕ
id_text = b'i' ∷ b'd' ∷ []

unfoldable pub parse_ack : List ℕ → Parsed Fault
parse_ack arg = elim (parse_number arg 10) [
  | none ↦ refused usage_ack
  | some n ↦
      if ltb max_ack_byte n
      then refused usage_ack
      else parsed (record { kind = FaultKind.ack; value = n })
]

unfoldable pub parse_late : List ℕ → Parsed Fault
parse_late arg = elim (parse_number arg 10) [
  | none ↦ refused usage_late
  | some us ↦
      if us == 0 || ltb max_late_us us
      then refused usage_late
      else parsed (record { kind = FaultKind.late; value = us })
]

unfoldable pub parse_id : List ℕ → Parsed Fault
parse_id arg = elim (parse_hex_byte arg) [
  | none ↦ refused usage_id
  | some id ↦ parsed (record { kind = FaultKind.id; value = id })
]

unfoldable pub parse_fault : List ℕ → Parsed Fault
parse_fault rest =
    let (kind, rest) = next_word rest in
    let (arg, rest) = next_word rest in
    if not (is_empty (next_word rest).0)
    then refused usage_fault
    else if list_eq kind none_text && is_empty arg
    then parsed (record { kind = FaultKind.none; value = 0 })
    else if list_eq kind decline_text && is_empty arg
    then parsed (record { kind = FaultKind.decline; value = 0 })
    else if list_eq kind ack_text
    then parse_ack arg
    else if list_eq kind late_text
    then parse_late arg
    else if list_eq kind id_text
    then parse_id arg
    else refused usage_fault

abbrev pub transform : {A B : Type 0} → (A → B) → Parsed A → Parsed B
transform f (parsed a) = parsed (f a)
transform f (refused r) = refused r

abbrev pub mode_text : List ℕ
mode_text = b'm' ∷ b'o' ∷ b'd' ∷ b'e' ∷ []

abbrev pub payload_text : List ℕ
payload_text = b'p' ∷ b'a' ∷ b'y' ∷ b'l' ∷ b'o' ∷ b'a' ∷ b'd' ∷ []

abbrev pub fault_text : List ℕ
fault_text = b'f' ∷ b'a' ∷ b'u' ∷ b'l' ∷ b't' ∷ []

-- The model that a line leaves, or the reason why it is refused.
unfoldable pub apply : SgModel → List ℕ → Parsed SgModel
apply m line =
    let line = drop_return line in
    let (verb, rest) = next_word line in
    if ltb max_line_len (length line)
    then refused line_too_long
    else if list_eq verb mode_text
    then transform (λ is_analog. record m { is_analog = is_analog; is_config = false })
        (parse_mode rest)
    else if list_eq verb payload_text
    then transform (λ p. record m { payload = p }) (parse_payload rest)
    else if list_eq verb fault_text
    then transform (λ f. record m { fault = f }) (parse_fault rest)
    else refused unknown_command
