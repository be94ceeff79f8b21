-- ===== src/Console/Host.antt =====
-- A host that reads the `link:` line of the console (src/app/console.cpp): no part of the program, and
-- written from the line's form, `link: <from> -> <to> fault=<fault>`.
use pico_sg2hid.Common.{
  ℕ, ◌≡◌, refl, Bool, Option, none, some, List, [], ◌∷◌, ◌++◌, ◌==◌, ◌||◌, if◌then◌else◌, list_eq,
  take, drop, ◌&&◌,
}
use pico_sg2hid.Link.{LinkState, FaultCause, absent, digital_streaming, analog_streaming}
use pico_sg2hid.Console.{state_name, fault_name, print_link, link_text, fault_text, newline_text}

-- The characters up to the next space or newline, and those behind it.
abbrev is_blank : ℕ → Bool
is_blank c = (c == 32) || (c == 10)

unfoldable pub word : List ℕ → List ℕ × List ℕ
word [] = ([], [])
word (c ∷ rest) =
    if is_blank c then ([], rest) else (let (w, behind) = word rest in (c ∷ w, behind))

abbrev read_state : List ℕ → Option LinkState
read_state name =
    if list_eq name (state_name absent)
    then some absent
    else if list_eq name (state_name LinkState.negotiating)
    then some LinkState.negotiating
    else if list_eq name (state_name digital_streaming)
    then some digital_streaming
    else if list_eq name (state_name analog_streaming)
    then some analog_streaming
    else none

abbrev read_fault : List ℕ → Option FaultCause
read_fault name =
    if list_eq name (fault_name FaultCause.none)
    then some FaultCause.none
    else if list_eq name (fault_name FaultCause.ack_timeout)
    then some FaultCause.ack_timeout
    else if list_eq name (fault_name FaultCause.unknown_id)
    then some FaultCause.unknown_id
    else if list_eq name (fault_name FaultCause.not_ready)
    then some FaultCause.not_ready
    else if list_eq name (fault_name FaultCause.negotiating)
    then some FaultCause.negotiating
    else if list_eq name (fault_name FaultCause.declined)
    then some FaultCause.declined
    else none

pub record LinkChange : Type 0 where
  pub from : LinkState
  pub to : LinkState
  pub fault : FaultCause

abbrev change : Option LinkState → Option LinkState → Option FaultCause → Option LinkChange
change (some from) (some to) (some fault) = some (record { from = from; to = to; fault = fault })
change _ _ _ = none

-- The words of a line in turn, and what they say.
unfoldable pub read_link : List ℕ → Option LinkChange
read_link line =
    let (start, rest₀) = word line in
    let (from, rest₁) = word rest₀ in
    let (arrow, rest₂) = word rest₁ in
    let (to, rest₃) = word rest₂ in
    let (fault, _) = word rest₃ in
    if list_eq start (b'l' ∷ b'i' ∷ b'n' ∷ b'k' ∷ b':' ∷ [])
      && list_eq arrow (b'-' ∷ b'>' ∷ [])
      && list_eq (take 6 fault) (b'f' ∷ b'a' ∷ b'u' ∷ b'l' ∷ b't' ∷ b'=' ∷ [])
    then change (read_state from) (read_state to) (read_fault (drop 6 fault))
    else none

word_start :
    (rest : List ℕ) → word (link_text ++ rest) ≡ (b'l' ∷ b'i' ∷ b'n' ∷ b'k' ∷ b':' ∷ [], rest)
unfolding word
word_start rest = refl

word_arrow : (rest : List ℕ) → word (b'-' ∷ b'>' ∷ 32 ∷ rest) ≡ (b'-' ∷ b'>' ∷ [], rest)
unfolding word
word_arrow rest = refl

word_state :
    (s : LinkState) (rest : List ℕ) → word (state_name s ++ 32 ∷ rest) ≡ (state_name s, rest)
unfolding word state_name
word_state absent rest = refl
word_state LinkState.negotiating rest = refl
word_state digital_streaming rest = refl
word_state analog_streaming rest = refl

abbrev fault_word : FaultCause → List ℕ
fault_word fault = drop 1 fault_text ++ fault_name fault

word_fault : (fault : FaultCause) → word (fault_word fault ++ newline_text) ≡ (fault_word fault, [])
unfolding word fault_name
word_fault FaultCause.none = refl
word_fault FaultCause.ack_timeout = refl
word_fault FaultCause.unknown_id = refl
word_fault FaultCause.not_ready = refl
word_fault FaultCause.negotiating = refl
word_fault FaultCause.declined = refl

read_state-state_name : (s : LinkState) → read_state (state_name s) ≡ some s
unfolding state_name
read_state-state_name absent = refl
read_state-state_name LinkState.negotiating = refl
read_state-state_name digital_streaming = refl
read_state-state_name analog_streaming = refl

read_fault-fault_name : (fault : FaultCause) → read_fault (fault_name fault) ≡ some fault
unfolding fault_name
read_fault-fault_name FaultCause.none = refl
read_fault-fault_name FaultCause.ack_timeout = refl
read_fault-fault_name FaultCause.unknown_id = refl
read_fault-fault_name FaultCause.not_ready = refl
read_fault-fault_name FaultCause.negotiating = refl
read_fault-fault_name FaultCause.declined = refl

-- A host that splits a `link:` line at its blanks reads the two states and the fault that the
-- firmware printed it for, whichever these are.
pub read_link-print_link :
    (from to : LinkState) (fault : FaultCause)
    → read_link (print_link from to fault) ≡ some (record { from = from; to = to; fault = fault })
unfolding read_link print_link
read_link-print_link from to fault =
    let to_rest = fault_word fault ++ newline_text in
    let arrow_rest = state_name to ++ 32 ∷ to_rest in
    rw
      (
        word_start (state_name from ++ 32 ∷ b'-' ∷ b'>' ∷ 32 ∷ arrow_rest),
        word_state from (b'-' ∷ b'>' ∷ 32 ∷ arrow_rest),
        word_arrow arrow_rest,
        word_state to to_rest,
        word_fault fault,
      )
      (rw (read_state-state_name from, read_state-state_name to, read_fault-fault_name fault) refl)
