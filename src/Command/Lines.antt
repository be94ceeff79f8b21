-- ===== src/Command/Lines.antt =====
-- What a whole line comes to, character by character (src/core/command_line.cpp).
use mathlib.Core.List.{append-nil, append_assoc}
use native.Mathlib.Numerals.{add-one}
use pico_sg2hid.Common.{
  ℕ, ◌+◌, ◌≤◌, ◌<◌, ◌≡◌, refl, sym, ap, ◌∙◌, ◌≢◌, true, List, [], ◌∷◌, ◌++◌, arith, inl, inr,
  Bool-cases, take_short, take-append, take-set, length-set, length-append, min, ltb, if◌then◌else◌,
  length, set, take, replicate, list_eq, list_eq_iff,
}
use pico_sg2hid.Command.{
  LineEvent, pending, analog, unknown, CommandLine, new_line, newline, carriage_return,
  analog_command, command_buffer_size, drop_return, is_empty, judge, take_char,
}

-- The reader fed with characters: the events, and the reader they leave.
unfoldable pub feed : CommandLine → List ℕ → List LineEvent × CommandLine
feed line [] = ([], line)
feed line (c ∷ cs) =
    let (event, line') = take_char line c in
    let (events, line'') = feed line' cs in (event ∷ events, line'')

-- No newline among the characters.
abbrev pub OneLine : List ℕ → Type 0
OneLine [] = Unit {0}
OneLine (c ∷ cs) = (c ≢ newline) × OneLine cs

-- The event of a whole line: it is `analog` for the command, with or without a carriage return;
-- nothing for an empty line, with or without one; and `unknown` for any other line.
abbrev pub line_event : List ℕ → LineEvent
line_event cs =
    if list_eq cs analog_command
    then analog
    else if list_eq cs (analog_command ++ carriage_return ∷ [])
    then analog
    else if list_eq cs []
    then pending
    else if list_eq cs (carriage_return ∷ [])
    then pending
    else unknown

-- The reader behind the characters `cs` of a line.
pub record Read (cs : List ℕ) (line : CommandLine) : Type 0 where
  pub size : length line.text ≡ command_buffer_size
  pub len_is : line.len ≡ min (length cs) command_buffer_size
  pub text_is : take line.len line.text ≡ take command_buffer_size cs
  pub overlong_is : line.is_overlong ≡ ltb command_buffer_size (length cs)

pub new_line-Read : Read [] new_line
new_line-Read = record { size = refl; len_is = omega arith; text_is = refl; overlong_is = refl }

-- A character that is no newline is stored while there is room, and only noted behind that.
stored : CommandLine → ℕ → CommandLine
stored line c =
    if ltb line.len (length line.text)
    then record line { text = set line.text line.len c; len = line.len + 1 }
    else record line { is_overlong = true }

take_char-stored :
    (line : CommandLine) (c : ℕ) → c ≢ newline → take_char line c ≡ (pending, stored line c)
unfolding take_char stored
take_char-stored line c h = ground arith

stored-Read :
    (cs : List ℕ) (line : CommandLine) (c : ℕ) → Read cs line → Read (cs ++ c ∷ []) (stored line c)
unfolding stored
stored-Read cs line c h = elim (Bool-cases (ltb line.len (length line.text))) [
  | inl e ↦
      let room : line.len < length line.text = ground arith in
      let short : length cs < 8 = omega (arith, h.len_is, h.size) in
      let more = length-append cs (c ∷ []) in
      rw e (record {
        size = length-set line.text line.len c ∙ h.size;
        len_is = omega (arith, h.len_is, more);
        text_is = rw add-one (
            take-set line.text line.len c room
            ∙ ap (λ t. t ++ c ∷ []) (h.text_is ∙ take_short 8 cs (omega arith))
            ∙ sym (take_short 8 (cs ++ c ∷ []) (omega (arith, more))));
        overlong_is = ground (arith, h.overlong_is, more);
      })
  | inr e ↦
      let full : length line.text ≤ line.len = ground arith in
      let long : 8 ≤ length cs = omega (arith, h.len_is, h.size) in
      let more = length-append cs (c ∷ []) in
      rw e (record {
        size = h.size;
        len_is = omega (arith, h.len_is, more);
        text_is = h.text_is ∙ sym (take-append 8 cs (c ∷ []) long);
        overlong_is = ground (arith, more);
      })
]

text_event : List ℕ → LineEvent
text_event text =
    if is_empty text then pending else if list_eq text analog_command then analog else unknown

text_event-line_event : (cs : List ℕ) → length cs ≤ 8 → text_event (drop_return cs) ≡ line_event cs
unfolding text_event drop_return is_empty
text_event-line_event [] h = refl
text_event-line_event (a ∷ []) h = ground arith
text_event-line_event (a ∷ b ∷ []) h = ground arith
text_event-line_event (a ∷ b ∷ c ∷ []) h = ground arith
text_event-line_event (a ∷ b ∷ c ∷ d ∷ []) h = ground arith
text_event-line_event (a ∷ b ∷ c ∷ d ∷ e ∷ []) h = ground arith
text_event-line_event (a ∷ b ∷ c ∷ d ∷ e ∷ f ∷ []) h = ground arith
text_event-line_event (a ∷ b ∷ c ∷ d ∷ e ∷ f ∷ g ∷ []) h = ground arith
text_event-line_event (a ∷ b ∷ c ∷ d ∷ e ∷ f ∷ g ∷ i ∷ []) h = ground arith
text_event-line_event (a ∷ b ∷ c ∷ d ∷ e ∷ f ∷ g ∷ i ∷ j ∷ rest) h = absurd (omega arith)

list_eq-length : (xs ys : List ℕ) → list_eq xs ys ≡ true → length xs ≡ length ys
list_eq-length xs ys h = ap length ((list_eq_iff xs ys).0 h)

line_event_long : (cs : List ℕ) → 8 < length cs → line_event cs ≡ unknown
line_event_long cs h = ground (
  arith,
  list_eq-length cs analog_command,
  list_eq-length cs (analog_command ++ carriage_return ∷ []),
  list_eq-length cs [],
  list_eq-length cs (carriage_return ∷ []),
)

judge-line_event : (cs : List ℕ) (line : CommandLine) → Read cs line → judge line ≡ line_event cs
unfolding judge
judge-line_event cs line h = elim (Bool-cases (ltb command_buffer_size (length cs))) [
  | inl e ↦ rw (h.overlong_is, e) (sym (line_event_long cs (ground arith)))
  | inr e ↦
      let fits : length cs ≤ 8 = ground arith in
      rw (h.overlong_is, e, h.text_is, take_short 8 cs fits)
        (unfold text_event in text_event-line_event cs fits)
]

take_char-newline : (line : CommandLine) → take_char line newline ≡ (judge line, new_line)
unfolding take_char
take_char-newline line = refl

-- A character of a line, and the newline behind it.
pub take_char-Read :
    (cs : List ℕ) (line : CommandLine) (c : ℕ)
    → c ≢ newline
    → Read cs line
    → (line' : CommandLine) × (take_char line c ≡ (pending, line')) × Read (cs ++ c ∷ []) line'
take_char-Read cs line c h r = (stored line c, take_char-stored line c h, stored-Read cs line c r)

pub take_char-line_event :
    (cs : List ℕ) (line : CommandLine)
    → Read cs line
    → take_char line newline ≡ (line_event cs, new_line)
take_char-line_event cs line r =
    take_char-newline line ∙ ap (λ event. (event, new_line)) (judge-line_event cs line r)

feed-line :
    (rest cs : List ℕ) (line : CommandLine)
    → OneLine rest
    → Read cs line
    → feed line (rest ++ newline ∷ [])
      ≡ (replicate (length rest) pending ++ line_event (cs ++ rest) ∷ [], new_line)
unfolding feed
feed-line [] cs line o h =
    ap (λ r. (r.0 ∷ [], r.1)) (take_char-newline line)
    ∙ rw (append-nil cs, judge-line_event cs line h)
feed-line (c ∷ rest) cs line (hc, o) h =
    ap (λ r. let tail = feed r.1 (rest ++ newline ∷ []) in (r.0 ∷ tail.0, tail.1))
      (take_char-stored line c hc)
    ∙ ap (λ q. (pending ∷ q.0, q.1))
        (feed-line rest (cs ++ c ∷ []) (stored line c) o (stored-Read cs line c h)
          ∙ rw (append_assoc cs (c ∷ []) rest))

-- A line fed to a fresh reader gives no event until its newline, then the event of the whole line,
-- and leaves the reader fresh: only `analog`, with or without a carriage return, is the command; an
-- empty line gives nothing; any other line, of any length, is unknown.
pub feed-line_event :
    (cs : List ℕ)
    → OneLine cs
    → feed new_line (cs ++ newline ∷ [])
      ≡ (replicate (length cs) pending ++ line_event cs ∷ [], new_line)
feed-line_event cs o = feed-line cs [] new_line o new_line-Read
