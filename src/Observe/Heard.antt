-- ===== src/Observe/Heard.antt =====
-- What the observe firmware (src/app/observe.cpp) has read from its serial port, character by
-- character: the line that is not finished, and whether a finished line switched it to analog mode.
use mathlib.Core.List.{append_assoc, append-nil}
use pico_sg2hid.Common.{
  ℕ, ◌≡◌, ◌≢◌, ◌∙◌, refl, sym, ap, inl, inr, Bool, Bool-cases, true, false, ◌||◌, Option, none,
  some, List, [], ◌∷◌, ◌++◌, arith, ◌==◌, ==_iff, list_eq,
}
use pico_sg2hid.Command.{LineEvent, new_line, newline, carriage_return, analog_command}
use pico_sg2hid.Command.Lines.{
  Read, OneLine, line_event, new_line-Read, take_char-Read, take_char-line_event,
}
use pico_sg2hid.Negotiation.{Exchanged}
use pico_sg2hid.Host.{split}
use pico_sg2hid.Observe.ReadOnly.{Mode-cases}
use pico_sg2hid.Observe.Commanded.{
  is_command, is_commanded, is_commanded-cons, split_line, unfinished_line,
}
use pico_sg2hid.Observe.{Mode, Observer, new_observer, answer, poll_command, judge, show}

abbrev pub mode_of : Bool → Mode
mode_of true = Mode.analog
mode_of false = Mode.digital

abbrev is_analog : Mode → Bool
is_analog Mode.digital = false
is_analog Mode.analog = true

mode_of-is_analog : (mode : Mode) → mode_of (is_analog mode) ≡ mode
mode_of-is_analog Mode.digital = refl
mode_of-is_analog Mode.analog = refl

OneLine-append : (cs : List ℕ) (c : ℕ) → OneLine cs → c ≢ newline → OneLine (cs ++ c ∷ [])
OneLine-append [] c o h = (h, tt)
OneLine-append (d ∷ cs) c (hd, o) h = (hd, OneLine-append cs c o h)

or_false : (b : Bool) → b ≡ (b || false)
or_false true = refl
or_false false = refl

or_true : (b : Bool) → true ≡ (b || true)
or_true true = refl
or_true false = refl

or_assoc : (a b c : Bool) → ((a || b) || c) ≡ (a || (b || c))
or_assoc true b c = refl
or_assoc false b c = refl

line_event-analog :
    (cs : List ℕ) (observer : Observer)
    → is_analog (answer (line_event cs) observer).0.mode
      ≡ (is_analog observer.mode || is_command cs)
unfolding answer
line_event-analog cs observer =
    let with_return = analog_command ++ carriage_return ∷ [] in
    elim (Bool-cases (list_eq cs analog_command)) [
      | inl e ↦ rw e (or_true (is_analog observer.mode))
      | inr e ↦ elim (Bool-cases (list_eq cs with_return)) [
        | inl e₁ ↦ rw (e, e₁) (or_true (is_analog observer.mode))
        | inr e₁ ↦ elim (Bool-cases (list_eq cs [])) [
          | inl e₂ ↦ rw (e, e₁, e₂, answer) (or_false (is_analog observer.mode))
          | inr e₂ ↦ elim (Bool-cases (list_eq cs (carriage_return ∷ []))) [
            | inl e₃ ↦ rw (e, e₁, e₂, e₃, answer) (or_false (is_analog observer.mode))
            | inr e₃ ↦ rw (e, e₁, e₂, e₃, answer) (or_false (is_analog observer.mode))
          ]
        ]
      ]
    ]

judge-keeps :
    (observer : Observer) (x : Exchanged) (us : ℕ)
    → let after = (judge observer x us).0 in
      (after.mode ≡ observer.mode) × (after.line ≡ observer.line)
unfolding judge
judge-keeps observer x us = elim (Mode-cases observer.mode) [
  | inl e ↦ rw (e, judge) (e, refl)
  | inr e ↦ rw (e, judge) (e, refl)
]

answer-line :
    (event : LineEvent) (observer : Observer) → (answer event observer).0.line ≡ observer.line
unfolding answer
answer-line LineEvent.pending observer = refl
answer-line LineEvent.unknown observer = refl
answer-line LineEvent.analog observer = refl

-- The newline behind the line `cs`.
command-newline :
    (cs : List ℕ) (observer : Observer)
    → Read cs observer.line
    → let after = (poll_command (some newline) observer).0 in
      (is_analog after.mode ≡ (is_analog observer.mode || is_command cs)) × (after.line ≡ new_line)
unfolding poll_command
command-newline cs observer r =
    let started = record observer { line = new_line } in
    rw (poll_command, take_char-line_event cs observer.line r)
      (line_event-analog cs started, answer-line (line_event cs) started)

-- Any other character.
command_char :
    (cs : List ℕ) (observer : Observer) (c : ℕ)
    → c ≢ newline
    → Read cs observer.line
    → let after = (poll_command (some c) observer).0 in
      (after.mode ≡ observer.mode) × Read (cs ++ c ∷ []) after.line
unfolding poll_command answer
command_char cs observer c h r =
    let (line, e, r') = take_char-Read cs observer.line c h r in rw (poll_command, e) (refl, r')

-- The observer that has read `text` since boot: `cs` is the line that is not finished, and whatever
-- is typed next, the text has the command among its lines if the observer is in analog mode or the
-- rest of the text has.
abbrev pub Heard : List ℕ → Observer → Type 0
Heard text observer =
    (cs : List ℕ) × OneLine cs
    × Read cs observer.line
    × ((next : List ℕ)
        → is_commanded (split newline (text ++ next))
          ≡ (is_analog observer.mode || is_commanded (split newline (cs ++ next))))

pub new_observer-Heard : Heard [] new_observer
new_observer-Heard = ([], tt, new_line-Read, λ next. refl)

-- What the serial port gave.
abbrev pub given : Option ℕ → List ℕ
given none = []
given (some c) = c ∷ []

poll_command-newline :
    (text : List ℕ) (observer : Observer)
    → Heard text observer
    → Heard (text ++ newline ∷ []) (poll_command (some newline) observer).0
poll_command-newline text observer (cs, o, r, h) =
    let (m, l) = command-newline cs observer r in
    (
      [],
      tt,
      rw l new_line-Read,
      λ next.
          ap (λ all. is_commanded (split newline all)) (append_assoc text (newline ∷ []) next)
          ∙ h (newline ∷ next)
          ∙ ap (λ now_commanded. is_analog observer.mode || now_commanded)
              (ap is_commanded (split_line cs next o) ∙ is_commanded-cons cs next)
          ∙ sym (or_assoc (is_analog observer.mode) (is_command cs) _)
          ∙ ap (λ was. was || is_commanded (split newline next)) (sym m),
    )

poll_command-other :
    (text : List ℕ) (observer : Observer) (c : ℕ)
    → c ≢ newline
    → Heard text observer
    → Heard (text ++ c ∷ []) (poll_command (some c) observer).0
poll_command-other text observer c other (cs, o, r, h) =
    let (m, r') = command_char cs observer c other r in
    (
      cs ++ c ∷ [],
      OneLine-append cs c o other,
      r',
      λ next.
          ap (λ all. is_commanded (split newline all)) (append_assoc text (c ∷ []) next)
          ∙ h (c ∷ next)
          ∙ ap (λ mode. is_analog mode || is_commanded (split newline (cs ++ c ∷ next))) (sym m)
          ∙ ap
              (λ all.
                is_analog (poll_command (some c) observer).0.mode
                || is_commanded (split newline all))
              (sym (append_assoc cs (c ∷ []) next)),
    )

pub poll_command-Heard :
    (text : List ℕ) (observer : Observer) (c : Option ℕ)
    → Heard text observer
    → Heard (text ++ given c) (poll_command c observer).0
unfolding poll_command
poll_command-Heard text observer none h = rw (append-nil text) h
poll_command-Heard text observer (some c) h = elim (Bool-cases (c == newline)) [
  | inl e ↦ rw ((==_iff c newline).0 e) (poll_command-newline text observer h)
  | inr e ↦ poll_command-other text observer c (λ same. absurd (ground arith)) h
]

judge-Heard :
    (text : List ℕ) (observer : Observer) (x : Exchanged) (us : ℕ)
    → Heard text observer
    → Heard text (judge observer x us).0
judge-Heard text observer x us h = let (m, l) = judge-keeps observer x us in rw (m, l) h

pub show-Heard :
    (text : List ℕ) (observer : Observer) (x : Exchanged) (start us : ℕ)
    → Heard text observer
    → Heard text (show observer x start us).0
unfolding show
show-Heard text observer x start us h = judge-Heard text observer x us h

-- The mode, from the text.
pub Heard-mode :
    (text : List ℕ) (observer : Observer)
    → Heard text observer
    → observer.mode ≡ mode_of (is_commanded (split newline text))
Heard-mode text observer (cs, o, r, h) =
    let e : is_commanded (split newline text) ≡ is_analog observer.mode =
      ap (λ all. is_commanded (split newline all)) (sym (append-nil text))
      ∙ h []
      ∙ ap (λ all. is_analog observer.mode || is_commanded (split newline all)) (append-nil cs)
      ∙ rw (unfinished_line cs o) (sym (or_false (is_analog observer.mode))) in
    sym (mode_of-is_analog observer.mode) ∙ ap mode_of (sym e)
