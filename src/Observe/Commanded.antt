-- ===== src/Observe/Commanded.antt =====
-- The command of the observe firmware (src/app/observe.cpp) among the lines of a text.
use pico_sg2hid.Common.{
  ℕ, ◌≡◌, refl, inl, inr, Bool, Bool-cases, false, ◌||◌, List, [], ◌∷◌, ◌++◌, arith, ◌==◌, list_eq,
}
use pico_sg2hid.Command.{newline, carriage_return, analog_command}
use pico_sg2hid.Command.Lines.{OneLine}
use pico_sg2hid.Host.{split}

abbrev pub is_command : List ℕ → Bool
is_command line =
    list_eq line analog_command || list_eq line (analog_command ++ carriage_return ∷ [])

-- Whether one of the lines is the command; the last of them has no newline yet.
abbrev pub is_commanded : List (List ℕ) → Bool
is_commanded [] = false
is_commanded (unfinished ∷ []) = false
is_commanded (line ∷ more ∷ rest) = is_command line || is_commanded (more ∷ rest)

split-cons :
    (at : ℕ) (text : List ℕ)
    → (word : List ℕ) × (words : List (List ℕ)) × (split at text ≡ word ∷ words)
unfolding split
split-cons at [] = ([], [], refl)
split-cons at (c ∷ text) =
    let (word, words, e) = split-cons at text in
    elim (Bool-cases (c == at)) [
      | inl same ↦ ([], split at text, rw same refl)
      | inr other ↦ (c ∷ word, words, rw (other, e) refl)
    ]

pub is_commanded-cons :
    (line text : List ℕ)
    → is_commanded (line ∷ split newline text)
      ≡ (is_command line || is_commanded (split newline text))
is_commanded-cons line text = let (word, words, e) = split-cons newline text in rw e refl

pub split_line :
    (cs text : List ℕ) → OneLine cs → split newline (cs ++ newline ∷ text) ≡ cs ∷ split newline text
unfolding split
split_line [] text o = refl
split_line (c ∷ cs) text (h, o) =
    let e : (c == newline) ≡ false = ground arith in rw (e, split_line cs text o) refl

pub unfinished_line : (cs : List ℕ) → OneLine cs → split newline cs ≡ cs ∷ []
unfolding split
unfinished_line [] o = refl
unfinished_line (c ∷ cs) (h, o) =
    let e : (c == newline) ≡ false = ground arith in rw (e, unfinished_line cs o) refl
