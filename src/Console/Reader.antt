-- ===== src/Console/Reader.antt =====
-- A host that reads the trace line of the console (src/app/console.cpp, src/core/bus_trace.cpp), as
-- tools/trace_decode.py does: no part of the program, and written from the form of the line,
-- `T1 n=… k=… out=…,… in=…,… us=…,…`.
use pico_sg2hid.Common.{ℕ, Option, none, some, List, [], ◌∷◌, map, ◌==◌, if◌then◌else◌, list_eq}
use pico_sg2hid.Host.{split, read_hex, read_dec}

-- What a line says: how many bytes the frame has and how many completed; for each byte what was
-- sent, and what came in and how long it took, where the line has that.
pub record TraceRead : Type 0 where
  pub size : ℕ
  pub completed : ℕ
  pub sent_bytes : List (Option ℕ)
  pub received_bytes : List (Option ℕ)
  pub times_us : List (Option ℕ)

-- What stands behind a key.
abbrev pub strip : List ℕ → List ℕ → Option (List ℕ)
strip [] word = some word
strip (k ∷ key) [] = none
strip (k ∷ key) (c ∷ word) = if k == c then strip key word else none

abbrev pub number : Option (List ℕ) → Option ℕ
number none = none
number (some text) = read_dec text

abbrev pub items : (List ℕ → Option ℕ) → Option (List ℕ) → Option (List (Option ℕ))
items read none = none
items read (some text) = some (map read (split b',' text))

abbrev pub fields :
    Option ℕ
    → Option ℕ
    → Option (List (Option ℕ))
    → Option (List (Option ℕ))
    → Option (List (Option ℕ))
    → Option TraceRead
fields (some n) (some k) (some outs) (some ins) (some us) =
    some
      (record { size = n; completed = k; sent_bytes = outs; received_bytes = ins; times_us = us })
fields _ _ _ _ _ = none

abbrev pub read_words : List (List ℕ) → Option TraceRead
read_words (version ∷ n ∷ k ∷ outs ∷ ins ∷ us ∷ []) =
    if list_eq version (b'T' ∷ b'1' ∷ [])
    then fields (number (strip (b'n' ∷ b'=' ∷ []) n)) (number (strip (b'k' ∷ b'=' ∷ []) k))
        (items read_hex (strip (b'o' ∷ b'u' ∷ b't' ∷ b'=' ∷ []) outs))
        (items read_hex (strip (b'i' ∷ b'n' ∷ b'=' ∷ []) ins))
        (items read_dec (strip (b'u' ∷ b's' ∷ b'=' ∷ []) us))
    else none
read_words _ = none

abbrev pub first_line : List (List ℕ) → Option TraceRead
first_line (line ∷ []) = none
first_line (line ∷ rest) = read_words (split 32 line)
first_line [] = none

-- The line up to the newline.
unfoldable pub read_trace : List ℕ → Option TraceRead
read_trace text = first_line (split 10 text)
