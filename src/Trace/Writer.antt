-- ===== src/Trace/Writer.antt =====
-- What a bounded writer of src/core/bus_trace.cpp holds: all that was put, or the mark that it did
-- not fit.
use mathlib.Core.List.{append-nil, append_assoc}
use pico_sg2hid.Common.{
  ℕ, zero, suc, ◌+◌, ◌≤◌, ◌<◌, ◌≡◌, ◌∙◌, ◌⊎◌, true, false, List, [], ◌∷◌, ◌++◌, arith, ltb,
  if◌then◌else◌, length, length-append, get_or, ◌/◌, ◌%◌, subst,
}
use pico_sg2hid.Trace.{
  LineWriter, put_char, put_text, put_dec, put_hex, put_sep, put_list, dec, item_sep, hex_digits,
}

-- `whole` is all that was put into the writer so far.
abbrev pub Holds : ℕ → LineWriter → List ℕ → Type 0
Holds capacity writer whole =
    (writer.capacity ≡ capacity)
    × (((length whole ≤ capacity) × (writer.text ≡ whole) × (writer.is_overflow ≡ false))
        ⊎ ((capacity < length whole) × (writer.is_overflow ≡ true)))

abbrev pub hex : ℕ → List ℕ
hex value = get_or hex_digits (value / 16 % 16) 0 ∷ get_or hex_digits (value % 16) 0 ∷ []

abbrev pub sep : ℕ → List ℕ
sep i = if ltb 0 i then item_sep ∷ [] else []

-- The texts of the items from `i` on, each but item 0 behind a separator.
abbrev pub listed : (ℕ → List ℕ) → ℕ → ℕ → List ℕ
listed text zero i = []
listed text (suc n) i = sep i ++ (text i ++ listed text n (i + 1))

module _ (k : ℕ) where
  put_char-Holds :
      (c : ℕ) (w : LineWriter) (whole : List ℕ)
      → Holds k w whole
      → Holds k (put_char c w) (whole ++ c ∷ [])
  unfolding put_char
  put_char-Holds c w whole h = ground (arith, length-append whole (c ∷ []))

  pub put_dec-Holds :
      (v : ℕ) (w : LineWriter) (whole : List ℕ)
      → Holds k w whole
      → Holds k (put_dec v w) (whole ++ dec v)
  unfolding put_dec
  put_dec-Holds v w whole h = ground (arith, length-append whole (dec v))

  pub put_text-Holds :
      (text : List ℕ) (w : LineWriter) (whole : List ℕ)
      → Holds k w whole
      → Holds k (put_text text w) (whole ++ text)
  unfolding put_text
  put_text-Holds [] w whole h = rw (append-nil whole) h
  put_text-Holds (c ∷ text) w whole h =
      subst (Holds k (put_text text (put_char c w))) (append_assoc whole (c ∷ []) text)
        (put_text-Holds text (put_char c w) (whole ++ c ∷ []) (put_char-Holds c w whole h))

  pub put_hex-Holds :
      (v : ℕ) (w : LineWriter) (whole : List ℕ)
      → Holds k w whole
      → Holds k (put_hex v w) (whole ++ hex v)
  unfolding put_hex
  put_hex-Holds v w whole h =
      subst (Holds k _) (append_assoc whole _ _)
        (put_char-Holds _ _ _ (put_char-Holds (get_or hex_digits (v / 16 % 16) 0) w whole h))

  put_sep-Holds :
      (i : ℕ) (w : LineWriter) (whole : List ℕ)
      → Holds k w whole
      → Holds k (put_sep i w) (whole ++ sep i)
  unfolding put_sep
  put_sep-Holds zero w whole h = rw (append-nil whole) h
  put_sep-Holds (suc i) w whole h =
      let e : ltb 0 (suc i) ≡ true = ground arith in rw e (put_char-Holds item_sep w whole h)

  pub put_list-Holds :
      (item : ℕ → LineWriter → LineWriter) (text : ℕ → List ℕ)
      → ((i : ℕ) (w : LineWriter) (whole : List ℕ)
          → Holds k w whole
          → Holds k (item i w) (whole ++ text i))
      → (n i : ℕ) (w : LineWriter) (whole : List ℕ) → Holds k w whole
      → Holds k (put_list item n i w) (whole ++ listed text n i)
  unfolding put_list
  put_list-Holds item text each zero i w whole h = rw (append-nil whole) h
  put_list-Holds item text each (suc n) i w whole h =
      let next = item i (put_sep i w) in
      subst (Holds k (put_list item n (i + 1) next))
        (append_assoc (whole ++ sep i) (text i) _ ∙ append_assoc whole (sep i) _)
        (put_list-Holds item text each n (i + 1) next ((whole ++ sep i) ++ text i)
          (each i (put_sep i w) (whole ++ sep i) (put_sep-Holds i w whole h)))
