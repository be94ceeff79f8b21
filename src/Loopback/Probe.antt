-- ===== src/Loopback/Probe.antt =====
-- What a host reads from the probe's line of the loopback firmware (src/app/loopback.cpp): the reader
-- is no part of the program.
use mathlib.Core.List.{append-nil}
use pico_sg2hid.Common.{
  ℕ, ◌+◌, ◌≤◌, ◌<◌, ◌≡◌, ◌∙◌, refl, ap, Bool-cases, inl, inr, false, Option, none, some, List, [],
  ◌∷◌, ◌++◌, map, arith, ◌==◌, if◌then◌else◌, u32_max,
}
use pico_sg2hid.Trace.{dec}
use pico_sg2hid.Host.{
  split, split-word, split_last, Above, Above-append, Above-weaken, Above-dec, read_dec,
  read_dec-dec,
}
use pico_sg2hid.Loopback.Lines.{print_probe, bits_text}

abbrev last_word : List (List ℕ) → Option (List (Option ℕ))
last_word (probe ∷ byte ∷ on ∷ the ∷ wire ∷ bits ∷ []) = some (map read_dec (split b',' bits))
last_word _ = none

abbrev first_line : List (List ℕ) → Option (List (Option ℕ))
first_line (line ∷ rest) = last_word (split 32 line)
first_line [] = none

unfoldable pub read_probe : List ℕ → Option (List (Option ℕ))
read_probe text = first_line (split 10 text)

-- Each of some numbers has 32 bits.
abbrev pub Fit : List ℕ → Type 0
Fit [] = Unit {0}
Fit (n ∷ ns) = (n ≤ u32_max) × Fit ns

abbrev pub levels : Option (List ℕ) → Option (List (Option ℕ))
levels none = none
levels (some bits) = some (map (λ bit. some bit) bits)

split-bits_behind :
    (bits : List ℕ) (i : ℕ) (word : List ℕ)
    → 0 < i
    → Above b',' word
    → split b',' (word ++ bits_text i bits) ≡ word ∷ map dec bits
unfolding bits_text
split-bits_behind [] i word h a = rw (append-nil word) (split_last b',' word a)
split-bits_behind (bit ∷ bits) i word h a =
    let behind : (i == 0) ≡ false = ground arith in
    rw behind (
      split-word b',' word (dec bit ++ bits_text (i + 1) bits) a
      ∙ ap (◌∷◌ word) (
          split-bits_behind bits (i + 1) (dec bit) (omega arith)
            (Above-dec b',' bit (omega arith))))

split-bits :
    (bit : ℕ) (bits : List ℕ) → split b',' (bits_text 0 (bit ∷ bits)) ≡ map dec (bit ∷ bits)
unfolding bits_text
split-bits bit bits =
    split-bits_behind bits 1 (dec bit) (omega arith) (Above-dec b',' bit (omega arith))

Above-bits : (at : ℕ) (bits : List ℕ) (i : ℕ) → at < b',' → Above at (bits_text i bits)
unfolding bits_text
Above-bits at [] i h = tt
Above-bits at (bit ∷ bits) i h =
    let rest = Above-bits at bits (i + 1) h in
    let digits = Above-dec at bit (omega arith) in
    Above-append at (if i == 0 then dec bit else b',' ∷ dec bit) (bits_text (i + 1) bits)
      (elim (Bool-cases (i == 0)) [ inl e ↦ rw e digits | inr e ↦ rw e (h, digits) ]) rest

map-read_dec-dec :
    (bits : List ℕ) → Fit bits → map read_dec (map dec bits) ≡ map (λ bit. some bit) bits
map-read_dec-dec [] f = refl
map-read_dec-dec (bit ∷ bits) (b, f) = rw (read_dec-dec bit b, map-read_dec-dec bits f) refl

-- The outcomes that `probe_wire_bits` has: no levels, or some, each a number of 32 bits.
abbrev pub IsOutcome : Option (List ℕ) → Type 0
IsOutcome none = Unit {0}
IsOutcome (some []) = ⊥
IsOutcome (some (bit ∷ bits)) = Fit (bit ∷ bits)

-- A host that reads the line of the probe gets each level that the probe read, in order, and
-- nothing where the probe timed out.
pub read_probe-print_probe :
    (outcome : Option (List ℕ))
    → IsOutcome outcome
    → read_probe (print_probe outcome) ≡ levels outcome
unfolding read_probe print_probe split
read_probe-print_probe none f = refl
read_probe-print_probe (some []) f = absurd f
read_probe-print_probe (some (bit ∷ bits)) f =
    let behind = bits_text 0 (bit ∷ bits) in
    let spaceless : Above 32 behind = Above-bits 32 (bit ∷ bits) 0 (omega arith) in
    let one_line : split 10 (behind ++ 10 ∷ []) ≡ behind ∷ split 10 [] =
      split-word 10 behind [] (Above-weaken 10 32 behind (omega arith) spaceless) in
    rw one_line (
      rw (split_last 32 behind spaceless)
        (ap some (ap (map read_dec) (split-bits bit bits) ∙ map-read_dec-dec (bit ∷ bits) f)))
