-- ===== src/Host.antt =====
-- How a host takes apart the lines that the firmwares print: no part of the program. A line is split
-- at its spaces, a list at its commas, and a number is read from its digits.
use mathlib.Core.List.{append-nil}
use pico_sg2hid.Common.{
  ℕ, zero, suc, ◌+◌, ◌-◌, ◌*◌, ◌/◌, ◌%◌, ◌≤◌, ◌<◌, ◌≡◌, ◌∙◌, refl, ap, Bool, true, false, ◌&&◌,
  Option, none, some, List, [], ◌∷◌, ◌++◌, map, arith, ltb, leb, ◌==◌, if◌then◌else◌, get_or,
  u32_max, list_eq,
}
use pico_sg2hid.Common.Bits.{passes, holds_of_byte}
use pico_sg2hid.Trace.{dec, hex_digits}
use pico_sg2hid.Trace.Writer.{hex, listed}
use pico_sg2hid.Emulator.Commands.{parse_number}
use pico_sg2hid.Emulator.Commands.Numbers.{Plain, dec_digits-Plain, parse_number-dec}

abbrev prepend : ℕ → List (List ℕ) → List (List ℕ)
prepend c [] = (c ∷ []) ∷ []
prepend c (word ∷ words) = (c ∷ word) ∷ words

unfoldable pub split : ℕ → List ℕ → List (List ℕ)
split at [] = [] ∷ []
split at (c ∷ text) = if c == at then [] ∷ split at text else prepend c (split at text)

-- Every character comes behind this one in the character set.
abbrev pub Above : ℕ → List ℕ → Type 0
Above at [] = Unit {0}
Above at (c ∷ text) = (at < c) × Above at text

pub Above-append : (at : ℕ) (xs ys : List ℕ) → Above at xs → Above at ys → Above at (xs ++ ys)
Above-append at [] ys a b = b
Above-append at (x ∷ xs) ys (p, a) b = (p, Above-append at xs ys a b)

pub Above-weaken : (low at : ℕ) (xs : List ℕ) → low ≤ at → Above at xs → Above low xs
Above-weaken low at [] h a = tt
Above-weaken low at (x ∷ xs) h (p, a) = (omega arith, Above-weaken low at xs h a)

-- The word in front of a separator.
pub split-word :
    (at : ℕ) (word text : List ℕ)
    → Above at word
    → split at (word ++ at ∷ text) ≡ word ∷ split at text
unfolding split
split-word at [] text a = let e : (at == at) ≡ true = ground arith in rw e refl
split-word at (c ∷ word) text (p, a) =
    let e : (c == at) ≡ false = ground arith in rw (e, split-word at word text a) refl

pub split_last : (at : ℕ) (word : List ℕ) → Above at word → split at word ≡ word ∷ []
unfolding split
split_last at [] a = refl
split_last at (c ∷ word) (p, a) =
    let e : (c == at) ≡ false = ground arith in rw (e, split_last at word a) refl

-- The values at `i` and behind, `n` of them.
abbrev pub tabulate {ℓ} : {A : Type ℓ} → (ℕ → A) → ℕ → ℕ → List A
tabulate value zero i = []
tabulate value (suc n) i = value i ∷ tabulate value n (i + 1)

split-listed_behind :
    (text : ℕ → List ℕ)
    → ((i : ℕ) → Above b',' (text i))
    → (n i : ℕ) (word : List ℕ) → 0 < i
    → Above b',' word
    → split b',' (word ++ listed text n i) ≡ word ∷ tabulate text n i
split-listed_behind text each zero i word h a = rw (append-nil word) (split_last b',' word a)
split-listed_behind text each (suc n) i word h a =
    let some_before : ltb 0 i ≡ true = ground arith in
    rw some_before (
      split-word b',' word (text i ++ listed text n (i + 1)) a
      ∙ ap (◌∷◌ word) (split-listed_behind text each n (i + 1) (text i) (omega arith) (each i)))

-- The items of a printed list.
pub split-listed :
    (text : ℕ → List ℕ)
    → ((i : ℕ) → Above b',' (text i))
    → (n : ℕ) → split b',' (listed text (suc n) 0) ≡ tabulate text (suc n) 0
split-listed text each n = split-listed_behind text each n 1 (text 0) (omega arith) (each 0)

pub map-tabulate {ℓ κ} :
    {A : Type ℓ} {B : Type κ} (f : A → B) (value : ℕ → A) (n i : ℕ)
    → map f (tabulate value n i) ≡ tabulate (λ j. f (value j)) n i
map-tabulate f value zero i = refl
map-tabulate f value (suc n) i = ap (◌∷◌ (f (value i))) (map-tabulate f value n (i + 1))

abbrev pub digit : ℕ → ℕ
digit c = if ltb c 58 then c - 48 else c - 55

-- `XX`, or the mark of a byte that is not there.
abbrev pub read_hex : List ℕ → Option ℕ
read_hex (high ∷ low ∷ []) = if high == b'-' then none else some (digit high * 16 + digit low)
read_hex _ = none

abbrev pub read_dec : List ℕ → Option ℕ
read_dec text = if list_eq text (b'-' ∷ []) then none else parse_number text 10

is_legible : ℕ → Bool
is_legible byte =
    let high = get_or hex_digits (byte / 16 % 16) 0 in
    let low = get_or hex_digits (byte % 16) 0 in
    leb 48 high && leb 48 low && (digit high * 16 + digit low == byte)

bytes-legible : passes is_legible 256 ≡ true
unfolding passes is_legible
bytes-legible = refl

pub hex-legible :
    (byte : ℕ)
    → byte < 256
    → (48 ≤ get_or hex_digits (byte / 16 % 16) 0)
      × (48 ≤ get_or hex_digits (byte % 16) 0)
      × (digit (get_or hex_digits (byte / 16 % 16) 0) * 16 + digit (get_or hex_digits (byte % 16) 0)
          ≡ byte)
unfolding is_legible
hex-legible byte below =
    let e : is_legible byte ≡ true = holds_of_byte is_legible byte bytes-legible below in
    (ground (arith, e), ground (arith, e), ground (arith, e))

pub Above-hex : (byte : ℕ) → byte < 256 → Above b',' (hex byte)
Above-hex byte below = let (h, l, _) = hex-legible byte below in (omega arith, (omega arith, tt))

pub read_hex-hex : (byte : ℕ) → byte < 256 → read_hex (hex byte) ≡ some byte
read_hex-hex byte below =
    let (h, l, e) = hex-legible byte below in
    let d : (get_or hex_digits (byte / 16 % 16) 0 == b'-') ≡ false = ground arith in rw (d, e) refl

Above-Plain : (at : ℕ) (text : List ℕ) → at < b'0' → Plain text → Above at text
Above-Plain at [] h p = tt
Above-Plain at (c ∷ text) h (pc, p) = (omega arith, Above-Plain at text h p)

pub Above-dec : (at n : ℕ) → at < b'0' → Above at (dec n)
Above-dec at n h = Above-Plain at (dec n) h (dec_digits-Plain 20 n)

is_no_dash : (text : List ℕ) → Above b'-' text → list_eq text (b'-' ∷ []) ≡ false
is_no_dash [] a = refl
is_no_dash (c ∷ text) (p, a) = let e : (c == b'-') ≡ false = ground arith in rw e refl

pub read_dec-dec : (n : ℕ) → n ≤ u32_max → read_dec (dec n) ≡ some n
read_dec-dec n h =
    rw (is_no_dash (dec n) (Above-dec b'-' n (omega arith)), parse_number-dec n h) refl
