-- ===== src/Emulator/Commands/Numbers.antt =====
-- The numbers of the line commands (src/emu/sg_model.cpp), read back from what a host prints.
use pico_sg2hid.Common.{
  ℕ, zero, suc, ◌+◌, ◌*◌, ◌/◌, ◌%◌, ◌≤◌, ◌<◌, ◌≡◌, refl, ap, ◌∙◌, false, some, List, [], ◌∷◌, ◌++◌,
  arith, ltb, u32_max, Bool-cases, Option-cases, inl, inr,
}
use pico_sg2hid.Trace.{dec, dec_digits}
use pico_sg2hid.Trace.Fits.{ten_to}
use pico_sg2hid.Command.{is_empty, drop_return}
use pico_sg2hid.Emulator.Commands.{
  skip_spaces, word_of, behind_word, digit_of, read_digits, parse_number,
}

digit_of_dec : (d : ℕ) → d < 10 → digit_of 10 (b'0' + d) ≡ some d
unfolding digit_of
digit_of_dec d h = ground arith

read_digits-append :
    (base v d w : ℕ) (cs : List ℕ)
    → read_digits base v cs ≡ some w
    → (c : ℕ) → digit_of base c ≡ some d
    → read_digits base v (cs ++ c ∷ []) ≡ some (w * base + d)
unfolding read_digits
read_digits-append base v d w [] h c e = ground arith
read_digits-append base v d w (x ∷ cs) h c e = elim (Option-cases (digit_of base x)) [
  | inl n ↦ absurd (ground arith)
  | inr (y, ey) ↦
      rw (ey, read_digits)
        (read_digits-append base (v * base + y) d w cs (rw (ey, read_digits) at h) c e)
]

read_digits-dec_digits :
    (left n : ℕ) → n < ten_to left → read_digits 10 0 (dec_digits left n) ≡ some n
unfolding dec_digits read_digits
read_digits-dec_digits zero n h = ground arith
read_digits-dec_digits (suc left) n h = elim (Bool-cases (ltb n 10)) [
  | inl e ↦ rw (e, read_digits) (ground (arith, digit_of_dec n))
  | inr e ↦
      rw (e, read_digits)
        (read_digits-append 10 0 (n % 10) (n / 10) (dec_digits left (n / 10))
            (read_digits-dec_digits left (n / 10) (omega arith)) (b'0' + n % 10)
            (digit_of_dec (n % 10) (omega arith))
          ∙ ap some (omega arith))
]

-- Not a space, and not a carriage return.
abbrev pub Plain : List ℕ → Type 0
Plain [] = Unit {0}
Plain (c ∷ cs) = (b'0' ≤ c) × Plain cs

Plain-append : (xs ys : List ℕ) → Plain xs → Plain ys → Plain (xs ++ ys)
Plain-append [] ys p q = q
Plain-append (x ∷ xs) ys (px, p) q = (px, Plain-append xs ys p q)

pub dec_digits-Plain : (left n : ℕ) → Plain (dec_digits left n)
unfolding dec_digits
dec_digits-Plain zero n = tt
dec_digits-Plain (suc left) n = elim (Bool-cases (ltb n 10)) [
  | inl e ↦ rw (e, Plain) (omega arith, tt)
  | inr e ↦
      rw (e, Plain)
        (Plain-append (dec_digits left (n / 10)) _ (dec_digits-Plain left (n / 10))
          (omega arith, tt))
]

is_empty-append : (xs : List ℕ) (c : ℕ) → is_empty (xs ++ c ∷ []) ≡ false
unfolding is_empty
is_empty-append [] c = refl
is_empty-append (x ∷ xs) c = refl

pub is_empty-dec : (n : ℕ) → is_empty (dec n) ≡ false
unfolding dec_digits is_empty
is_empty-dec n = elim (Bool-cases (ltb n 10)) [
  | inl e ↦ rw (e, is_empty) refl
  | inr e ↦ rw (e, is_empty) (is_empty-append (dec_digits 19 (n / 10)) (b'0' + n % 10))
]

-- The decimal digits of a 32-bit number are read back as that number.
pub parse_number-dec : (n : ℕ) → n ≤ u32_max → parse_number (dec n) 10 ≡ some n
unfolding parse_number
parse_number-dec n h =
    let digits : read_digits 10 0 (dec n) ≡ some n = read_digits-dec_digits 20 n (omega arith) in
    rw (is_empty-dec n, digits) (ground arith)

pub Plain-skip_spaces : (cs : List ℕ) → Plain cs → skip_spaces cs ≡ cs
unfolding skip_spaces
Plain-skip_spaces [] p = refl
Plain-skip_spaces (c ∷ cs) (pc, p) = ground arith

pub Plain-word_of : (cs : List ℕ) → Plain cs → word_of cs ≡ cs
unfolding word_of
Plain-word_of [] p = refl
Plain-word_of (c ∷ cs) (pc, p) = ground (arith, Plain-word_of cs p)

pub Plain-behind_word : (cs : List ℕ) → Plain cs → behind_word cs ≡ []
unfolding behind_word
Plain-behind_word [] p = refl
Plain-behind_word (c ∷ cs) (pc, p) = ground (arith, Plain-behind_word cs p)

-- A line that ends in no carriage return is taken as it is.
pub Plain-drop_return :
    (xs cs : List ℕ) → Plain cs → is_empty cs ≡ false → drop_return (xs ++ cs) ≡ xs ++ cs
unfolding drop_return is_empty
Plain-drop_return [] [] p ne = refl
Plain-drop_return [] (c ∷ []) (pc, p) ne = ground arith
Plain-drop_return [] (c ∷ d ∷ cs) (pc, p) ne = ap (◌∷◌ c) (Plain-drop_return [] (d ∷ cs) p refl)
Plain-drop_return (x ∷ []) [] p ne = absurd (cc)
Plain-drop_return (x ∷ []) (c ∷ cs) p ne = ap (◌∷◌ x) (Plain-drop_return [] (c ∷ cs) p refl)
Plain-drop_return (x ∷ y ∷ xs) cs p ne = ap (◌∷◌ x) (Plain-drop_return (y ∷ xs) cs p ne)
