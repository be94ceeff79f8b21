-- ===== src/Trace/Fits.antt =====
-- The buffer of `print_trace` (src/app/console.cpp) is large enough for every frame of the firmware.
use native.Mathlib.Nat.{suc-mul}
use pico_sg2hid.Common.{
  ℕ, zero, suc, ◌+◌, ◌*◌, ◌/◌, ◌%◌, ◌≤◌, ◌<◌, ◌≡◌, ◌∙◌, inl, inr, true, List, [], ◌∷◌, ◌++◌, arith,
  ltb, length, length-append, get_or, Bool-cases, u32_max,
}
use pico_sg2hid.Trace.{
  WireByte, zero_wire, version_text, length_text, completed_text, out_text, in_text, elapsed_text,
  dec, dec_digits, format_trace_line,
}
use pico_sg2hid.Trace.Writer.{listed, sep}
use pico_sg2hid.Trace.Line.{
  n_part, k_part, out_part, in_part, sent, received, took, trace_line, format_trace_line-trace_line,
}

abbrev pub trace_line_size : ℕ
trace_line_size = 256

abbrev pub ten_to : ℕ → ℕ
ten_to zero = 1
ten_to (suc k) = 10 * ten_to k

length-dec_digits : (left k n : ℕ) → n < ten_to (suc k) → length (dec_digits left n) ≤ suc k
unfolding dec_digits
length-dec_digits zero k n h = omega arith
length-dec_digits (suc left) zero n h =
    let e : ltb n 10 ≡ true = ground arith in rw (e, length) (omega arith)
length-dec_digits (suc left) (suc k) n h = elim (Bool-cases (ltb n 10)) [
  | inl e ↦ rw (e, length) (omega arith)
  | inr e ↦
      rw (e, length)
        (omega (
          arith,
          length-append (dec_digits left (n / 10)) ((b'0' + n % 10) ∷ []),
          length-dec_digits left k (n / 10) (omega arith),
        ))
]

length-listed :
    (text : ℕ → List ℕ) (b : ℕ)
    → ((i : ℕ) → length (text i) ≤ b)
    → (n i : ℕ) → length (listed text n i) ≤ n * (b + 1)
length-listed text b each zero i = omega arith
length-listed text b each (suc n) i = rw (suc-mul n (b + 1)) (
    ground (
      arith,
      length-append (sep i) (text i ++ listed text n (i + 1)),
      length-append (text i) (listed text n (i + 1)),
      each i,
      length-listed text b each n (i + 1),
    ))

pub length-dec : (n : ℕ) → n ≤ u32_max → length (dec n) ≤ 10
length-dec n h = length-dec_digits 20 9 n (omega arith)

length-received :
    (frame : List WireByte) (completed i : ℕ) → length (received frame completed i) ≤ 2
length-received frame completed i = ground arith

length-took :
    (frame : List WireByte) (completed i : ℕ)
    → (get_or frame i zero_wire).elapsed_us ≤ u32_max
    → length (took frame completed i) ≤ 10
length-took frame completed i h = ground (arith, length-dec (get_or frame i zero_wire).elapsed_us h)

module _ (frame : List WireByte) (completed : ℕ) (short : length frame ≤ 9)
    (whole : completed ≤ length frame)
    (fits : (i : ℕ) → (get_or frame i zero_wire).elapsed_us ≤ u32_max) where
  length-k_part : length (k_part frame completed) ≤ 28
  length-k_part = omega (
    arith,
    length-append version_text length_text,
    length-append (version_text ++ length_text) (dec (length frame)),
    length-append (n_part frame completed) completed_text,
    length-append (n_part frame completed ++ completed_text) (dec completed),
    length-dec (length frame) (omega arith),
    length-dec completed (omega arith),
  )

  length-in_part : length (in_part frame completed) ≤ 91
  length-in_part = omega (
    arith,
    length-k_part,
    length-append (k_part frame completed) out_text,
    length-append (k_part frame completed ++ out_text) (listed (sent frame) (length frame) 0),
    length-append (out_part frame completed) in_text,
    length-append (out_part frame completed ++ in_text)
        (listed (received frame completed) (length frame) 0),
    length-listed (sent frame) 2 (λ i. omega arith) (length frame) 0,
    length-listed (received frame completed) 2 (length-received frame completed) (length frame) 0,
  )

  length-trace_line : length (trace_line frame completed) ≤ trace_line_size
  length-trace_line = omega (
    arith,
    length-in_part,
    length-append (in_part frame completed) elapsed_text,
    length-append (in_part frame completed ++ elapsed_text)
        (listed (took frame completed) (length frame) 0),
    length-listed (took frame completed) 10 (λ i. length-took frame completed i (fits i))
        (length frame) 0,
  )

-- The console's buffer of 256 characters holds the line of every frame that the firmware exchanges,
-- whatever bytes and times are in it: of one to nine bytes, of which at most all completed. Its line
-- is printed whole, and the message that a line is too long is never printed.
pub format_trace_line-fits :
    (frame : List WireByte) (completed : ℕ)
    → 1 ≤ length frame
    → length frame ≤ 9
    → completed ≤ length frame
    → ((i : ℕ) → (get_or frame i zero_wire).elapsed_us ≤ u32_max)
    → format_trace_line frame completed trace_line_size ≡ trace_line frame completed
format_trace_line-fits frame completed one short whole fits =
    format_trace_line-trace_line frame completed trace_line_size
    ∙ ground (arith, length-trace_line frame completed short whole fits)
