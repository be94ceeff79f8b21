-- ===== src/Console/Read.antt =====
-- What a host reads from the trace line of a frame (src/app/console.cpp, src/core/bus_trace.cpp).
use mathlib.Core.List.{append_assoc}
use pico_sg2hid.Common.{
  ℕ, suc, ◌≤◌, ◌<◌, ◌≡◌, ◌∙◌, refl, ap, inl, inr, Bool-cases, true, false, some, List, [], ◌∷◌,
  ◌++◌, map, arith, ltb, leb, ◌==◌, length, get_or, u32_max,
}
use pico_sg2hid.Trace.{WireByte, zero_wire, dec}
use pico_sg2hid.Trace.Writer.{listed}
use pico_sg2hid.Trace.Line.{trace_line, sent, received, took}
use pico_sg2hid.Trace.Fits.{format_trace_line-fits}
use pico_sg2hid.Console.{print_trace}
use pico_sg2hid.Host.{
  split, split-word, split_last, Above, Above-weaken, Above-append, Above-hex, Above-dec, read_hex,
  read_hex-hex, read_dec, read_dec-dec,
}
use pico_sg2hid.Console.Items.{
  first, given, tabulate-first, tabulate-map, items-tabulate, Above-listed,
}
use pico_sg2hid.Console.Reader.{read_words, first_line, read_trace}

suc-is_zero : (n : ℕ) → (suc n == 0) ≡ false
suc-is_zero n = ground arith

module _ (frame : List WireByte) (completed : ℕ)
    (sent_fit : (i : ℕ) → (get_or frame i zero_wire).out < 256)
    (received_fit : (i : ℕ) → (get_or frame i zero_wire).in_byte < 256)
    (times_fit : (i : ℕ) → (get_or frame i zero_wire).elapsed_us ≤ u32_max) where
  Above-received : (i : ℕ) → Above b',' (received frame completed i)
  Above-received i = elim (Bool-cases (ltb i completed)) [
    | inl e ↦ rw e (Above-hex (get_or frame i zero_wire).in_byte (received_fit i))
    | inr e ↦ rw e (omega arith)
  ]

  Above-took : (i : ℕ) → Above b',' (took frame completed i)
  Above-took i = elim (Bool-cases (leb i completed)) [
    | inl e ↦ rw e (Above-dec b',' (get_or frame i zero_wire).elapsed_us (omega arith))
    | inr e ↦ rw e (omega arith)
  ]

  read_hex-received :
      (i : ℕ)
      → read_hex (received frame completed i) ≡ given (λ byte. byte.in_byte) completed frame i
  read_hex-received i = elim (Bool-cases (ltb i completed)) [
    | inl e ↦ rw e (read_hex-hex (get_or frame i zero_wire).in_byte (received_fit i))
    | inr e ↦ rw e refl
  ]

  read_dec-took :
      (i : ℕ)
      → read_dec (took frame completed i) ≡ given (λ byte. byte.elapsed_us) (suc completed) frame i
  read_dec-took i = elim (Bool-cases (leb i completed)) [
    | inl e ↦
        let e' : ltb i (suc completed) ≡ true = ground arith in
        rw (e, e') (read_dec-dec (get_or frame i zero_wire).elapsed_us (times_fit i))
    | inr e ↦ let e' : ltb i (suc completed) ≡ false = ground arith in rw (e, e') refl
  ]

  abbrev size_word : List ℕ
  size_word = b'n' ∷ b'=' ∷ dec (length frame)

  abbrev completed_word : List ℕ
  completed_word = b'k' ∷ b'=' ∷ dec completed

  abbrev sent_word : List ℕ
  sent_word = b'o' ∷ b'u' ∷ b't' ∷ b'=' ∷ listed (sent frame) (length frame) 0

  abbrev received_word : List ℕ
  received_word = b'i' ∷ b'n' ∷ b'=' ∷ listed (received frame completed) (length frame) 0

  abbrev took_word : List ℕ
  took_word = b'u' ∷ b's' ∷ b'=' ∷ listed (took frame completed) (length frame) 0

  Above-sent : (i : ℕ) → Above b',' (sent frame i)
  Above-sent i = Above-hex (get_or frame i zero_wire).out (sent_fit i)

  Above-words :
      Above 32 size_word
      × Above 32 completed_word
      × Above 32 sent_word
      × Above 32 received_word
      × Above 32 took_word
  Above-words = (
    (omega arith, (omega arith, Above-dec 32 (length frame) (omega arith))),
    (omega arith, (omega arith, Above-dec 32 completed (omega arith))),
    (
      omega arith,
      (
        omega arith,
        (
          omega arith,
          (omega arith, Above-listed 32 (sent frame) (omega arith) Above-sent (length frame) 0),
        ),
      ),
    ),
    (
      omega arith,
      (
        omega arith,
        (
          omega arith,
          Above-listed 32 (received frame completed) (omega arith) Above-received (length frame) 0,
        ),
      ),
    ),
    (
      omega arith,
      (
        omega arith,
        (
          omega arith,
          Above-listed 32 (took frame completed) (omega arith) Above-took (length frame) 0,
        ),
      ),
    ),
  )

  -- The line from a word on.
  abbrev from_received : List ℕ
  from_received = received_word ++ 32 ∷ took_word

  abbrev from_sent : List ℕ
  from_sent = sent_word ++ 32 ∷ from_received

  abbrev from_completed : List ℕ
  from_completed = completed_word ++ 32 ∷ from_sent

  abbrev from_size : List ℕ
  from_size = size_word ++ 32 ∷ from_completed

  abbrev spaced : List ℕ
  spaced = b'T' ∷ b'1' ∷ 32 ∷ from_size

  trace_line-spaced : trace_line frame completed ≡ spaced
  trace_line-spaced = simp append_assoc

  split-spaced :
      split 32 spaced
      ≡ (b'T' ∷ b'1' ∷ []) ∷ size_word ∷ completed_word ∷ sent_word ∷ received_word ∷ took_word ∷ []
  split-spaced =
      let (a, b, c, d, e) = Above-words in
      split-word 32 (b'T' ∷ b'1' ∷ []) from_size (omega arith)
      ∙ ap (λ words. (b'T' ∷ b'1' ∷ []) ∷ words)
          (split-word 32 size_word from_completed a
            ∙ ap (◌∷◌ size_word) (
                split-word 32 completed_word from_sent b
                ∙ ap (◌∷◌ completed_word) (
                    split-word 32 sent_word from_received c
                    ∙ ap (◌∷◌ sent_word) (
                        split-word 32 received_word took_word d
                        ∙ ap (◌∷◌ received_word) (split_last 32 took_word e)))))

  -- A word and the rest of the line behind a space.
  Above-behind : (word rest : List ℕ) → Above 32 word → Above 10 rest → Above 10 (word ++ 32 ∷ rest)
  Above-behind word rest a b =
      Above-append 10 word (32 ∷ rest) (Above-weaken 10 32 word (omega arith) a) (omega arith, b)

  Above-spaced : Above 10 spaced
  Above-spaced =
      let (a, b, c, d, e) = Above-words in
      Above-behind (b'T' ∷ b'1' ∷ []) from_size (omega arith) (
        Above-behind size_word from_completed a (
          Above-behind completed_word from_sent b (
            Above-behind sent_word from_received c (
              Above-behind received_word took_word d
                (Above-weaken 10 32 took_word (omega arith) e)))))

  print_trace-spaced :
      1 ≤ length frame
      → length frame ≤ 9
      → completed ≤ length frame
      → print_trace frame completed ≡ spaced ++ 10 ∷ []
  unfolding print_trace
  print_trace-spaced one short whole =
      rw
        (
          format_trace_line-fits frame completed one short whole times_fit ∙ trace_line-spaced,
          suc-is_zero (length (b'1' ∷ 32 ∷ from_size)),
        )
        refl

  -- A host reads the console's line of a frame: of one to nine bytes, of which at most all
  -- completed, with bytes below 256 and 32-bit times. It gets back the frame's size, how many bytes
  -- completed, each byte that was sent, each byte that came in with a byte that completed, and the
  -- time of each byte that completed and of the one behind the last of those.
  pub read_trace-print_trace :
      1 ≤ length frame
      → length frame ≤ 9
      → completed ≤ length frame
      → read_trace (print_trace frame completed)
        ≡ some (record {
          size = length frame;
          completed = completed;
          sent_bytes = map (λ byte. some byte.out) frame;
          received_bytes = first (λ byte. byte.in_byte) completed frame;
          times_us = first (λ byte. byte.elapsed_us) (suc completed) frame;
        })
  unfolding read_trace split
  read_trace-print_trace one short whole =
      let outs =
        items-tabulate read_hex (sent frame) (λ i. some (get_or frame i zero_wire).out)
          (length frame) one Above-sent
          (λ i. read_hex-hex (get_or frame i zero_wire).out (sent_fit i))
        ∙ tabulate-map (λ byte. byte.out) frame in
      let ins =
        items-tabulate read_hex (received frame completed)
          (given (λ byte. byte.in_byte) completed frame) (length frame) one Above-received
          read_hex-received
        ∙ tabulate-first (λ byte. byte.in_byte) completed frame in
      let times =
        items-tabulate read_dec (took frame completed)
          (given (λ byte. byte.elapsed_us) (suc completed) frame) (length frame) one Above-took
          read_dec-took
        ∙ tabulate-first (λ byte. byte.elapsed_us) (suc completed) frame in
      let one_line : split 10 (spaced ++ 10 ∷ []) ≡ spaced ∷ [] ∷ [] =
        split-word 10 spaced [] Above-spaced in
      ap (λ text. first_line (split 10 text)) (print_trace-spaced one short whole)
      ∙ ap first_line one_line
      ∙ ap read_words split-spaced
      ∙ rw
          (
            read_dec-dec (length frame) (omega arith),
            read_dec-dec completed (omega arith),
            outs,
            ins,
            times,
          )
          refl
