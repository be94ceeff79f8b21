-- ===== src/Trace/Line.antt =====
-- The whole `T1` line of a frame, and what `format_trace_line` of src/core/bus_trace.cpp makes of it.
use pico_sg2hid.Common.{
  ℕ, ◌≡◌, refl, inl, inr, false, ◌||◌, List, [], ◌++◌, arith, ltb, leb, ◌==◌, if◌then◌else◌, length,
  get_or, Bool-cases,
}
use pico_sg2hid.Trace.{
  WireByte, zero_wire, LineWriter, version_text, length_text, completed_text, out_text, in_text,
  elapsed_text, absent_in, absent_us, put_text, put_dec, put_out, put_in, put_elapsed, put_list,
  written, dec, format_trace_line,
}
use pico_sg2hid.Trace.Writer.{
  Holds, hex, listed, put_dec-Holds, put_text-Holds, put_hex-Holds, put_list-Holds,
}

-- The items of the three lists: a byte sent, a byte received if it completed, the time of a byte
-- that was attempted.
abbrev pub sent : List WireByte → ℕ → List ℕ
sent frame i = hex (get_or frame i zero_wire).out

abbrev pub received : List WireByte → ℕ → ℕ → List ℕ
received frame completed i =
    if ltb i completed then hex (get_or frame i zero_wire).in_byte else absent_in

abbrev pub took : List WireByte → ℕ → ℕ → List ℕ
took frame completed i =
    if leb i completed then dec (get_or frame i zero_wire).elapsed_us else absent_us

-- The line up to the number of bytes, the number completed, the bytes sent, the bytes received.
module _ (frame : List WireByte) (completed : ℕ) where
  abbrev pub n_part : List ℕ
  n_part = version_text ++ length_text ++ dec (length frame)

  abbrev pub k_part : List ℕ
  k_part = n_part ++ completed_text ++ dec completed

  abbrev pub out_part : List ℕ
  out_part = k_part ++ out_text ++ listed (sent frame) (length frame) 0

  abbrev pub in_part : List ℕ
  in_part = out_part ++ in_text ++ listed (received frame completed) (length frame) 0

  -- `T1 n=… k=… out=…,… in=…,… us=…,…`, however long.
  abbrev pub trace_line : List ℕ
  trace_line = in_part ++ elapsed_text ++ listed (took frame completed) (length frame) 0

module _ (k : ℕ) (frame : List WireByte) (completed : ℕ) where
  put_out-Holds :
      (i : ℕ) (w : LineWriter) (whole : List ℕ)
      → Holds k w whole
      → Holds k (put_out frame i w) (whole ++ sent frame i)
  unfolding put_out
  put_out-Holds i w whole h = put_hex-Holds k (get_or frame i zero_wire).out w whole h

  put_in-Holds :
      (i : ℕ) (w : LineWriter) (whole : List ℕ)
      → Holds k w whole
      → Holds k (put_in frame completed i w) (whole ++ received frame completed i)
  unfolding put_in
  put_in-Holds i w whole h = elim (Bool-cases (ltb i completed)) [
    | inl e ↦ rw e (put_hex-Holds k (get_or frame i zero_wire).in_byte w whole h)
    | inr e ↦ rw e (put_text-Holds k absent_in w whole h)
  ]

  put_elapsed-Holds :
      (i : ℕ) (w : LineWriter) (whole : List ℕ)
      → Holds k w whole
      → Holds k (put_elapsed frame completed i w) (whole ++ took frame completed i)
  unfolding put_elapsed
  put_elapsed-Holds i w whole h = elim (Bool-cases (leb i completed)) [
    | inl e ↦ rw e (put_dec-Holds k (get_or frame i zero_wire).elapsed_us w whole h)
    | inr e ↦ rw e (put_text-Holds k absent_us w whole h)
  ]

  start : LineWriter
  start = record { capacity = k; text = []; is_overflow = false }

  n_writer : LineWriter
  n_writer = put_dec (length frame) (put_text length_text (put_text version_text start))

  k_writer : LineWriter
  k_writer = put_dec completed (put_text completed_text n_writer)

  out_writer : LineWriter
  out_writer = put_list (put_out frame) (length frame) 0 (put_text out_text k_writer)

  in_writer : LineWriter
  in_writer = put_list (put_in frame completed) (length frame) 0 (put_text in_text out_writer)

  line_writer : LineWriter
  line_writer =
      put_list (put_elapsed frame completed) (length frame) 0 (put_text elapsed_text in_writer)

  n_writer-Holds : Holds k n_writer (n_part frame completed)
  unfolding n_writer start
  n_writer-Holds =
      put_dec-Holds k (length frame) (put_text length_text (put_text version_text start))
        (version_text ++ length_text)
        (put_text-Holds k length_text (put_text version_text start) version_text
          (put_text-Holds k version_text start [] (refl, inl (omega arith, refl, refl))))

  k_writer-Holds : Holds k k_writer (k_part frame completed)
  unfolding k_writer
  k_writer-Holds =
      put_dec-Holds k completed (put_text completed_text n_writer)
        (n_part frame completed ++ completed_text)
        (put_text-Holds k completed_text n_writer (n_part frame completed) n_writer-Holds)

  out_writer-Holds : Holds k out_writer (out_part frame completed)
  unfolding out_writer
  out_writer-Holds =
      put_list-Holds k (put_out frame) (sent frame) put_out-Holds (length frame) 0
        (put_text out_text k_writer) (k_part frame completed ++ out_text)
        (put_text-Holds k out_text k_writer (k_part frame completed) k_writer-Holds)

  in_writer-Holds : Holds k in_writer (in_part frame completed)
  unfolding in_writer
  in_writer-Holds =
      put_list-Holds k (put_in frame completed) (received frame completed) put_in-Holds
        (length frame) 0 (put_text in_text out_writer) (out_part frame completed ++ in_text)
        (put_text-Holds k in_text out_writer (out_part frame completed) out_writer-Holds)

  line_writer-Holds : Holds k line_writer (trace_line frame completed)
  unfolding line_writer
  line_writer-Holds =
      put_list-Holds k (put_elapsed frame completed) (took frame completed) put_elapsed-Holds
        (length frame) 0 (put_text elapsed_text in_writer) (in_part frame completed ++ elapsed_text)
        (put_text-Holds k elapsed_text in_writer (in_part frame completed) in_writer-Holds)

written-Holds :
    (k : ℕ) (w : LineWriter) (whole : List ℕ)
    → Holds k w whole
    → written w ≡ (if leb (length whole) k then whole else [])
written-Holds k w whole (c, h) = ground arith

-- A frame that is empty, or of which more bytes completed than it has, has no line. Every other
-- frame's line is written whole if it fits the buffer, and otherwise nothing is returned: neither
-- is a line cut short, nor is the buffer overrun.
pub format_trace_line-trace_line :
    (frame : List WireByte) (completed capacity : ℕ)
    → format_trace_line frame completed capacity ≡ (
        if length frame == 0 || ltb (length frame) completed
        then []
        else if leb (length (trace_line frame completed)) capacity
        then trace_line frame completed
        else [])
unfolding format_trace_line line_writer in_writer out_writer k_writer n_writer start
format_trace_line-trace_line frame completed capacity =
    elim (Bool-cases (length frame == 0 || ltb (length frame) completed)) [
      | inl e ↦ rw e refl
      | inr e ↦ rw e (
          written-Holds capacity (line_writer capacity frame completed) (trace_line frame completed)
            (line_writer-Holds capacity frame completed))
    ]
