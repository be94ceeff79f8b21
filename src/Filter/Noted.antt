-- ===== src/Filter/Noted.antt =====
-- What `note_printed` of src/core/trace_filter.cpp keeps of a frame.
use native.Mathlib.Nat.{add-zero}
use pico_sg2hid.Common.{
  ℕ, zero, suc, ◌+◌, ◌≤◌, ◌<◌, ◌≡◌, refl, sym, ◌∙◌, true, List, [], ◌∷◌, arith, ltb, ◌==◌,
  if◌then◌else◌, length, get_or, set, length-set, subst, Bool-cases, inl, inr,
}
use pico_sg2hid.Trace.{zero_wire}
use pico_sg2hid.Filter.{TracedFrame, TraceFilter, put_bytes, note_printed, new_filter}

get_or-set :
    (xs : List ℕ) (i j v : ℕ)
    → i < length xs
    → get_or (set xs i v) j 0 ≡ (if i == j then v else get_or xs j 0)
get_or-set [] i j v h = absurd (omega arith)
get_or-set (x ∷ xs) zero zero v h = refl
get_or-set (x ∷ xs) zero (suc j) v h = ground arith
get_or-set (x ∷ xs) (suc i) zero v h = ground arith
get_or-set (x ∷ xs) (suc i) (suc j) v h = ground (arith, get_or-set xs i j v)

-- What the filter holds of a frame behind `i` of its bytes.
pub record Noted (frame : TracedFrame) (i : ℕ) (filter : TraceFilter) : Type 0 where
  pub out_size : length filter.out ≡ 9
  pub in_size : length filter.in_bytes ≡ 9
  pub out_is : (j : ℕ) → j < i → get_or filter.out j 0 ≡ (get_or frame.wire j zero_wire).out
  pub in_is :
      (j : ℕ)
      → j < i
      → j < frame.completed
      → get_or filter.in_bytes j 0 ≡ (get_or frame.wire j zero_wire).in_byte

-- One byte more is noted.
put_byte : ℕ → TracedFrame → TraceFilter → TraceFilter
put_byte i frame filter =
    let byte = get_or frame.wire i zero_wire in
    let sent = record filter { out = set filter.out i byte.out } in
    if ltb i frame.completed
    then record sent { in_bytes = set sent.in_bytes i byte.in_byte }
    else sent

put_byte-Noted :
    (i : ℕ) (frame : TracedFrame) (filter : TraceFilter)
    → i < 9
    → Noted frame i filter
    → Noted frame (i + 1) (put_byte i frame filter)
unfolding put_byte
put_byte-Noted i frame filter hi h =
    let byte = get_or frame.wire i zero_wire in
    elim (Bool-cases (ltb i frame.completed)) [
      | inl e ↦ rw e (record {
        out_size = length-set filter.out i byte.out ∙ h.out_size;
        in_size = length-set filter.in_bytes i byte.in_byte ∙ h.in_size;
        out_is = λ j hj. ground (arith, get_or-set filter.out i j byte.out, h.out_size, h.out_is j);
        in_is = λ j hj hc.
            ground (arith, get_or-set filter.in_bytes i j byte.in_byte, h.in_size, h.in_is j);
      })
      | inr e ↦ rw e (record {
        out_size = length-set filter.out i byte.out ∙ h.out_size;
        in_size = h.in_size;
        out_is = λ j hj. ground (arith, get_or-set filter.out i j byte.out, h.out_size, h.out_is j);
        in_is = λ j hj hc. ground (arith, h.in_is j);
      })
    ]

-- What the bytes' loop leaves alone.
pub record SameHead (a b : TraceFilter) : Type 0 where
  pub len_is : a.len ≡ b.len
  pub completed_is : a.completed ≡ b.completed
  pub state_is : a.state ≡ b.state
  pub printed_at_is : a.printed_at_us ≡ b.printed_at_us
  pub has_printed_is : a.has_printed ≡ b.has_printed

put_byte-SameHead :
    (i : ℕ) (frame : TracedFrame) (filter : TraceFilter) → SameHead (put_byte i frame filter) filter
unfolding put_byte
put_byte-SameHead i frame filter = elim (Bool-cases (ltb i frame.completed)) [
  | inl e ↦ rw e (record {
    len_is = refl;
    completed_is = refl;
    state_is = refl;
    printed_at_is = refl;
    has_printed_is = refl;
  })
  | inr e ↦ rw e (record {
    len_is = refl;
    completed_is = refl;
    state_is = refl;
    printed_at_is = refl;
    has_printed_is = refl;
  })
]

put_bytes-put_byte :
    (n i : ℕ) (frame : TracedFrame) (filter : TraceFilter)
    → put_bytes (suc n) i frame filter ≡ put_bytes n (i + 1) frame (put_byte i frame filter)
unfolding put_bytes put_byte
put_bytes-put_byte n i frame filter = refl

put_bytes-SameHead :
    (n i : ℕ) (frame : TracedFrame) (filter : TraceFilter)
    → SameHead (put_bytes n i frame filter) filter
put_bytes-SameHead zero i frame filter =
    unfold put_bytes in
    (record {
      len_is = refl;
      completed_is = refl;
      state_is = refl;
      printed_at_is = refl;
      has_printed_is = refl;
    })
put_bytes-SameHead (suc n) i frame filter =
    let later = put_bytes-SameHead n (i + 1) frame (put_byte i frame filter) in
    let now = put_byte-SameHead i frame filter in
    rw (put_bytes-put_byte n i frame filter) (record {
      len_is = later.len_is ∙ now.len_is;
      completed_is = later.completed_is ∙ now.completed_is;
      state_is = later.state_is ∙ now.state_is;
      printed_at_is = later.printed_at_is ∙ now.printed_at_is;
      has_printed_is = later.has_printed_is ∙ now.has_printed_is;
    })

put_bytes-Noted :
    (n i : ℕ) (frame : TracedFrame) (filter : TraceFilter)
    → i + n ≤ 9
    → Noted frame i filter
    → Noted frame (i + n) (put_bytes n i frame filter)
put_bytes-Noted zero i frame filter hi h = unfold put_bytes in rw add-zero h
put_bytes-Noted (suc n) i frame filter hi h =
    let e : i + suc n ≡ i + 1 + n = omega arith in
    rw (e, put_bytes-put_byte n i frame filter)
      (put_bytes-Noted n (i + 1) frame (put_byte i frame filter) (omega arith)
        (put_byte-Noted i frame filter (omega arith) h))

-- The filter behind the print of a frame that it can hold.
module _ (filter : TraceFilter) (last : TracedFrame) (at_us : ℕ) (fits : length last.wire ≤ 9) where
  abbrev pub noted : TraceFilter
  noted = note_printed filter last at_us

  abbrev pub fresh : TraceFilter
  fresh = record new_filter {
    len = length last.wire;
    completed = last.completed;
    state = last.state;
    printed_at_us = at_us;
    has_printed = true;
  }

  noted_is : noted ≡ put_bytes (length last.wire) 0 last fresh
  unfolding note_printed
  noted_is =
      let e : (if ltb (length last.wire) 9 then length last.wire else 9) ≡ length last.wire =
        ground arith in
      rw e refl

  pub noted-Noted : Noted last (length last.wire) noted
  noted-Noted =
      let e : length last.wire ≡ 0 + length last.wire = omega arith in
      let empty : Noted last 0 fresh = record {
        out_size = refl;
        in_size = refl;
        out_is = λ j h. absurd (omega arith);
        in_is = λ j h k. absurd (omega arith);
      } in
      rw noted_is (
        subst (λ k. Noted last k (put_bytes (length last.wire) 0 last fresh)) (sym e)
          (put_bytes-Noted (length last.wire) 0 last fresh (omega arith) empty))

  pub noted-SameHead : SameHead noted fresh
  noted-SameHead = rw noted_is (put_bytes-SameHead (length last.wire) 0 last fresh)
