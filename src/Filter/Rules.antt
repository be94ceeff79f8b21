-- ===== src/Filter/Rules.antt =====
-- The rules in the comment of src/core/trace_filter.h, and what `is_trace_due` of
-- src/core/trace_filter.cpp finds behind `note_printed`.
use native.Mathlib.Numerals.{add-one}
use pico_sg2hid.Common.{
  ℕ, zero, suc, ◌+◌, ◌-◌, ◌≤◌, ◌<◌, ◌≡◌, refl, sym, ap, ◌∙◌, Bool, true, false, not, ◌&&◌, ◌||◌,
  List, [], ◌∷◌, map, arith, ltb, leb, ◌==◌, u32_sub, length, get_or, take, drop, list_eq,
  list_eq_refl, Bool-cases, inl, inr,
}
use pico_sg2hid.Link.{state_eq}
use pico_sg2hid.Trace.{WireByte, zero_wire}
use pico_sg2hid.Filter.{
  TracedFrame, TraceFilter, trace_gap_us, max_traced_len, out_differs, in_differs, is_out_changed,
  is_in_changed, is_trace_due, note_printed,
}
use pico_sg2hid.Filter.Noted.{Noted, noted-Noted, noted-SameHead}
use pico_sg2hid.Common.{list_eq_iff}

abbrev pub outs : List WireByte → List ℕ
outs = map λ w. w.out

abbrev pub ins : List WireByte → List ℕ
ins = map λ w. w.in_byte

drop_at :
    (wire : List WireByte) (i : ℕ)
    → i < length wire
    → drop i wire ≡ get_or wire i zero_wire ∷ drop (suc i) wire
drop_at [] i h = absurd (omega arith)
drop_at (w ∷ wire) zero h = refl
drop_at (w ∷ wire) (suc i) h = drop_at wire i (omega arith)

drop_step :
    (wire : List WireByte) (i : ℕ)
    → i < length wire
    → drop i wire ≡ get_or wire i zero_wire ∷ drop (i + 1) wire
drop_step wire i h =
    drop_at wire i h ∙ ap (λ k. get_or wire i zero_wire ∷ drop k wire) (sym (add-one i))

drop_end : (wire : List WireByte) (i : ℕ) → length wire ≤ i → drop i wire ≡ []
drop_end [] zero h = refl
drop_end [] (suc i) h = refl
drop_end (w ∷ wire) zero h = absurd (omega arith)
drop_end (w ∷ wire) (suc i) h = drop_end wire i (omega arith)

module _ (last frame : TracedFrame) (filter : TraceFilter)
    (same_len : length frame.wire ≡ length last.wire)
    (h : Noted last (length last.wire) filter) where
  out_differs_lem :
      (n i : ℕ)
      → i + n ≡ length last.wire
      → out_differs n i filter frame
        ≡ not (list_eq (outs (drop i frame.wire)) (outs (drop i last.wire)))
  unfolding out_differs
  out_differs_lem zero i e =
      rw (drop_end frame.wire i (omega arith), drop_end last.wire i (omega arith)) refl
  out_differs_lem (suc n) i e =
      rw
        (
          drop_step frame.wire i (omega arith),
          drop_step last.wire i (omega arith),
          out_differs_lem n (i + 1) (omega arith),
          h.out_is i (omega arith),
        )
        (ground arith)

  in_differs_lem :
      (n i : ℕ)
      → i + n ≡ length last.wire
      → filter.completed ≡ last.completed
      → in_differs n i filter frame
        ≡ not (
            list_eq
              (take (last.completed - i) (ins (drop i frame.wire)))
              (take (last.completed - i) (ins (drop i last.wire))))
  unfolding in_differs
  in_differs_lem zero i e ec =
      rw (drop_end frame.wire i (omega arith), drop_end last.wire i (omega arith))
        (sym (ap not (list_eq_refl (take (last.completed - i) []))))
  in_differs_lem (suc n) i e ec = elim (Bool-cases (ltb i last.completed)) [
    | inl lt ↦
        let ek : last.completed - i ≡ suc (last.completed - (i + 1)) = ground arith in
        rw (drop_step frame.wire i (omega arith), drop_step last.wire i (omega arith), ek)
          (ground (arith, in_differs_lem n (i + 1) (omega arith) ec, h.in_is i))
    | inr ge ↦ let ek : last.completed - i ≡ 0 = ground arith in rw (ek, ec, ge) refl
  ]

length-outs : (wire : List WireByte) → length (outs wire) ≡ length wire
length-outs [] = refl
length-outs (w ∷ wire) = ap suc (length-outs wire)

outs-length : (a b : List WireByte) → list_eq (outs a) (outs b) ≡ true → length a ≡ length b
outs-length a b e =
    sym (length-outs a) ∙ ap length ((list_eq_iff (outs a) (outs b)).0 e) ∙ length-outs b

-- Whether the frame says something in its answer that the last one did not.
abbrev pub says_new : TracedFrame → TracedFrame → Bool
says_new frame last = not (
    frame.completed == last.completed
    && list_eq (take last.completed (ins frame.wire)) (take last.completed (ins last.wire)))

due_by_rules :
    (last frame : TracedFrame) (f : TraceFilter) (at_us now_us : ℕ)
    → length last.wire ≤ 9
    → Noted last (length last.wire) f
    → f.len ≡ length last.wire
    → f.completed ≡ last.completed
    → f.state ≡ last.state
    → f.printed_at_us ≡ at_us
    → f.has_printed ≡ true
    → is_trace_due f frame now_us ≡ (
        not (list_eq (outs frame.wire) (outs last.wire))
        || not (state_eq frame.state last.state)
        || (says_new frame last && leb trace_gap_us (u32_sub now_us at_us)))
unfolding is_trace_due is_out_changed is_in_changed
due_by_rules last frame f at_us now_us fits h len_is completed_is state_is at_is printed =
    elim (Bool-cases (length frame.wire == length last.wire)) [
      | inl e ↦
          let same : length frame.wire ≡ length last.wire = ground arith in
          let whole : last.completed - 0 ≡ last.completed = omega arith in
          let od = out_differs_lem last frame f same h f.len 0 (omega arith) in
          let id =
            rw whole at (in_differs_lem last frame f same h f.len 0 (omega arith) completed_is) in
          ground (arith, od, id)
      | inr ne ↦
          let differ : list_eq (outs frame.wire) (outs last.wire) ≡ false =
            ground (arith, outs-length frame.wire last.wire) in
          ground arith
    ]

-- Behind the print of a frame that the filter can hold, a frame is due exactly by the rules: the
-- bytes sent or their count differ, or the link's state differs, or the number of the completed
-- bytes or one of the bytes received differs and the gap since the print has passed.
pub is_trace_due-note_printed :
    (filter : TraceFilter) (last frame : TracedFrame) (at_us now_us : ℕ)
    → length last.wire ≤ max_traced_len
    → is_trace_due (note_printed filter last at_us) frame now_us ≡ (
        not (list_eq (outs frame.wire) (outs last.wire))
        || not (state_eq frame.state last.state)
        || (says_new frame last && leb trace_gap_us (u32_sub now_us at_us)))
is_trace_due-note_printed filter last frame at_us now_us fits =
    let k = noted-SameHead filter last at_us fits in
    due_by_rules last frame (note_printed filter last at_us) at_us now_us fits
      (noted-Noted filter last at_us fits) k.len_is k.completed_is k.state_is k.printed_at_is
      k.has_printed_is
