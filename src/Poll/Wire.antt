-- ===== src/Poll/Wire.antt =====
-- The answer bytes that `decode_poll` (src/core/poll.cpp) hands to `decode`.
use mathlib.Core.List.{append-nil, append_assoc}
use native.Mathlib.Numerals.{add-one}
use pico_sg2hid.Common.{
  ℕ, zero, suc, ◌+◌, ◌-◌, ◌≤◌, ◌<◌, ◌≡◌, refl, sym, ap, ◌∙◌, List, [], ◌∷◌, ◌++◌, map, arith, min,
  length, get_or, set, take, drop, take-nil, take-set, replicate, length-set,
}
use pico_sg2hid.Frame.{decode}
use pico_sg2hid.Trace.{WireByte, zero_wire}
use pico_sg2hid.Poll.{copy_in, decode_poll, longest_poll}

abbrev pub ins : List WireByte → List ℕ
ins = map λ w. w.in_byte

pub length-ins : (wire : List WireByte) → length (ins wire) ≡ length wire
length-ins [] = refl
length-ins (w ∷ wire) = ap suc (length-ins wire)

drop-ins :
    (wire : List WireByte) (i : ℕ)
    → i < length wire
    → drop i (ins wire) ≡ (get_or wire i zero_wire).in_byte ∷ drop (suc i) (ins wire)
drop-ins [] i h = absurd (omega arith)
drop-ins (w ∷ wire) zero h = refl
drop-ins (w ∷ wire) (suc i) h = drop-ins wire i (omega arith)

take_capped : (n : ℕ) (xs : List ℕ) → take (min n (length xs)) xs ≡ take n xs
take_capped zero xs = let e : min zero (length xs) ≡ 0 = omega arith in rw e
take_capped (suc n) [] = let e : min (suc n) (length {A = ℕ} []) ≡ 0 = omega arith in rw e
take_capped (suc n) (x ∷ xs) =
    let e : min (suc n) (length (x ∷ xs)) ≡ suc (min n (length xs)) = omega arith in
    rw e (ap (◌∷◌ x) (take_capped n xs))

copy_in_lem :
    (rounds i : ℕ) (wire : List WireByte) (bytes : List ℕ) (count : ℕ)
    → i + rounds ≤ length wire
    → count + rounds ≤ length bytes
    → let r = copy_in rounds i wire bytes count in
      take r.1 r.0 ≡ take count bytes ++ take rounds (drop i (ins wire))
unfolding copy_in
copy_in_lem zero i wire bytes count hi hc = sym (append-nil _)
copy_in_lem (suc rounds) i wire bytes count hi hc =
    let v = (get_or wire i zero_wire).in_byte in
    copy_in_lem rounds (i + 1) wire (set bytes count v) (count + 1) (omega arith)
      (omega (arith, length-set bytes count v))
    ∙ rw (add-one, add-one)
        (rw (take-set bytes count v (omega arith), drop-ins wire i (omega arith))
          (append_assoc (take count bytes) (v ∷ []) (take rounds (drop (suc i) (ins wire)))))

-- The answer's bytes that the decode sees: those behind wire byte 0, of the completed ones, and at
-- most an analog frame's.
abbrev pub answers : List WireByte → ℕ → List ℕ
answers wire completed = take (min completed longest_poll - 1) (drop 1 (ins wire))

-- `decode_poll` decodes exactly those bytes: it neither reads past `completed` nor past the wire,
-- and neither stops short.
pub decode_poll_lem :
    (wire : List WireByte) (completed : ℕ)
    → decode_poll wire completed ≡ decode (answers wire completed)
unfolding decode_poll copy_in
decode_poll_lem [] completed =
    let e : min completed 0 - 1 ≡ 0 = omega arith in
    rw e (ap decode (sym (take-nil (min completed longest_poll - 1))))
decode_poll_lem (w ∷ wire) completed = ap decode (
    copy_in_lem rounds 1 (w ∷ wire) (replicate 8 0) 0 (omega arith) (omega arith)
    ∙ rw e (take_capped (min completed longest_poll - 1) (ins wire)))
  where
    rounds : ℕ
    rounds = min completed (min (length (w ∷ wire)) longest_poll) - 1

    e : rounds ≡ min (min completed longest_poll - 1) (length (ins wire))
    e = omega (arith, length-ins wire)
