-- ===== src/Frame/Refusals.antt =====
-- Which bytes `decode` of src/core/ps2_frame.cpp refuses, and as what.
use pico_sg2hid.Common.{
  ℕ, ◌+◌, ◌≤◌, ◌<◌, ◌≡◌, ◌≢◌, ◌↔◌, refl, sym, subst, inl, inr, List, [], ◌∷◌, arith, ltb, ltb-true,
  ltb-false, Bool-cases, Option-cases, ◌==◌, ==_iff, length,
}
use pico_sg2hid.Protocol.{ControllerId, ready_byte, frame_len, id_byte, id_from_byte}
use pico_sg2hid.Frame.{DecodeStatus, error, decode, ack_timeout, unknown_id, not_ready}
use pico_sg2hid.Frame.Decode.{
  id_from_byte_iff, decode_whole, decode_cut_short, decode_not_ready, decode_unknown_id,
}

-- The reasons for a refusal, by the bytes alone: they end before the ready byte; they begin with no
-- declared id; they are fewer than their id announces; they are enough, and have another byte in the
-- ready slot.
pub data Refused : List ℕ → DecodeStatus → Type 0 where
  no_prefix : (bytes : List ℕ) → length bytes < 2 → Refused bytes ack_timeout
  undeclared :
      (h r : ℕ) (p : List ℕ)
      → ((id : ControllerId) → h ≢ id_byte id)
      → Refused (h ∷ r ∷ p) unknown_id
  cut_short :
      (id : ControllerId) (r : ℕ) (p : List ℕ)
      → length p + 2 < frame_len id
      → Refused (id_byte id ∷ r ∷ p) ack_timeout
  unready :
      (id : ControllerId) (r : ℕ) (p : List ℕ)
      → frame_len id ≤ length p + 2
      → r ≢ ready_byte
      → Refused (id_byte id ∷ r ∷ p) not_ready

decode_no_prefix : (bytes : List ℕ) → length bytes < 2 → decode bytes ≡ error ack_timeout
unfolding decode
decode_no_prefix [] h = refl
decode_no_prefix (b ∷ []) h = refl
decode_no_prefix (b ∷ c ∷ bytes) h = absurd (omega arith)

Refused-decode : {bytes : List ℕ} {e : DecodeStatus} → Refused bytes e → decode bytes ≡ error e
Refused-decode (no_prefix bytes h) = decode_no_prefix bytes h
Refused-decode (undeclared h r p none_id) = decode_unknown_id h r p none_id
Refused-decode (cut_short id r p h) = decode_cut_short id (r ∷ p) (omega arith)
Refused-decode (unready id r p n e) = decode_not_ready id r p n e

-- A refusal has one reason.
Refused-same :
    {bytes : List ℕ} {e reason : DecodeStatus}
    → decode bytes ≡ error e
    → Refused bytes reason
    → Refused bytes e
Refused-same {bytes} h r = let e = Refused-decode r in subst (Refused bytes) (cc) r

decode-Refused : (bytes : List ℕ) (e : DecodeStatus) → decode bytes ≡ error e → Refused bytes e
decode-Refused [] e h = Refused-same h (no_prefix [] (omega arith))
decode-Refused (b ∷ []) e h = Refused-same h (no_prefix (b ∷ []) (omega arith))
decode-Refused (h ∷ r ∷ p) e refused = elim (Option-cases (id_from_byte h)) [
  | inl n ↦
      Refused-same refused
        (undeclared h r p (λ id is_id. absurd (ground (arith, (id_from_byte_iff h id).1 is_id))))
  | inr (id, some_id) ↦
      let is_id = (id_from_byte_iff h id).0 some_id in
      elim (Bool-cases (ltb (length p + 2) (frame_len id))) [
        | inl short ↦ Refused-same refused (
            subst (λ first. Refused (first ∷ r ∷ p) ack_timeout) (sym is_id)
              (cut_short id r p (ltb-true short)))
        | inr long ↦ elim (Bool-cases (r == ready_byte)) [
          | inr other ↦ Refused-same refused (
              subst (λ first. Refused (first ∷ r ∷ p) not_ready) (sym is_id)
                (unready id r p (ltb-false long) (λ same. absurd (ground arith))))
          | inl ready ↦ absurd (
              decode_whole id h p e some_id (ltb-false long)
                (rw ((==_iff r ready_byte).0 ready) at refused))
        ]
      ]
]

-- `decode` refuses bytes exactly for four reasons, each with its status: as the abort if they end
-- before the ready byte, or if their id is declared and they are fewer than it announces; as an
-- unknown id if there are two or more and the first is no declared id; as not ready if the id is
-- declared, they are enough, and another byte stands in the ready slot.
pub decode-error_iff :
    (bytes : List ℕ) (e : DecodeStatus) → (decode bytes ≡ error e) ↔ Refused bytes e
decode-error_iff bytes e = (decode-Refused bytes e, λ r. Refused-decode r)
