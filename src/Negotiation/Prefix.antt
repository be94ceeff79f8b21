-- ===== src/Negotiation/Prefix.antt =====
-- How the prefix that the sequence looks at (src/core/negotiation.cpp) and the decode that steps
-- the link (src/core/poll.cpp, src/core/ps2_frame.cpp) fit together.
use pico_sg2hid.Common.{
  ℕ, zero, suc, ◌-◌, ◌≤◌, ◌≡◌, sym, ap, ◌∙◌, some, List, [], ◌∷◌, arith, min, length, take, drop,
  length-take, length-append,
}
use pico_sg2hid.Protocol.{ControllerId, digital, analog, config, id_byte, ready_byte, payload_len}
use pico_sg2hid.Frame.{Ps2Frame, value}
use pico_sg2hid.Frame.Decode.{Accepts, decode-value_iff, id_from_byte_iff}
use pico_sg2hid.Trace.{WireByte}
use pico_sg2hid.Poll.{decode_poll, longest_poll}
use pico_sg2hid.Poll.Wire.{ins, answers, decode_poll_lem}
use pico_sg2hid.Negotiation.{prefix_id}

take_two : (k a b c d : ℕ) (xs ys : List ℕ) → take k (a ∷ b ∷ xs) ≡ c ∷ d ∷ ys → (a ≡ c) × (b ≡ d)
take_two zero a b c d xs ys e = absurd (cc)
take_two (suc zero) a b c d xs ys e = absurd (cc)
take_two (suc (suc k)) a b c d xs ys e = (cc, cc)

take_none : (k c d : ℕ) (ys : List ℕ) → take k [] ≡ c ∷ d ∷ ys → ⊥
take_none zero c d ys e = cc
take_none (suc k) c d ys e = cc

take_one : (k a c d : ℕ) (ys : List ℕ) → take k (a ∷ []) ≡ c ∷ d ∷ ys → ⊥
take_one zero a c d ys e = cc
take_one (suc zero) a c d ys e = cc
take_one (suc (suc k)) a c d ys e = cc

payload_len-ge : (id : ControllerId) → 2 ≤ payload_len id
payload_len-ge digital = omega arith
payload_len-ge analog = omega arith
payload_len-ge config = omega arith

payload_len-le : (id : ControllerId) → payload_len id ≤ 6
payload_len-le digital = omega arith
payload_len-le analog = omega arith
payload_len-le config = omega arith

-- An accepted frame has at least four bytes.
Accepts-length : (bytes : List ℕ) (f : Ps2Frame) → Accepts bytes f → 4 ≤ length bytes
Accepts-length bytes f ((n, z), rest, e) = omega (
  arith,
  ap length e,
  length-append (take (payload_len f.id) f.payload) rest,
  length-take (payload_len f.id) f.payload,
  payload_len-ge f.id,
  payload_len-le f.id,
)

prefix_of_answers :
    (wire : List WireByte) (completed : ℕ) (id : ControllerId) (tl : List ℕ)
    → 5 ≤ completed
    → answers wire completed ≡ id_byte id ∷ ready_byte ∷ tl
    → prefix_id (record { wire = wire; completed = completed }) ≡ some id
unfolding prefix_id
prefix_of_answers [] completed id tl h e = absurd (take_none _ _ _ tl e)
prefix_of_answers (w ∷ []) completed id tl h e = absurd (take_none _ _ _ tl e)
prefix_of_answers (w ∷ x ∷ []) completed id tl h e = absurd (take_one _ _ _ _ tl e)
prefix_of_answers (w ∷ x ∷ y ∷ rest) completed id tl h e =
    let (ex, ey) = take_two _ x.in_byte y.in_byte (id_byte id) ready_byte (ins rest) tl e in
    ground (arith, (id_from_byte_iff x.in_byte id).1 ex)

-- A frame that decodes has completed at least five wire bytes, and its id is the one the prefix
-- shows.
pub prefix_id-decode_poll :
    (wire : List WireByte) (completed : ℕ) (f : Ps2Frame)
    → decode_poll wire completed ≡ value f
    → (5 ≤ completed) × (prefix_id (record { wire = wire; completed = completed }) ≡ some f.id)
prefix_id-decode_poll wire completed f e =
    (long, prefix_of_answers wire completed f.id _ long (accepted.2))
  where
    accepted : Accepts (answers wire completed) f
    accepted = (decode-value_iff _ f).0 (sym (decode_poll_lem wire completed) ∙ e)

    long : 5 ≤ completed
    long = omega (
      arith,
      Accepts-length _ f accepted,
      length-take (min completed longest_poll - 1) (drop 1 (ins wire)),
    )
