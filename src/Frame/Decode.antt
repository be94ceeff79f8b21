-- ===== src/Frame/Decode.antt =====
-- What `decode` of src/core/ps2_frame.cpp accepts, and what it refuses.
use pico_sg2hid.Common.{
  ℕ, ◌+◌, ◌-◌, ◌≤◌, ◌<◌, ◌≡◌, refl, sym, ap, subst, ◌∙◌, ◌≢◌, ◌↔◌, inl, inr, none, some, List, [],
  ◌∷◌, ◌++◌, arith, ◌==◌, if◌then◌else◌, Option-cases, Bool-cases, ==_iff, length, take, take_all,
  drop, replicate,
}
use pico_sg2hid.Protocol.{
  ControllerId, digital, analog, config, id_byte, id_digital, ready_byte, id_from_byte, payload_len,
  frame_len,
}
use pico_sg2hid.Frame.{
  ack_timeout, unknown_id, not_ready, DecodeStatus, Ps2Frame, DecodeOutcome, value, error, decode,
  decode_body, max_payload_len,
}

-- The bytes by which a controller sends a frame: header, ready byte, the payload it announces.
abbrev pub wire_form : Ps2Frame → List ℕ
wire_form f = id_byte f.id ∷ ready_byte ∷ take (payload_len f.id) f.payload

-- Past the announced payload a frame holds zeros.
abbrev pub IsPadded : Ps2Frame → Type 0
IsPadded f =
    (length f.payload ≡ max_payload_len)
    × (drop (payload_len f.id) f.payload ≡ replicate (max_payload_len - payload_len f.id) 0)

pub id_from_byte_iff : (b : ℕ) (id : ControllerId) → (id_from_byte b ≡ some id) ↔ (b ≡ id_byte id)
id_from_byte_iff b digital = ground arith
id_from_byte_iff b analog = ground arith
id_from_byte_iff b config = ground arith

decode-two :
    (h r : ℕ) (p : List ℕ) (id : ControllerId)
    → id_from_byte h ≡ some id
    → decode (h ∷ r ∷ p) ≡ decode_body id (h ∷ r ∷ p)
unfolding decode
decode-two h r p id e = rw (e, decode) (ground arith)

decode-undeclared :
    (h r : ℕ) (p : List ℕ) → id_from_byte h ≡ none → decode (h ∷ r ∷ p) ≡ error unknown_id
unfolding decode
decode-undeclared h r p e = rw (e, decode) (ground arith)

decode_body_short :
    (id : ControllerId) (bytes : List ℕ)
    → length bytes < frame_len id
    → decode_body id bytes ≡ error ack_timeout
unfolding decode_body
decode_body_short id bytes h = ground arith

-- A frame that is long enough is judged by its ready byte.
abbrev judged : ControllerId → ℕ → List ℕ → DecodeOutcome
judged id r payload =
    if r == ready_byte then value (record { id = id; payload = payload }) else error not_ready

decode_body_two :
    (h r a b : ℕ) (rest : List ℕ)
    → decode_body digital (h ∷ r ∷ a ∷ b ∷ rest) ≡ judged digital r (a ∷ b ∷ 0 ∷ 0 ∷ 0 ∷ 0 ∷ [])
unfolding decode_body
decode_body_two h r a b rest = ground arith

decode_body_six :
    (id : ControllerId) (h r a b c d e g : ℕ) (rest : List ℕ)
    → payload_len id ≡ 6
    → decode_body id (h ∷ r ∷ a ∷ b ∷ c ∷ d ∷ e ∷ g ∷ rest)
      ≡ judged id r (a ∷ b ∷ c ∷ d ∷ e ∷ g ∷ [])
unfolding decode_body
decode_body_six digital h r a b c d e g rest n = absurd (omega arith)
decode_body_six analog h r a b c d e g rest n = ground arith
decode_body_six config h r a b c d e g rest n = ground arith

two_more : (p : List ℕ) → 2 ≤ length p → (a b : ℕ) × (rest : List ℕ) × (p ≡ a ∷ b ∷ rest)
two_more [] h = absurd (omega arith)
two_more (a ∷ []) h = absurd (omega arith)
two_more (a ∷ b ∷ rest) h = (a, b, rest, refl)

six_more :
    (p : List ℕ)
    → 6 ≤ length p
    → (a b c d e g : ℕ) × (rest : List ℕ) × (p ≡ a ∷ b ∷ c ∷ d ∷ e ∷ g ∷ rest)
six_more (a ∷ b ∷ c ∷ d ∷ e ∷ g ∷ rest) h = (a, b, c, d, e, g, rest, refl)
six_more [] h = absurd (omega arith)
six_more (a ∷ []) h = absurd (omega arith)
six_more (a ∷ b ∷ []) h = absurd (omega arith)
six_more (a ∷ b ∷ c ∷ []) h = absurd (omega arith)
six_more (a ∷ b ∷ c ∷ d ∷ []) h = absurd (omega arith)
six_more (a ∷ b ∷ c ∷ d ∷ e ∷ []) h = absurd (omega arith)

nil_of_length : (p : List ℕ) → length p ≡ 0 → p ≡ []
nil_of_length [] h = refl
nil_of_length (a ∷ p) h = absurd (omega arith)

-- What an accepting `decode` says of the bytes, and what makes it accept.
abbrev pub Accepts : List ℕ → Ps2Frame → Type 0
Accepts bytes f = IsPadded f × (rest : List ℕ) × (bytes ≡ wire_form f ++ rest)

judged-Accepts :
    (id : ControllerId) (h r : ℕ) (p payload rest : List ℕ) (f : Ps2Frame)
    → h ≡ id_byte id
    → p ≡ take (payload_len id) payload ++ rest
    → IsPadded (record { id = id; payload = payload })
    → judged id r payload ≡ value f
    → Accepts (h ∷ r ∷ p) f
judged-Accepts id h r p payload rest f eh ep pad e = elim (Bool-cases (r == ready_byte)) [
  | inl er ↦
      let ef : record { id = id; payload = payload } ≡ f = ground arith in
      subst (Accepts (h ∷ r ∷ p)) ef (pad, rest, ground (arith, ==_iff r ready_byte))
  | inr er ↦ absurd (ground arith)
]

-- A body that accepts has the whole announced payload behind the prefix.
body-long :
    (id : ControllerId) (h r : ℕ) (p : List ℕ) (f : Ps2Frame)
    → decode_body id (h ∷ r ∷ p) ≡ value f
    → payload_len id ≤ length p
unfolding decode_body
body-long id h r p f e = ground arith

body_six-Accepts :
    (id : ControllerId) (h r : ℕ) (p : List ℕ) (f : Ps2Frame)
    → payload_len id ≡ 6
    → h ≡ id_byte id
    → decode_body id (h ∷ r ∷ p) ≡ value f
    → Accepts (h ∷ r ∷ p) f
body_six-Accepts id h r p f n eh e =
    let (a, b, c, d, x, g, rest, ep) = six_more p (omega (arith, body-long id h r p f e)) in
    let payload : List ℕ = a ∷ b ∷ c ∷ d ∷ x ∷ g ∷ [] in
    judged-Accepts id h r p payload rest f eh (rw (n, ep)) (refl, rw n)
      (sym (decode_body_six id h r a b c d x g rest n) ∙ (rw ep at e))

body-Accepts :
    (id : ControllerId) (h r : ℕ) (p : List ℕ) (f : Ps2Frame)
    → h ≡ id_byte id
    → decode_body id (h ∷ r ∷ p) ≡ value f
    → Accepts (h ∷ r ∷ p) f
body-Accepts digital h r p f eh e =
    let (a, b, rest, ep) = two_more p (body-long digital h r p f e) in
    judged-Accepts digital h r p (a ∷ b ∷ 0 ∷ 0 ∷ 0 ∷ 0 ∷ []) rest f eh ep (refl, refl)
      (sym (decode_body_two h r a b rest) ∙ (rw ep at e))
body-Accepts analog h r p f eh e = body_six-Accepts analog h r p f refl eh e
body-Accepts config h r p f eh e = body_six-Accepts config h r p f refl eh e

decode-Accepts : (bytes : List ℕ) (f : Ps2Frame) → decode bytes ≡ value f → Accepts bytes f
decode-Accepts [] f e = absurd (unfold decode in ground arith)
decode-Accepts (h ∷ []) f e = absurd (unfold decode in ground arith)
decode-Accepts (h ∷ r ∷ p) f e = elim (Option-cases (id_from_byte h)) [
  | inl none_id ↦ absurd (ground (arith, decode-undeclared h r p none_id))
  | inr (id, some_id) ↦
      body-Accepts id h r p f ((id_from_byte_iff h id).0 some_id)
        (sym (decode-two h r p id some_id) ∙ e)
]

decode_six :
    (id : ControllerId) (p rest : List ℕ)
    → payload_len id ≡ 6
    → length p ≡ 6
    → decode (id_byte id ∷ ready_byte ∷ p ++ rest) ≡ value (record { id = id; payload = p })
decode_six id p rest n h =
    let (a, b, c, d, x, g, tl, ep) = six_more p (omega arith) in
    let et : tl ≡ [] = nil_of_length tl (omega (arith, ap length ep)) in
    decode-two (id_byte id) ready_byte (p ++ rest) id ((id_from_byte_iff _ id).1 refl)
    ∙ rw (ep, et) (decode_body_six id (id_byte id) ready_byte a b c d x g rest n)

decode-wire_form :
    (id : ControllerId) (p rest : List ℕ)
    → IsPadded (record { id = id; payload = p })
    → decode (wire_form (record { id = id; payload = p }) ++ rest)
      ≡ value (record { id = id; payload = p })
decode-wire_form digital (a ∷ b ∷ c ∷ tl) rest (n, z) =
    decode-two id_digital ready_byte (a ∷ b ∷ rest) digital refl
    ∙ decode_body_two id_digital ready_byte a b rest
    ∙ ap (λ q. value (record { id = digital; payload = a ∷ b ∷ q })) (sym z)
decode-wire_form digital [] rest (n, z) = absurd (omega arith)
decode-wire_form digital (a ∷ []) rest (n, z) = absurd (omega arith)
decode-wire_form digital (a ∷ b ∷ []) rest (n, z) = absurd (omega arith)
decode-wire_form analog p rest (n, z) = rw (take_all 6 p n) (decode_six analog p rest refl n)
decode-wire_form config p rest (n, z) = rw (take_all 6 p n) (decode_six config p rest refl n)

-- `decode` accepts exactly the bytes that begin with a frame: a declared id, the ready byte and
-- the whole payload that the id announces. It returns that frame, padded with zeros to six bytes,
-- and what follows the frame makes no difference.
pub decode-value_iff : (bytes : List ℕ) (f : Ps2Frame) → (decode bytes ≡ value f) ↔ Accepts bytes f
decode-value_iff bytes f =
    (decode-Accepts bytes f, λ (pad, rest, e). rw e (decode-wire_form f.id f.payload rest pad))

-- A frame with a declared id that the bus cut short is refused as the abort, wherever it was cut
-- and whatever stands at the ready byte.
pub decode_cut_short :
    (id : ControllerId) (bytes : List ℕ)
    → length bytes + 1 < frame_len id
    → decode (id_byte id ∷ bytes) ≡ error ack_timeout
decode_cut_short id [] h = unfold decode in refl
decode_cut_short id (r ∷ p) h =
    decode-two (id_byte id) r p id ((id_from_byte_iff _ id).1 refl)
    ∙ decode_body_short id (id_byte id ∷ r ∷ p) (omega arith)

-- A frame of at least the announced length, with a declared id and another byte in the ready slot,
-- is refused as not ready, whatever it carries.
pub decode_not_ready :
    (id : ControllerId) (r : ℕ) (p : List ℕ)
    → frame_len id ≤ length p + 2
    → r ≢ ready_byte
    → decode (id_byte id ∷ r ∷ p) ≡ error not_ready
decode_not_ready id r p n er =
    decode-two (id_byte id) r p id ((id_from_byte_iff _ id).1 refl)
    ∙ (unfold decode_body in ground (arith, ==_iff r ready_byte))

-- At least two bytes under a header that is no declared id are refused as such, however many.
pub decode_unknown_id :
    (h r : ℕ) (p : List ℕ)
    → ((id : ControllerId) → h ≢ id_byte id)
    → decode (h ∷ r ∷ p) ≡ error unknown_id
decode_unknown_id h r p none_id = elim (Option-cases (id_from_byte h)) [
  | inl e ↦ decode-undeclared h r p e
  | inr (id, e) ↦ absurd (none_id id ((id_from_byte_iff h id).0 e))
]

-- With a declared id, the ready byte and the announced length nothing is refused.
pub decode_whole :
    (id : ControllerId) (h : ℕ) (p : List ℕ) (e : DecodeStatus)
    → id_from_byte h ≡ some id
    → frame_len id ≤ length p + 2
    → decode (h ∷ ready_byte ∷ p) ≢ error e
unfolding decode_body
decode_whole id h p e some_id long refused =
    let body = sym (decode-two h ready_byte p id some_id) ∙ refused in ground (arith, body)
