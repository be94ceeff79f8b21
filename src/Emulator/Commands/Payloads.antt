-- ===== src/Emulator/Commands/Payloads.antt =====
-- The line that sets the payload, over every payload (src/emu/sg_model.cpp).
use pico_sg2hid.Common.{
  ℕ, ◌<◌, ◌≡◌, ◌∙◌, refl, ap, Bool, true, false, Option, none, some, List, [], ◌∷◌, ◌++◌, arith,
  ◌==◌, get_or, length, ◌/◌, ◌%◌, Option-cases, inl, inr,
}
use pico_sg2hid.Common.Bits.{passes, holds_of_byte}
use pico_sg2hid.Trace.{hex_digits}
use pico_sg2hid.Trace.Writer.{hex}
use pico_sg2hid.Host.{hex-legible}
use pico_sg2hid.Command.{is_empty, drop_return}
use pico_sg2hid.Emulator.{SgModel}
use pico_sg2hid.Emulator.Commands.{
  parsed, transform, payload_text, space, skip_spaces, word_of, behind_word, next_word, digit_of,
  read_digits, parse_number, parse_hex_byte, read_bytes, parse_payload, apply,
}
use pico_sg2hid.Emulator.Commands.Numbers.{Plain-drop_return}

-- Two hex digits are read back as the byte.
is_read_back : ℕ → Bool
is_read_back byte = elim (parse_hex_byte (hex byte)) [ none ↦ false | some value ↦ value == byte ]

all_read_back : passes is_read_back 256 ≡ true
unfolding passes is_read_back parse_hex_byte parse_number read_digits digit_of is_empty
all_read_back = refl

parse_hex_byte-hex : (byte : ℕ) → byte < 256 → parse_hex_byte (hex byte) ≡ some byte
unfolding is_read_back
parse_hex_byte-hex byte below =
    let e : is_read_back byte ≡ true = holds_of_byte is_read_back byte all_read_back below in
    elim (Option-cases (parse_hex_byte (hex byte))) [
      | inl n ↦ absurd (ground (arith, e))
      | inr (value, v) ↦ ground (arith, e)
    ]

-- Each byte in two hex digits, behind a space.
abbrev pub spaced_bytes : List ℕ → List ℕ
spaced_bytes [] = []
spaced_bytes (byte ∷ bytes) = space ∷ (hex byte ++ spaced_bytes bytes)

abbrev pub AreBytes : List ℕ → Type 0
AreBytes [] = Unit {0}
AreBytes (byte ∷ bytes) = (byte < 256) × AreBytes bytes

word_of-spaced : (bytes : List ℕ) → word_of (spaced_bytes bytes) ≡ []
unfolding word_of
word_of-spaced [] = refl
word_of-spaced (byte ∷ bytes) = refl

behind_word-spaced : (bytes : List ℕ) → behind_word (spaced_bytes bytes) ≡ spaced_bytes bytes
unfolding behind_word
behind_word-spaced [] = refl
behind_word-spaced (byte ∷ bytes) = refl

next_word-spaced :
    (byte : ℕ) (bytes : List ℕ)
    → byte < 256
    → next_word (spaced_bytes (byte ∷ bytes)) ≡ (hex byte, spaced_bytes bytes)
unfolding skip_spaces word_of behind_word
next_word-spaced byte bytes below =
    let (h, l, _) = hex-legible byte below in
    let high : (get_or hex_digits (byte / 16 % 16) 0 == space) ≡ false = ground arith in
    let low : (get_or hex_digits (byte % 16) 0 == space) ≡ false = ground arith in
    rw (high, low, high, word_of-spaced bytes, behind_word-spaced bytes) refl

read_bytes-spaced :
    (bytes : List ℕ)
    → AreBytes bytes
    → read_bytes (length bytes) (spaced_bytes bytes) ≡ some (bytes, [])
unfolding read_bytes
read_bytes-spaced [] b = refl
read_bytes-spaced (byte ∷ bytes) (b, bs) =
    ap
      (λ (word : List ℕ × List ℕ). elim (parse_hex_byte word.0) as (λ _. Option (List ℕ × List ℕ)) [
        | none ↦ none
        | some first ↦ elim (read_bytes (length bytes) word.1) as (λ _. Option (List ℕ × List ℕ)) [
          | none ↦ none
          | some (more, after) ↦ some (first ∷ more, after)
        ]
      ])
      (next_word-spaced byte bytes b)
    ∙ rw (parse_hex_byte-hex byte b, read_bytes-spaced bytes bs) refl

module _ (a b c d e f : ℕ) where
  -- `payload `, then the six bytes in two hex digits each.
  abbrev pub payload_line : List ℕ
  payload_line = payload_text ++ spaced_bytes (a ∷ b ∷ c ∷ d ∷ e ∷ f ∷ [])

  -- The line up to its last byte.
  abbrev up_to_last : List ℕ
  up_to_last = payload_text ++ (spaced_bytes (a ∷ b ∷ c ∷ d ∷ e ∷ []) ++ space ∷ [])

  module _ (fit : AreBytes (a ∷ b ∷ c ∷ d ∷ e ∷ f ∷ [])) where
    drop_return-payload : drop_return payload_line ≡ payload_line
    unfolding is_empty
    drop_return-payload =
        let (h, l, _) = hex-legible f (omega arith) in
        Plain-drop_return up_to_last (hex f) (omega arith) refl

    parse_payload-spaced :
        parse_payload (spaced_bytes (a ∷ b ∷ c ∷ d ∷ e ∷ f ∷ []))
        ≡ parsed (a ∷ b ∷ c ∷ d ∷ e ∷ f ∷ [])
    unfolding parse_payload skip_spaces word_of is_empty
    parse_payload-spaced =
        rw (parse_payload, read_bytes-spaced (a ∷ b ∷ c ∷ d ∷ e ∷ f ∷ []) fit) refl

    -- The line `payload` with six bytes sets the payload to them and changes nothing else, whatever
    -- the bytes are and whatever the model was.
    pub apply-payload :
        (m : SgModel)
        → apply m payload_line ≡ parsed (record m { payload = a ∷ b ∷ c ∷ d ∷ e ∷ f ∷ [] })
    unfolding apply parse_payload skip_spaces word_of behind_word is_empty
    apply-payload m =
        rw drop_return-payload
          (ap (transform (λ payload. record m { payload = payload })) parse_payload-spaced)
