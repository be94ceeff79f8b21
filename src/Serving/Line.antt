-- ===== src/Serving/Line.antt =====
-- A whole line typed to the emulated guitar (src/emu/main.cpp), of any length.
use mathlib.Core.List.{append-nil, append_assoc}
use native.Mathlib.Numerals.{add-one}
use pico_sg2hid.Common.{
  ℕ, ◌+◌, ◌≤◌, ◌<◌, ◌≡◌, refl, sym, ap, ◌∙◌, ◌≢◌, inl, inr, true, Bool-cases, ltb-true, ltb-false,
  Option, none, some, List, [], ◌∷◌, ◌++◌, arith, min, ltb, if◌then◌else◌, length, set, take,
  length-append, length-take, length-set, take_short, take-append, take-set, subst,
}
use pico_sg2hid.Command.{newline, drop_return}
use pico_sg2hid.Command.Lines.{OneLine}
use pico_sg2hid.Emulator.{SgModel}
use pico_sg2hid.Emulator.Commands.{refused, line_too_long, apply}
use pico_sg2hid.Serving.{LineReader, Reply, finish_line, take_char}

-- The reader fed with characters: the reader, the model and the replies that they leave.
unfoldable pub feed : LineReader → SgModel → List ℕ → LineReader × SgModel × List Reply
feed reader m [] = (reader, m, [])
feed reader m (c ∷ cs) =
    let (reader₁, m₁, reply) = take_char c reader m in
    let (reader₂, m₂, replies) = feed reader₁ m₁ cs in
    (reader₂, m₂, elim reply [ none ↦ replies | some r ↦ r ∷ replies ])

length-drop_return : (cs : List ℕ) → length cs ≤ length (drop_return cs) + 1
unfolding drop_return
length-drop_return [] = omega arith
length-drop_return (c ∷ []) = ground arith
length-drop_return (c ∷ d ∷ cs) = omega (arith, length-drop_return (d ∷ cs))

-- A line of 66 characters or more is too long, with or without a carriage return.
apply_long : (m : SgModel) (cs : List ℕ) → 66 ≤ length cs → apply m cs ≡ refused line_too_long
unfolding apply
apply_long m cs h =
    let e : ltb 64 (length (drop_return cs)) ≡ true = ground (arith, length-drop_return cs) in
    rw e refl

-- So the buffer cuts no line that would have been accepted.
finish_line-take : (m : SgModel) (cs : List ℕ) → finish_line m (take 66 cs) ≡ finish_line m cs
unfolding finish_line
finish_line-take m cs = elim (Bool-cases (ltb 66 (length cs))) [
  | inr e ↦ rw (take_short 66 cs (ltb-false e)) refl
  | inl e ↦
      let long = ltb-true e in
      rw
        (
          apply_long m cs (omega arith),
          apply_long m (take 66 cs) (omega (arith, length-take 66 cs)),
          finish_line,
        )
        refl
]

-- The reader behind the characters `cs` of a line.
record Read (cs : List ℕ) (reader : LineReader) : Type 0 where
  size : length reader.text ≡ 66
  len_is : reader.len ≡ min (length cs) 66
  text_is : take reader.len reader.text ≡ take 66 cs

-- Between two lines.
abbrev pub IsEmpty : LineReader → Type 0
IsEmpty reader = (reader.len ≡ 0) × (length reader.text ≡ 66)

IsEmpty→Read : (reader : LineReader) → IsEmpty reader → Read [] reader
IsEmpty→Read reader (e, size) = record {
  size = size;
  len_is = omega (arith, e);
  text_is = rw e refl;
}

stored : ℕ → LineReader → LineReader
stored c reader =
    if ltb reader.len 66
    then record { text = set reader.text reader.len c; len = reader.len + 1 }
    else reader

take_char-stored :
    (c : ℕ) (reader : LineReader) (m : SgModel)
    → c ≢ newline
    → take_char c reader m ≡ (stored c reader, m, none)
unfolding take_char stored
take_char-stored c reader m h = ground arith

feed_stored :
    (c : ℕ) (rest : List ℕ) (reader : LineReader) (m : SgModel)
    → c ≢ newline
    → feed reader m (c ∷ rest) ≡ feed (stored c reader) m rest
unfolding feed
feed_stored c rest reader m h =
    ap
      (λ (r : LineReader × SgModel × Option Reply).
        let (after, m', replies) = feed r.0 r.1 rest in
        (after, m', elim r.2 [ none ↦ replies | some reply ↦ reply ∷ replies ]))
      (take_char-stored c reader m h)

stored-Read :
    (cs : List ℕ) (c : ℕ) (reader : LineReader)
    → Read cs reader
    → Read (cs ++ c ∷ []) (stored c reader)
unfolding stored
stored-Read cs c reader h =
    let more = length-append cs (c ∷ []) in
    elim (Bool-cases (ltb reader.len 66)) [
      | inl e ↦
          let less = ltb-true e in
          let room : reader.len < length reader.text = omega (arith, h.size) in
          let short : length cs < 66 = omega (arith, h.len_is) in
          rw e (record {
            size = length-set reader.text reader.len c ∙ h.size;
            len_is = omega (arith, h.len_is, more);
            text_is = rw add-one (
                take-set reader.text reader.len c room
                ∙ ap (λ t. t ++ c ∷ []) (h.text_is ∙ take_short 66 cs (omega arith))
                ∙ sym (take_short 66 (cs ++ c ∷ []) (omega (arith, more))));
          })
      | inr e ↦
          let over = ltb-false e in
          let full : 66 ≤ length cs = omega (arith, h.len_is) in
          rw e (record {
            size = h.size;
            len_is = omega (arith, h.len_is, more);
            text_is = h.text_is ∙ sym (take-append 66 cs (c ∷ []) full);
          })
    ]

feed-newline :
    (reader : LineReader) (m : SgModel)
    → let (model, reply) = finish_line m (take reader.len reader.text) in
      feed reader m (newline ∷ []) ≡ (record reader { len = 0 }, model, reply ∷ [])
unfolding feed take_char
feed-newline reader m = refl

-- What a whole line comes to.
abbrev pub Finished : SgModel → List ℕ → LineReader × SgModel × List Reply → Type 0
Finished m line (after, m', replies) =
    let (model, reply) = finish_line m line in (m' ≡ model) × (replies ≡ reply ∷ []) × IsEmpty after

feed-line :
    (rest cs : List ℕ) (reader : LineReader) (m : SgModel)
    → OneLine rest
    → Read cs reader
    → Finished m (cs ++ rest) (feed reader m (rest ++ newline ∷ []))
feed-line [] cs reader m o h =
    let e =
      ap (finish_line m) h.text_is
      ∙ finish_line-take m cs
      ∙ ap (finish_line m) (sym (append-nil cs)) in
    subst (Finished m (cs ++ [])) (sym (feed-newline reader m))
      (ap (λ r. r.0) e, ap (λ r. r.1 ∷ []) e, (refl, h.size))
feed-line (c ∷ rest) cs reader m (hc, o) h =
    subst (λ line. Finished m line (feed reader m (c ∷ rest ++ newline ∷ [])))
      (append_assoc cs (c ∷ []) rest)
      (subst (Finished m ((cs ++ c ∷ []) ++ rest))
        (sym (feed_stored c (rest ++ newline ∷ []) reader m hc))
        (feed-line rest (cs ++ c ∷ []) (stored c reader) m o (stored-Read cs c reader h)))

-- A line of any length, typed to the reader between two lines, is applied to the model as it
-- stands, and gets the reply for it: that the buffer cuts a line behind 66 characters is never
-- seen, since every line that it cuts is refused as too long either way. The reader is then between
-- two lines again.
pub feed-finish_line :
    (cs : List ℕ) (reader : LineReader) (m : SgModel)
    → OneLine cs
    → IsEmpty reader
    → Finished m cs (feed reader m (cs ++ newline ∷ []))
feed-finish_line cs reader m o h = feed-line cs [] reader m o (IsEmpty→Read reader h)
