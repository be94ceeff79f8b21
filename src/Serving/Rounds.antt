-- ===== src/Serving/Rounds.antt =====
-- A round of the emulator firmware's loop (src/emu/main.cpp): commands while ATT is high, and the frame
-- that follows, over any port on which ATT falls and rises in the end.
use mathlib.Core.List.{append_assoc}
use pico_sg2hid.Common.{
  ℕ, zero, suc, ◌≤◌, ◌<◌, ◌≡◌, refl, ap, ◌∙◌, inl, inr, true, false, Bool-cases, Option, none, some,
  Option-cases, List, [], ◌∷◌, ◌++◌, arith,
}
use pico_sg2hid.Emulator.{SgModel, reset}
use pico_sg2hid.Emulator.Frames.{serve}
use pico_sg2hid.Serving.{
  DevicePort, LineReader, Device, poll_command, drop_stray, idle_loop, round, serve_frame,
}
use pico_sg2hid.Serving.Line.{feed}
use pico_sg2hid.Serving.Calls.{
  Event, rearmed, took, looked, heard, taken, recording, after_char, Idles, selected, quiet, stray,
  typed_chars, Serves, Serves-taken,
}
use pico_sg2hid.Serving.Runs.{LetsGo, serve_loop-Served}

-- The master starts a frame in the end: however long, there is a bound on how often ATT is still
-- read high, and only such a reading comes nearer to it.
pub record ComesBack {S : Type 0} (port : DevicePort S) (idle : S → ℕ) : Type 0 where
  pub high : (s : S) → (port.att_is_high s).0 ≡ true → idle (port.att_is_high s).1 < idle s
  pub take : (s : S) → idle (port.take_byte s).1 ≤ idle s
  pub restart : (s : S) → idle (port.restart s) ≤ idle s
  pub get_char : (s : S) → idle (port.get_char s).1 ≤ idle s

-- What the characters leave is what the line reader makes of them, one after the other.
Idles-typed :
    {reader after : LineReader} {m m' : SgModel} {log : List Event}
    → Idles reader m log after m'
    → let (fed, model, _) = feed reader m (typed_chars log) in (after ≡ fed) × (m' ≡ model)
unfolding feed
Idles-typed selected = (refl, refl)
Idles-typed (quiet {c = none} i) = Idles-typed i
Idles-typed (quiet {c = some c} i) = Idles-typed i
Idles-typed (stray {c = none} i) = Idles-typed i
Idles-typed (stray {c = some c} i) = Idles-typed i

-- One turn of the inner loop, on each of its ways.
module _ {S : Type 0} (port : DevicePort S) (reader : LineReader) (m : SgModel) (s : S) where
  abbrev with_state : LineReader × SgModel → S → Device port
  with_state (reader', m') s' = record { reader = reader'; model = m'; port_state = s' }

  idle_low :
      (fuel : ℕ)
      → (port.att_is_high s).0 ≡ false
      → idle_loop port (suc fuel) (with_state (reader, m) s)
        ≡ some (with_state (reader, m) (port.att_is_high s).1)
  unfolding idle_loop
  idle_low fuel e = rw (e, idle_loop) refl

  idle_high :
      (fuel : ℕ)
      → (port.att_is_high s).0 ≡ true
      → let (c, s') = port.get_char (port.att_is_high s).1 in
        idle_loop port (suc fuel) (with_state (reader, m) s)
        ≡ idle_loop port fuel (with_state (after_char c reader m) (drop_stray port s'))
  unfolding idle_loop poll_command
  idle_high fuel hi = elim (Option-cases (port.get_char (port.att_is_high s).1).0) [
    | inl e ↦ rw (hi, e, idle_loop, poll_command) refl
    | inr (c, e) ↦ rw (hi, e, idle_loop, poll_command) refl
  ]

  stray_none : (port.take_byte s).0 ≡ none → drop_stray port s ≡ (port.take_byte s).1
  unfolding drop_stray
  stray_none e = rw (e, drop_stray) refl

  stray_byte :
      (byte : ℕ)
      → (port.take_byte s).0 ≡ some byte
      → drop_stray port s ≡ port.restart (port.take_byte s).1
  unfolding drop_stray
  stray_byte byte e = rw (e, drop_stray) refl

-- A device of the recording port.
abbrev pub at :
    {S : Type 0} (port : DevicePort S)
    → LineReader × SgModel
    → S
    → List Event
    → Device (recording port)
at port (reader, m) s log = record { reader = reader; model = m; port_state = (s, log) }

module _ {S : Type 0} (port : DevicePort S) (idle : S → ℕ) (comes_back : ComesBack port idle) where
  -- A part of the loop ends, with its calls behind the log.
  Idled :
      Option (Device (recording port))
      → List Event
      → (List Event → LineReader → SgModel → Type 0)
      → Type 0
  Idled outcome log P =
      (more : List Event) × (s' : S) × (reader : LineReader) × (m : SgModel) × (outcome
        ≡ some (at port (reader, m) s' (log ++ more)))
      × P more reader m

  -- What the next rounds of the loop, with this fuel, are known to do.
  Ends : ℕ → Type 0
  Ends fuel =
      (reader : LineReader) (m : SgModel) (s : S) (log : List Event)
      → idle s < fuel
      → Idled (idle_loop (recording port) fuel (at port (reader, m) s log)) log (Idles reader m)

  -- The rest of a turn, behind the character.
  stray-Idled :
      (fuel : ℕ) (reader : LineReader) (m : SgModel) (c : Option ℕ) (s : S) (log : List Event)
      → Ends fuel
      → idle s < fuel
      → Idled
          (idle_loop (recording port) fuel (
            with_state
              (recording port)
              reader
              m
              (s, log)
              (after_char c reader m)
              (drop_stray (recording port) (s, log))))
          log
          (λ more. Idles reader m (looked true ∷ heard c ∷ more))
  unfolding Ends Idled
  stray-Idled fuel reader m c s log ends h =
      let s₁ = (port.take_byte s).1 in
      let (reader₁, m₁) = after_char c reader m in
      let a = comes_back.take s in
      let from = λ (state : S × List Event).
        idle_loop (recording port) fuel (at port (reader₁, m₁) state.0 state.1) in
      elim (Option-cases (port.take_byte s).0) [
        | inl e ↦
            let (more, s', reader', m', o, i) =
              ends reader₁ m₁ s₁ (log ++ took none ∷ []) (omega arith) in
            (
              took none ∷ more,
              s',
              reader',
              m',
              ap from (stray_none (recording port) reader m (s, log) e)
                  ∙ ap (λ b. from (s₁, log ++ took b ∷ [])) e
                  ∙ o
                  ∙ ap (λ l. some (at port (reader', m') s' l))
                      (append_assoc log (took none ∷ []) more),
              quiet i,
            )
        | inr (byte, e) ↦
            let s₂ = port.restart s₁ in
            let b = comes_back.restart s₁ in
            let log₁ = log ++ took (some byte) ∷ [] in
            let (more, s', reader', m', o, i) =
              ends reader₁ m₁ s₂ (log₁ ++ rearmed ∷ []) (omega arith) in
            (
              took (some byte) ∷ rearmed ∷ more,
              s',
              reader',
              m',
              ap from (stray_byte (recording port) reader m (s, log) byte e)
                  ∙ ap (λ b. from (s₂, (log ++ took b ∷ []) ++ rearmed ∷ [])) e
                  ∙ o
                  ∙ ap (λ l. some (at port (reader', m') s' l))
                      (append_assoc log₁ (rearmed ∷ []) more
                        ∙ append_assoc log (took (some byte) ∷ []) (rearmed ∷ more)),
              stray i,
            )
      ]

  idle_loop-Idled : (fuel : ℕ) → Ends fuel
  unfolding Ends Idled
  idle_loop-Idled zero reader m s log h = absurd (omega arith)
  idle_loop-Idled (suc fuel) reader m s log h =
      let s₁ = (port.att_is_high s).1 in
      elim (Bool-cases (port.att_is_high s).0) [
        | inr lo ↦ (
          looked false ∷ [],
          s₁,
          reader,
          m,
          idle_low (recording port) reader m (s, log) fuel lo
              ∙ ap (λ h. some (at port (reader, m) s₁ (log ++ looked h ∷ []))) lo,
          selected,
        )
        | inl hi ↦
            let (c, s₂) = port.get_char s₁ in
            let a = comes_back.high s hi in
            let b = comes_back.get_char s₁ in
            let log₁ = log ++ looked true ∷ [] in
            let log₂ = log₁ ++ heard c ∷ [] in
            let (more, s', reader', m', o, i) =
              stray-Idled fuel reader m c s₂ log₂ (idle_loop-Idled fuel) (omega arith) in
            (
              looked true ∷ heard c ∷ more,
              s',
              reader',
              m',
              idle_high (recording port) reader m (s, log) fuel hi
                  ∙ ap
                      (λ h. idle_loop (recording port) fuel (
                        with_state (recording port) reader m (s₂, log₂) (after_char c reader m)
                          (drop_stray (recording port)
                            (s₂, (log ++ looked h ∷ []) ++ heard c ∷ []))))
                      hi
                  ∙ o
                  ∙ ap (λ l. some (at port (reader', m') s' l))
                      (append_assoc log₁ (heard c ∷ []) more
                        ∙ append_assoc log (looked true ∷ []) (heard c ∷ more)),
              i,
            )
      ]

  -- Over any port on which ATT falls and rises in the end, a round of the firmware's loop ends, with
  -- more fuel than there are readings of one level in a row. With every call of the port noted with
  -- what it gave, its calls are these and no other: the state machine is re-armed; while ATT is
  -- high, a character is asked for and then a byte, and the state machine is re-armed behind each
  -- byte; then one frame is served as `Serves` says. The reader and the model that it starts with
  -- are those that the characters make, with the finished lines applied in order, and the model that
  -- it leaves is the one that the bytes taken in it make.
  pub round-feed :
      (left : S → ℕ) (fuel : ℕ) (reader : LineReader) (m : SgModel) (s : S)
      → LetsGo port left
      → ((s : S) → idle s < fuel)
      → ((s : S) → left s < fuel)
      → (idled : List Event) × (served : List Event) × (s' : S) × (let (reader', m', _) =
            feed reader m (typed_chars idled) in
          let after = (serve (reset m') (taken served)).1 in
          (round (recording port) fuel (at port (reader, m) s [])
            ≡ some (at port (reader', after) s' ((rearmed ∷ idled) ++ served)))
          × Idles reader m idled reader' m'
          × Serves (reset m') served after)
  unfolding round serve_frame Ends Idled
  round-feed left fuel reader m s lets_go few_idle few_left =
      let s₁ = port.restart s in
      let (idled, s₂, reader', m', e, i) =
        idle_loop-Idled fuel reader m s₁ (rearmed ∷ []) (few_idle s₁) in
      let (served, s₃, after, o, sv) =
        serve_loop-Served port left lets_go fuel (reset m') s₂ (rearmed ∷ idled) (few_left s₂) in
      let (is_reader, is_model) = Idles-typed i in
      (
        idled,
        served,
        s₃,
        rw (← is_reader, ← is_model, ← Serves-taken sv) (rw (e, o, round, serve_frame) refl, i, sv),
      )
