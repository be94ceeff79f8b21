-- ===== src/Serving/Runs.antt =====
-- A frame served to the master that is on the bus (src/emu/main.cpp), over any port on which the
-- master lets go of ATT in the end.
use mathlib.Core.List.{append-nil, append_assoc}
use pico_sg2hid.Common.{
  ℕ, zero, suc, ◌≤◌, ◌<◌, ◌≡◌, refl, subst, ap, ◌∙◌, inl, inr, Bool, true, false, Bool-cases,
  Option, none, some, Option-cases, List, [], ◌∷◌, ◌++◌, arith, ltb, ltb-true, ltb-false, u32_sub,
}
use pico_sg2hid.Emulator.{SgModel, ByteAnswer, reset, step}
use pico_sg2hid.Emulator.Frames.{serve}
use pico_sg2hid.Serving.{
  DevicePort, wait_loop, wait_unless_deselected, may_answer, serve_loop, serve_frame,
}
use pico_sg2hid.Serving.Calls.{
  Event, took, answered, looked, timed, taken, recording, Waits, over, gave_up, again, Answers,
  at_once, waited, Serves, deselected, nothing, replied, dropped, Serves-taken,
}

-- The master gives up on a frame in the end: however long, there is a bound on how often ATT is
-- still read low, and only such a reading comes nearer to it.
pub record LetsGo {S : Type 0} (port : DevicePort S) (left : S → ℕ) : Type 0 where
  pub low : (s : S) → (port.att_is_high s).0 ≡ false → left (port.att_is_high s).1 < left s
  pub take : (s : S) → left (port.take_byte s).1 ≤ left s
  pub answer :
      (s : S) (next : ℕ) (should_ack : Bool) → left (port.answer next should_ack s) ≤ left s
  pub time : (s : S) → left (port.time_us s).1 ≤ left s

-- One turn of the frame's loop, on each of its ways.
module _ {S : Type 0} (port : DevicePort S) (fuel : ℕ) (m : SgModel) (s : S) where
  serve_high :
      (port.att_is_high s).0 ≡ true
      → serve_loop port (suc fuel) m s ≡ some (m, (port.att_is_high s).1)
  unfolding serve_loop
  serve_high hi = rw (hi, serve_loop) refl

  module _ (lo : (port.att_is_high s).0 ≡ false) where
    abbrev given : Option ℕ × S
    given = port.take_byte (port.att_is_high s).1

    serve_none : given.0 ≡ none → serve_loop port (suc fuel) m s ≡ serve_loop port fuel m given.1
    unfolding serve_loop
    serve_none e = rw (lo, e, serve_loop) refl

    serve_byte :
        (byte : ℕ) (s₃ : S)
        → given.0 ≡ some byte
        → may_answer port fuel (step m byte).0 given.1 ≡ some (true, s₃)
        → serve_loop port (suc fuel) m s
          ≡ serve_loop port fuel
              (step m byte).1
              (port.answer (step m byte).0.next (step m byte).0.should_ack s₃)
    unfolding serve_loop
    serve_byte byte s₃ e w = rw (lo, e, w, serve_loop) refl

    serve_last :
        (byte : ℕ) (s₃ : S)
        → given.0 ≡ some byte
        → may_answer port fuel (step m byte).0 given.1 ≡ some (false, s₃)
        → serve_loop port (suc fuel) m s ≡ some ((step m byte).1, s₃)
    unfolding serve_loop
    serve_last byte s₃ e w = rw (lo, e, w, serve_loop) refl

-- One turn of the wait, on each of its ways.
module _ {S : Type 0} (port : DevicePort S) (fuel start delay_us : ℕ) (s : S) where
  abbrev read : ℕ × S
  read = port.time_us s

  wait_over :
      ltb (u32_sub read.0 start) delay_us ≡ false
      → wait_loop port (suc fuel) start delay_us s ≡ some (true, read.1)
  unfolding wait_loop
  wait_over e = rw (e, wait_loop) refl

  wait_high :
      ltb (u32_sub read.0 start) delay_us ≡ true
      → (port.att_is_high read.1).0 ≡ true
      → wait_loop port (suc fuel) start delay_us s ≡ some (false, (port.att_is_high read.1).1)
  unfolding wait_loop
  wait_high e hi = rw (e, hi, wait_loop) refl

  wait_low :
      ltb (u32_sub read.0 start) delay_us ≡ true
      → (port.att_is_high read.1).0 ≡ false
      → wait_loop port (suc fuel) start delay_us s
        ≡ wait_loop port fuel start delay_us (port.att_is_high read.1).1
  unfolding wait_loop
  wait_low e lo = rw (e, lo, wait_loop) refl

-- What the calls before and behind make of the log together.
joined :
    (log : List Event) (a b : Event) (more : List Event)
    → ((log ++ a ∷ []) ++ b ∷ []) ++ more ≡ log ++ a ∷ b ∷ more
joined log a b more =
    append_assoc (log ++ a ∷ []) (b ∷ []) more ∙ append_assoc log (a ∷ []) (b ∷ more)

module _ {S : Type 0} (port : DevicePort S) (left : S → ℕ) (lets_go : LetsGo port left) where
  -- A wait ends, with its calls behind the log.
  Waited : Option (Bool × (S × List Event)) → S → List Event → (List Event → Bool → Type 0) → Type 0
  Waited outcome s log P =
      (in_time : Bool) × (s' : S) × (more : List Event) × (outcome
        ≡ some (in_time, (s', log ++ more)))
      × P more in_time
      × (in_time ≡ true → left s' ≤ left s)

  wait_loop-Waited :
      (fuel start delay_us : ℕ) (s : S) (log : List Event)
      → left s < fuel
      → Waited
          (wait_loop (recording port) fuel start delay_us (s, log))
          s
          log
          (Waits delay_us start)
  unfolding Waited
  wait_loop-Waited zero start delay_us s log h = absurd (omega arith)
  wait_loop-Waited (suc fuel) start delay_us s log h =
      let (now, s₁) = port.time_us s in
      let s₂ = (port.att_is_high s₁).1 in
      let log₁ = log ++ timed now ∷ [] in
      let t = lets_go.time s in
      elim (Bool-cases (ltb (u32_sub now start) delay_us)) [
        | inr e ↦ (
          true,
          s₁,
          timed now ∷ [],
          wait_over (recording port) fuel start delay_us (s, log) e,
          over (ltb-false e),
          (λ _. t),
        )
        | inl e ↦ elim (Bool-cases (port.att_is_high s₁).0) [
          | inl hi ↦ (
            false,
            s₂,
            timed now ∷ looked true ∷ [],
            wait_high (recording port) fuel start delay_us (s, log) e hi
                ∙ ap (λ h. some (false, (s₂, log₁ ++ looked h ∷ []))) hi
                ∙ ap (λ l. some (false, (s₂, l)))
                    (append_assoc log (timed now ∷ []) (looked true ∷ [])),
            gave_up (ltb-true e),
            (λ f. absurd (ground (arith, f))),
          )
          | inr lo ↦
              let log₂ = log₁ ++ looked false ∷ [] in
              let less = lets_go.low s₁ lo in
              let (b, s', more, o, w, l) =
                wait_loop-Waited fuel start delay_us s₂ log₂ (omega arith) in
              (
                b,
                s',
                timed now ∷ looked false ∷ more,
                wait_low (recording port) fuel start delay_us (s, log) e lo
                    ∙ ap
                        (λ h.
                          wait_loop (recording port) fuel start delay_us
                            (s₂, log₁ ++ looked h ∷ []))
                        lo
                    ∙ o
                    ∙ ap (λ l. some (b, (s', l))) (joined log (timed now) (looked false) more),
                again (ltb-true e) w,
                (λ f. omega (arith, l f)),
              )
        ]
      ]

  may_answer-Waited :
      (fuel : ℕ) (answer : ByteAnswer) (s : S) (log : List Event)
      → left s < fuel
      → Waited (may_answer (recording port) fuel answer (s, log)) s log (Answers answer)
  unfolding may_answer wait_unless_deselected Waited
  may_answer-Waited fuel answer s log h = elim (Bool-cases answer.should_ack) [
    | inr e ↦ (true, s, [], rw (e, append-nil log) refl, at_once e, (λ _. omega arith))
    | inl e ↦
        let (start, s₁) = port.time_us s in
        let t = lets_go.time s in
        let (b, s', more, o, w, l) =
          wait_loop-Waited fuel start answer.ack_delay_us s₁ (log ++ timed start ∷ [])
            (omega arith) in
        (
          b,
          s',
          timed start ∷ more,
          rw e (o ∙ ap (λ l. some (b, (s', l))) (append_assoc log (timed start ∷ []) more)),
          waited e w,
          (λ f. omega (arith, l f)),
        )
  ]

  -- A frame's loop ends, with its calls behind the log.
  abbrev pub Served : Option (SgModel × (S × List Event)) → SgModel → List Event → Type 0
  Served outcome m log =
      (more : List Event) × (s' : S) × (after : SgModel) × (outcome
        ≡ some (after, (s', log ++ more)))
      × Serves m more after

  pub serve_loop-Served :
      (fuel : ℕ) (m : SgModel) (s : S) (log : List Event)
      → left s < fuel
      → Served (serve_loop (recording port) fuel m (s, log)) m log
  unfolding Waited
  serve_loop-Served zero m s log h = absurd (omega arith)
  serve_loop-Served (suc fuel) m s log h =
      let s₁ = (port.att_is_high s).1 in
      elim (Bool-cases (port.att_is_high s).0) [
        | inl hi ↦ (
          looked true ∷ [],
          s₁,
          m,
          serve_high (recording port) fuel m (s, log) hi
              ∙ ap (λ h. some (m, (s₁, log ++ looked h ∷ []))) hi,
          deselected,
        )
        | inr lo ↦
            let s₂ = (port.take_byte s₁).1 in
            let log₁ = log ++ looked false ∷ [] in
            let less = lets_go.low s lo in
            let t = lets_go.take s₁ in
            let noted = λ (h : Bool) (b : Option ℕ). (log ++ looked h ∷ []) ++ took b ∷ [] in
            elim (Option-cases (port.take_byte s₁).0) [
              | inl e ↦
                  let log₂ = log₁ ++ took none ∷ [] in
                  let (more, s', after, o, sv) = serve_loop-Served fuel m s₂ log₂ (omega arith) in
                  (
                    looked false ∷ took none ∷ more,
                    s',
                    after,
                    serve_none (recording port) fuel m (s, log) lo e
                        ∙ ap (λ l. serve_loop (recording port) fuel m (s₂, l))
                            (ap (λ h. noted h (port.take_byte s₁).0) lo ∙ ap (noted false) e)
                        ∙ o
                        ∙ ap (λ l. some (after, (s', l)))
                            (joined log (looked false) (took none) more),
                    nothing sv,
                  )
              | inr (byte, e) ↦
                  let answer = (step m byte).0 in
                  let m' = (step m byte).1 in
                  let log₂ = log₁ ++ took (some byte) ∷ [] in
                  let takes = ap (λ h. noted h (port.take_byte s₁).0) lo ∙ ap (noted false) e in
                  let (b, s₃, wait, w, a, l) =
                    may_answer-Waited fuel answer s₂ log₂ (omega arith) in
                  let log₃ = log₂ ++ wait in
                  let w' = ap (λ l. may_answer (recording port) fuel answer (s₂, l)) takes ∙ w in
                  let waits = joined log (looked false) (took (some byte)) wait in
                  elim (Bool-cases b) [
                    | inr eb ↦ (
                      looked false ∷ took (some byte) ∷ wait,
                      s₃,
                      m',
                      serve_last (recording port) fuel m (s, log) lo byte (s₃, log₃) e
                            (w' ∙ ap (λ b. some (b, (s₃, log₃))) eb)
                          ∙ ap (λ l. some (m', (s₃, l))) waits,
                      dropped (subst (Answers answer wait) eb a),
                    )
                    | inl eb ↦
                        let reply = answered answer.next answer.should_ack in
                        let s₄ = port.answer answer.next answer.should_ack s₃ in
                        let l' = l eb in
                        let la = lets_go.answer s₃ answer.next answer.should_ack in
                        let (more, s', after, o, sv) =
                          serve_loop-Served fuel m' s₄ (log₃ ++ reply ∷ []) (omega arith) in
                        (
                          looked false ∷ took (some byte) ∷ (wait ++ reply ∷ more),
                          s',
                          after,
                          serve_byte (recording port) fuel m (s, log) lo byte (s₃, log₃) e
                                (w' ∙ ap (λ b. some (b, (s₃, log₃))) eb)
                              ∙ o
                              ∙ ap (λ l. some (after, (s', l)))
                                  (append_assoc log₃ (reply ∷ []) more
                                    ∙ append_assoc log₂ wait (reply ∷ more)
                                    ∙ joined log (looked false) (took (some byte))
                                        (wait ++ reply ∷ more)),
                          replied (subst (Answers answer wait) eb a) sv,
                        )
                  ]
            ]
      ]

  -- Over any port on which the master lets go of ATT in the end, the frame ends: with one round
  -- more than the readings of ATT that are still low, the loop, its waits for an ACK included,
  -- returns. With every call of the port noted with what it gave, its calls are those of `Serves`
  -- from a new frame on, to the first reading of ATT that is high: where no byte is ready ATT is
  -- looked at again; a byte that is taken is answered as the model says, one that is to be
  -- acknowledged after its delay by the clock, and not at all where ATT is high before the delay is
  -- over. The model is the one that the bytes taken leave.
  pub serve_frame-serve :
      (fuel : ℕ) (m : SgModel) (s : S)
      → left s < fuel
      → (log : List Event) × (s' : S) × (after : SgModel) × (serve_frame
            (recording port)
            fuel
            m
            (s, [])
          ≡ some (after, (s', log)))
        × Serves (reset m) log after
        × (after ≡ (serve (reset m) (taken log)).1)
  unfolding serve_frame
  serve_frame-serve fuel m s h =
      let (log, s', after, o, sv) = serve_loop-Served fuel (reset m) s [] h in
      (log, s', after, o, sv, Serves-taken sv)
