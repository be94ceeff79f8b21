-- ===== src/Wired/Served.antt =====
-- A frame of the master (src/hal/bus_frame.cpp) over the wires and the frame that the emulator's
-- firmware serves (src/emu/main.cpp): the same bytes, the same answers.
use pico_sg2hid.Common.{
  ℕ, suc, ◌≡◌, refl, ap, inl, inr, Bool, Bool-cases, true, false, none, some, List, [], ◌∷◌, map,
  arith, min, length, take, if◌then◌else◌,
}
use pico_sg2hid.Trace.{WireByte}
use pico_sg2hid.Bus.{Exchange, exchange_frame}
use pico_sg2hid.Bus.Loop.{
  exchange_one, exchanges, exchanges_answered, exchanges_unanswered, has_more,
  exchange_frame-exchanges,
}
use pico_sg2hid.Emulator.{SgModel, ByteAnswer, reset, step, idle_byte}
use pico_sg2hid.Emulator.Frames.{serve}
use pico_sg2hid.Wired.{Guitar, wired, is_acked, wired_exchange}

-- How many bytes complete: each needs its ACK in time, but the last.
abbrev pub completing : List ByteAnswer → ℕ
completing [] = 0
completing (answer ∷ []) = 1
completing (answer ∷ next ∷ rest) = if is_acked answer then suc (completing (next ∷ rest)) else 0

abbrev pub outs_of : List WireByte → List ℕ
outs_of frame = map (λ byte. byte.out) frame

-- What an exchange of a frame with the model `m` leaves, where `next` is shifted out first: as many
-- bytes completed as `completing` says; those carry the answers, each decided on one byte earlier;
-- the model took these bytes and the one that was not answered.
abbrev pub IsServed : SgModel → ℕ → List WireByte → Exchange Guitar → Type 0
IsServed m next frame x =
    let answers = (serve m (outs_of frame)).0 in
    (x.done ≡ completing answers)
    × (map (λ byte. byte.in_byte) (take x.done x.frame)
        ≡ take x.done (next ∷ map (λ answer. answer.next) answers))
    × (x.port.0 ≡ (serve m (take (min (suc x.done) (length frame)) (outs_of frame))).1)

module _ (us : ℕ) where
  pub exchange_one-wired :
      (first : Bool) (w : WireByte) (rest : List WireByte) (guitar : Guitar)
      → exchange_one (wired us) first w rest guitar ≡ wired_exchange us w.out (has_more rest) guitar
  unfolding exchange_one
  exchange_one-wired true w rest guitar = refl
  exchange_one-wired false w rest guitar = refl

  last :
      (first : Bool) (w : WireByte) (m : SgModel) (next : ℕ)
      → IsServed m next (w ∷ []) (exchanges (wired us) first (w ∷ []) (m, next))
  unfolding exchanges serve
  last true w m next = unfold exchange_one in (refl, refl, refl)
  last false w m next = unfold exchange_one in (refl, refl, refl)

  unanswered :
      (first : Bool) (w v : WireByte) (rest : List WireByte) (m : SgModel) (next : ℕ)
      → is_acked (step m w.out).0 ≡ false
      → IsServed m next (w ∷ v ∷ rest) (exchanges (wired us) first (w ∷ v ∷ rest) (m, next))
  unfolding serve
  unanswered first w v rest m next e =
      let e_in : (wired_exchange us w.out true (m, next)).0.in_byte ≡ none = rw e refl in
      rw
        (exchanges_unanswered (wired us) first w (v ∷ rest) (m, next)
          (wired_exchange us w.out true (m, next)) (exchange_one-wired first w (v ∷ rest) (m, next))
          e_in)
        (let e_min : min 1 (suc (suc (length rest))) ≡ 1 = ground arith in
          (rw e refl, refl, rw e_min refl))

  answered :
      (first : Bool) (w v : WireByte) (rest : List WireByte) (m : SgModel) (next : ℕ)
      → is_acked (step m w.out).0 ≡ true
      → (let (answer, m') = step m w.out in
          IsServed m' answer.next
            (v ∷ rest)
            (exchanges (wired us) false (v ∷ rest) (m', answer.next)))
      → IsServed m next (w ∷ v ∷ rest) (exchanges (wired us) first (w ∷ v ∷ rest) (m, next))
  unfolding serve
  answered first w v rest m next e (ih_done, ih_in, ih_model) =
      let e_in : (wired_exchange us w.out true (m, next)).0.in_byte ≡ some next = rw e refl in
      rw
        (exchanges_answered (wired us) first w (v ∷ rest) (m, next)
          (wired_exchange us w.out true (m, next)) next
          (exchange_one-wired first w (v ∷ rest) (m, next)) e_in)
        (let done =
            (exchanges (wired us) false (v ∷ rest)
              ((step m w.out).1, (step m w.out).0.next)).done in
          let e_min : min (suc (suc done)) (suc (suc (length rest)))
              ≡ suc (min (suc done) (suc (length rest))) =
            ground arith in
          (rw e (ap suc ih_done), ap (λ bytes. next ∷ bytes) ih_in, rw e_min ih_model))

  exchanges-IsServed :
      (first : Bool) (frame : List WireByte) (m : SgModel) (next : ℕ)
      → IsServed m next frame (exchanges (wired us) first frame (m, next))
  exchanges-IsServed first [] m next = unfold exchanges serve in (refl, refl, refl)
  exchanges-IsServed first (w ∷ []) m next = last first w m next
  exchanges-IsServed first (w ∷ v ∷ rest) m next = elim (Bool-cases (is_acked (step m w.out).0)) [
    | inl e ↦
        answered first w v rest m next e
          (exchanges-IsServed false (v ∷ rest) (step m w.out).1 (step m w.out).0.next)
    | inr e ↦ unanswered first w v rest m next e
  ]

-- Over the wires a frame goes as the emulator's firmware serves it from its reset, for every frame
-- and every state of the model. The bytes complete in order as long as the model acknowledges them
-- within the master's ACK timeout, and the last one of the frame needs no ACK. The completed bytes
-- read the idle byte and then the answers in order, each one byte after the byte that decided it.
-- The model is left as the completed bytes and the one without its ACK leave it.
pub exchange_frame-IsServed :
    (us : ℕ) (frame : List WireByte) (m : SgModel) (next : ℕ)
    → IsServed (reset m) idle_byte frame (exchange_frame (wired us) frame (m, next))
exchange_frame-IsServed us frame m next =
    rw (exchange_frame-exchanges (wired us) frame (m, next))
      (exchanges-IsServed us true frame (reset m) idle_byte)
