-- ===== src/Bus/Events.antt =====
-- What the frame loop of src/hal/bus_frame.cpp does to the bus, over any port: the calls it makes,
-- in their order, and what it leaves of the frame.
use mathlib.Core.List.{append_assoc, append-nil}
use pico_sg2hid.Common.{
  ℕ, zero, suc, ◌≤◌, ◌≡◌, refl, sym, ap, ◌∙◌, Bool, true, false, inl, inr, Option-cases, List, [],
  ◌∷◌, ◌++◌, map, arith, length, drop,
}
use pico_sg2hid.Protocol.{att_setup_us, byte_gap_us}
use pico_sg2hid.Trace.{WireByte}
use pico_sg2hid.Bus.{BusPort, Exchange, exchange_frame}
use pico_sg2hid.Bus.Loop.{
  has_more, exchange_one, exchanges, exchanges_unanswered, exchanges_answered,
  exchange_frame-exchanges,
}

-- A call of the port.
pub data Event : Type 0 where
  asserted released : Event
  waited : ℕ → Event
  sent : ℕ → Bool → Event

-- A port that also notes every call, the latest last.
abbrev pub recording : {S : Type 0} → BusPort S → BusPort (S × List Event)
recording port = record {
  att_assert = λ (s, log). (port.att_assert s, log ++ asserted ∷ []);
  att_release = λ (s, log). (port.att_release s, log ++ released ∷ []);
  bus_wait_us = λ us (s, log). (port.bus_wait_us us s, log ++ waited us ∷ []);
  exchange_byte = λ out should_wait_ack (s, log).
      let (got, s') = port.exchange_byte out should_wait_ack s in
      (got, (s', log ++ sent out should_wait_ack ∷ []));
}

-- The gap before a byte, unless it is the first.
abbrev gap : Bool → List Event
gap true = []
gap false = waited byte_gap_us ∷ []

-- The calls for the bytes of a frame of which `done` complete: those, and the one that fails.
abbrev pub sends : Bool → ℕ → List WireByte → List Event
sends first done [] = []
sends first zero (w ∷ rest) = gap first ++ sent w.out (has_more rest) ∷ []
sends first (suc done) (w ∷ rest) = gap first ++ sent w.out (has_more rest) ∷ sends false done rest

abbrev outs : List WireByte → List ℕ
outs = map λ w. w.out

module _ {S : Type 0} (port : BusPort S) where
  one-log :
      (first : Bool) (w : WireByte) (rest : List WireByte) (s : S) (log : List Event)
      → (exchange_one (recording port) first w rest (s, log)).1.1
        ≡ log ++ (gap first ++ sent w.out (has_more rest) ∷ [])
  unfolding exchange_one
  one-log true w rest s log = refl
  one-log false w rest s log = append_assoc log (waited byte_gap_us ∷ []) _

  grouped :
      (first : Bool) (w : WireByte) (rest : List WireByte) (more log : List Event)
      → (log ++ (gap first ++ sent w.out (has_more rest) ∷ [])) ++ more
        ≡ log ++ (gap first ++ sent w.out (has_more rest) ∷ more)
  grouped true w rest more log = append_assoc log _ more
  grouped false w rest more log = append_assoc log _ more

  exchanges-log :
      (first : Bool) (frame : List WireByte) (s : S) (log : List Event)
      → let after = exchanges (recording port) first frame (s, log) in
        after.port.1 ≡ log ++ sends first after.done frame
  exchanges-log first [] s log = unfold exchanges in sym (append-nil log)
  exchanges-log first (w ∷ rest) s log =
      let got = exchange_one (recording port) first w rest (s, log) in
      elim (Option-cases got.0.in_byte) [
        | inl e ↦
            rw (exchanges_unanswered (recording port) first w rest (s, log) got refl e)
              (one-log first w rest s log)
        | inr (byte, e) ↦
            rw (exchanges_answered (recording port) first w rest (s, log) got byte refl e) (
              let more = sends false (exchanges (recording port) false rest got.1).done rest in
              exchanges-log false rest got.1.0 got.1.1
              ∙ ap (λ l. l ++ more) (one-log first w rest s log)
              ∙ grouped first w rest more log)
      ]

  -- Over any port, one exchange of a frame asserts ATT and waits the setup time, then sends the
  -- bytes in order, each but the first after the gap and each but the last waiting for ACK, stops
  -- behind the first byte that does not complete, and releases ATT as its last call.
  pub exchange_frame-calls :
      (frame : List WireByte) (s : S)
      → let after = exchange_frame (recording port) frame (s, []) in
        after.port.1 ≡ asserted ∷ waited att_setup_us ∷ sends true after.done frame ++ released ∷ []
  exchange_frame-calls frame s = rw (exchange_frame-exchanges (recording port) frame (s, [])) (
      rw (
        exchanges-log true frame (port.bus_wait_us att_setup_us (port.att_assert s))
          (asserted ∷ waited att_setup_us ∷ [])))

  pub exchange_frame-log :
      (frame : List WireByte) (s : S) (log : List Event)
      → let after = exchange_frame (recording port) frame (s, log) in
        after.port.1
        ≡ log ++ (asserted ∷ waited att_setup_us ∷ sends true after.done frame ++ released ∷ [])
  exchange_frame-log frame s log =
      let selected = port.bus_wait_us att_setup_us (port.att_assert s) in
      rw (exchange_frame-exchanges (recording port) frame (s, log)) (
        rw (exchanges-log true frame selected ((log ++ asserted ∷ []) ++ waited att_setup_us ∷ []))
          (simp append_assoc))

  -- What a frame keeps: the bytes to send, its length, and every byte behind the one that failed.
  abbrev pub Keeps : List WireByte → Exchange S → Type 0
  Keeps frame after =
      (outs after.frame ≡ outs frame)
      × (after.done ≤ length frame)
      × (drop (suc after.done) after.frame ≡ drop (suc after.done) frame)

  exchanges-Keeps :
      (first : Bool) (frame : List WireByte) (s : S) → Keeps frame (exchanges port first frame s)
  exchanges-Keeps first [] s = unfold exchanges in (refl, omega arith, refl)
  exchanges-Keeps first (w ∷ rest) s =
      let got = exchange_one port first w rest s in
      elim (Option-cases got.0.in_byte) [
        | inl e ↦ rw (exchanges_unanswered port first w rest s got refl e) (refl, omega arith, refl)
        | inr (byte, e) ↦
            let (ko, kd, kr) = exchanges-Keeps false rest got.1 in
            rw (exchanges_answered port first w rest s got byte refl e)
              (ap (◌∷◌ w.out) ko, omega arith, kr)
      ]

  -- An exchange leaves the bytes to send as they are, completes at most the whole frame, and does
  -- not touch the record of a byte it never sent.
  pub exchange_frame-Keeps :
      (frame : List WireByte) (s : S) → Keeps frame (exchange_frame port frame s)
  exchange_frame-Keeps frame s =
      rw (exchange_frame-exchanges port frame s) (exchanges-Keeps true frame _)
