-- ===== src/Negotiation/Streaming.antt =====
-- When the sequence of src/core/negotiation.cpp streams analog, and when it stops.
use pico_sg2hid.Common.{
  ℕ, ◌+◌, ◌≤◌, ◌≡◌, refl, sym, ◌∙◌, ◌≢◌, ◌⊎◌, ◌↔◌, inl, inr, some, List, [], ◌∷◌, arith, length,
  u32_max,
}
use pico_sg2hid.Protocol.{analog}
use pico_sg2hid.Frame.{DecodeStatus, Ps2Frame, DecodeOutcome, value, error}
use pico_sg2hid.Link.{LinkState, absent, analog_streaming}
use pico_sg2hid.Link.Lifecycle.{step_error, step_value}
use pico_sg2hid.Poll.{decode_poll}
use pico_sg2hid.Negotiation.{
  NegotiationStage, enter_config, set_analog, leave_config, polling, Master, Exchanged, prefix_id,
  new_master, advance,
}
use pico_sg2hid.Negotiation.Prefix.{prefix_id-decode_poll}
use pico_sg2hid.Negotiation.Sequence.{
  Agrees, IsSound, Outcome-cases, Timed, InTime, run, advance-IsSound, new_master-IsSound,
}

-- How far along the sequence a stage is.
abbrev pub rank : NegotiationStage → ℕ
rank enter_config = 0
rank set_analog = 1
rank leave_config = 2
rank polling = 3

-- The frames that a link in this state needs at least: streaming analog is one past polling.
abbrev pub progress : NegotiationStage → LinkState → ℕ
progress stage analog_streaming = 4
progress stage _ = rank stage

advance-progress :
    (m : Master) (x : Exchanged) (us : ℕ) (o : DecodeOutcome)
    → m.link.us_in_state ≤ u32_max
    → us ≤ u32_max
    → decode_poll x.wire x.completed ≡ o
    → ((f : Ps2Frame) → o ≡ value f → (5 ≤ x.completed) × (prefix_id x ≡ some f.id))
    → Agrees m.stage m.link.state
    → progress (advance m x us).0.stage (advance m x us).0.link.state
      ≤ progress m.stage m.link.state + 1
unfolding advance
advance-progress m x us (value f) hl hu eo p a =
    ground (arith, p f refl, step_value m.link f us hl hu)
advance-progress m x us (error e) hl hu eo p a = ground (arith, step_error m.link e us hl hu)

advance-progress_sound :
    (m : Master) (x : Exchanged) (us : ℕ)
    → us ≤ u32_max
    → IsSound m
    → progress (advance m x us).0.stage (advance m x us).0.link.state
      ≤ progress m.stage m.link.state + 1
advance-progress_sound m x us hu s = elim (Outcome-cases (decode_poll x.wire x.completed)) [
  | inl (f, e) ↦
      advance-progress m x us (value f) s.link_inv.fits hu e
        (λ g eg. ground (arith, prefix_id-decode_poll x.wire x.completed f e)) s.agrees
  | inr (err, e) ↦
      advance-progress m x us (error err) s.link_inv.fits hu e (λ f ef. absurd (cc)) s.agrees
]

run-progress :
    (m : Master) (xs : List Timed)
    → InTime xs
    → IsSound m
    → progress (run m xs).stage (run m xs).link.state ≤ progress m.stage m.link.state + length xs
unfolding run
run-progress m [] t s = omega arith
run-progress m ((x, us) ∷ rest) (hu, t) s = omega (
  arith,
  advance-progress_sound m x us hu s,
  run-progress (advance m x us).0 rest t (advance-IsSound m x us hu s),
)

-- The master never streams analog before it has exchanged four frames since boot: one for each of
-- the three stages of the sequence, and a poll. The times between frames are 32-bit numbers.
pub analog_streaming-needs_four :
    (xs : List Timed)
    → InTime xs
    → (run new_master xs).link.state ≡ analog_streaming
    → 4 ≤ length xs
analog_streaming-needs_four xs t h = ground (arith, run-progress new_master xs t new_master-IsSound)

id_of_value : {f g : Ps2Frame} → value f ≡ value g → f.id ≡ g.id
id_of_value e = ground arith

polled_value :
    (m : Master) (x : Exchanged) (us : ℕ) (f : Ps2Frame)
    → m.link.us_in_state ≤ u32_max
    → us ≤ u32_max
    → m.stage ≡ polling
    → decode_poll x.wire x.completed ≡ value f
    → prefix_id x ≡ some f.id
    → let after = (advance m x us).0 in
      ((f.id ≡ analog) × (after.link.state ≡ analog_streaming))
      ⊎ ((f.id ≢ analog) × (after.link.state ≡ absent) × (after.stage ≡ enter_config))
unfolding advance
polled_value m x us f hl hu hp e p = ground (arith, step_value m.link f us hl hu)

polled_error :
    (m : Master) (x : Exchanged) (us : ℕ) (e : DecodeStatus)
    → m.link.us_in_state ≤ u32_max
    → us ≤ u32_max
    → m.stage ≡ polling
    → decode_poll x.wire x.completed ≡ error e
    → let after = (advance m x us).0 in (after.link.state ≡ absent) × (after.stage ≡ enter_config)
unfolding advance
polled_error m x us e hl hu hp eo = ground (arith, step_error m.link e us hl hu)

-- While a sound master is polling, and the time since the frame before is a 32-bit number, the link
-- streams analog after a frame exactly when the frame decodes and carries
-- the analog id. After any other frame the link is absent and the sequence starts over.
pub polling-streams_iff :
    (m : Master) (x : Exchanged) (us : ℕ)
    → us ≤ u32_max
    → IsSound m
    → m.stage ≡ polling
    → let after = (advance m x us).0 in
      ((after.link.state ≡ analog_streaming)
        ↔ ((f : Ps2Frame) × (decode_poll x.wire x.completed ≡ value f) × (f.id ≡ analog)))
      × ((after.link.state ≡ analog_streaming)
          ⊎ ((after.link.state ≡ absent) × (after.stage ≡ enter_config)))
polling-streams_iff m x us hu s hp = elim (Outcome-cases (decode_poll x.wire x.completed)) [
  | inl (f, e) ↦
      elim (polled_value m x us f s.link_inv.fits hu hp e
        (prefix_id-decode_poll x.wire x.completed f e).1) [
          | inl (ei, es) ↦ ((λ _. (f, e, ei), λ _. es), inl es)
          | inr (ni, es, eg) ↦ (
            (λ s'. absurd (cc), λ (g, e', ei). absurd (ni (id_of_value (sym e ∙ e') ∙ ei))),
            inr (es, eg),
          )
        ]
  | inr (err, e) ↦
      let (es, eg) = polled_error m x us err s.link_inv.fits hu hp e in
      ((λ s'. absurd (cc), λ (g, e', ei). absurd (cc)), inr (es, eg))
]
