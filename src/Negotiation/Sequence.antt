-- ===== src/Negotiation/Sequence.antt =====
-- The sequence that `advance` (src/core/negotiation.cpp) walks, frame by frame.
use pico_sg2hid.Common.{ℕ, ◌≤◌, ◌≡◌, refl, ◌⊎◌, inl, inr, some, List, [], ◌∷◌, arith, u32_max}
use pico_sg2hid.Frame.{DecodeStatus, Ps2Frame, DecodeOutcome, value, error}
use pico_sg2hid.Link.{LinkState, absent, negotiating, analog_streaming}
use pico_sg2hid.Link.Lifecycle.{Inv, step-Inv, step_error, step_value}
use pico_sg2hid.Poll.{decode_poll}
use pico_sg2hid.Negotiation.{
  NegotiationStage, enter_config, set_analog, leave_config, polling, Master, Exchanged, prefix_id,
  new_master, advance,
}
use pico_sg2hid.Negotiation.Prefix.{prefix_id-decode_poll}

-- The link state that goes with each stage. No stage goes with digital streaming.
abbrev pub Agrees : NegotiationStage → LinkState → Type 0
Agrees enter_config s = s ≡ absent
Agrees set_analog s = s ≡ absent
Agrees leave_config s = s ≡ negotiating
Agrees polling s = (s ≡ negotiating) ⊎ (s ≡ analog_streaming)

pub record IsSound (m : Master) : Type 0 where
  pub link_inv : Inv m.link
  pub agrees : Agrees m.stage m.link.state

abbrev outcome_of : Exchanged → DecodeOutcome
outcome_of x = decode_poll x.wire x.completed

pub Outcome-cases :
    (o : DecodeOutcome) → ((f : Ps2Frame) × (o ≡ value f)) ⊎ ((e : DecodeStatus) × (o ≡ error e))
Outcome-cases (value f) = inl (f, refl)
Outcome-cases (error e) = inr (e, refl)

-- One frame's effect on the stage and the link's state, by what the frame decodes to and the id its
-- prefix shows.
advance-Agrees :
    (m : Master) (x : Exchanged) (us : ℕ) (o : DecodeOutcome)
    → m.link.us_in_state ≤ u32_max
    → us ≤ u32_max
    → decode_poll x.wire x.completed ≡ o
    → ((f : Ps2Frame) → o ≡ value f → (5 ≤ x.completed) × (prefix_id x ≡ some f.id))
    → Agrees m.stage m.link.state
    → Agrees (advance m x us).0.stage (advance m x us).0.link.state
unfolding advance
advance-Agrees m x us (value f) hl hu eo p a =
    ground (arith, p f refl, step_value m.link f us hl hu)
advance-Agrees m x us (error e) hl hu eo p a = ground (arith, step_error m.link e us hl hu)

advance-Inv :
    (m : Master) (x : Exchanged) (us : ℕ) → us ≤ u32_max → Inv m.link → Inv (advance m x us).0.link
unfolding advance
advance-Inv m x us hu v = ground (arith, step-Inv m.link (decode_poll x.wire x.completed) us hu v)

-- Every frame, whatever the wire holds and however much of it completed, leaves a sound master
-- sound, if the time since the frame before is a 32-bit number. In a sound master the
-- link's clock keeps its bounds, the
-- link is absent while config mode is being entered and analog selected, negotiating while config
-- mode is left, negotiating or streaming analog while polling, and never streams digital.
pub advance-IsSound :
    (m : Master) (x : Exchanged) (us : ℕ) → us ≤ u32_max → IsSound m → IsSound (advance m x us).0
advance-IsSound m x us hu s = record {
  link_inv = advance-Inv m x us hu s.link_inv;
  agrees = elim (Outcome-cases (decode_poll x.wire x.completed)) [
    | inl (f, e) ↦
        advance-Agrees m x us (value f) s.link_inv.fits hu e
          (λ g eg. ground (arith, prefix_id-decode_poll x.wire x.completed f e)) s.agrees
    | inr (err, e) ↦
        advance-Agrees m x us (error err) s.link_inv.fits hu e (λ f ef. absurd (cc)) s.agrees
  ];
}

pub new_master-IsSound : IsSound new_master
new_master-IsSound = record { link_inv = ground arith; agrees = refl }

-- One exchanged frame, and the time since the one before.
abbrev pub Timed : Type 0
Timed = Exchanged × ℕ

unfoldable pub run : Master → List Timed → Master
run m [] = m
run m ((x, us) ∷ rest) = run (advance m x us).0 rest

abbrev pub InTime : List Timed → Type 0
InTime [] = Unit {0}
InTime ((x, us) ∷ rest) = (us ≤ u32_max) × InTime rest

pub run-IsSound : (m : Master) (xs : List Timed) → InTime xs → IsSound m → IsSound (run m xs)
unfolding run
run-IsSound m [] t s = s
run-IsSound m ((x, us) ∷ rest) (hu, t) s =
    run-IsSound (advance m x us).0 rest t (advance-IsSound m x us hu s)
