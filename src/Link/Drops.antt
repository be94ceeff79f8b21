-- ===== src/Link/Drops.antt =====
-- The fault that the link of src/core/link.cpp shows: that of the last poll that dropped it.
use pico_sg2hid.Common.{
  ℕ, ◌+◌, ◌≤◌, ◌<◌, ◌≡◌, ◌≢◌, ◌⊎◌, ◌∙◌, refl, ap, inl, inr, List, [], ◌∷◌, ◌++◌, arith, u32_max,
}
use pico_sg2hid.Protocol.{ControllerId, digital, analog, config}
use pico_sg2hid.Frame.{DecodeStatus, Ps2Frame, DecodeOutcome, value, error}
use pico_sg2hid.Link.{
  LinkState, FaultCause, Link, absent, negotiation_timeout_us, state_for, fault_for, step,
}
use pico_sg2hid.Link.Lifecycle.{Inv, step-Inv, step_error, step_value}
use pico_sg2hid.Link.Runs.{Poll, run}

-- Each time fits 32 bits.
abbrev pub InClock : List Poll → Type 0
InClock [] = Unit {0}
InClock ((outcome, us) ∷ polls) = (us ≤ u32_max) × InClock polls

-- No poll drops the link.
abbrev pub Up : Link → List Poll → Type 0
Up link [] = Unit {0}
Up link ((outcome, us) ∷ polls) =
    ((step link outcome us).state ≢ absent) × Up (step link outcome us) polls

-- The poll drops the link with this fault: its frame was refused for it, or config mode lasted past
-- the timeout.
abbrev pub Drops : Link → Poll → FaultCause → Type 0
Drops link (outcome, us) fault =
    ((e : DecodeStatus) × (outcome ≡ error e) × (fault ≡ fault_for e))
    ⊎ ((frame : Ps2Frame) × (outcome ≡ value frame)
        × (frame.id ≡ config)
        × (link.state ≡ LinkState.negotiating)
        × (negotiation_timeout_us < link.us_in_state + us)
        × (fault ≡ FaultCause.negotiating))

state_for-up : (id : ControllerId) → state_for id ≢ absent
state_for-up digital e = ground arith
state_for-up analog e = ground arith
state_for-up config e = ground arith

-- One poll drops the link or leaves it up, with its fault as it was.
step-Drops :
    (link : Link) (outcome : DecodeOutcome) (us : ℕ)
    → Inv link
    → us ≤ u32_max
    → (((step link outcome us).state ≢ absent)
        × ((step link outcome us).last_fault ≡ link.last_fault))
      ⊎ Drops link (outcome, us) (step link outcome us).last_fault
step-Drops link (error e) us v h =
    let (_, names, _) = step_error link e us v.fits h in inr (inl (e, refl, names))
step-Drops link (value frame) us v h = elim (step_value link frame us v.fits h) [
  | inl (is_up, same) ↦ inl (rw is_up (state_for-up frame.id), same)
  | inr (here, is_config, over, _, names) ↦ inr (inr (frame, refl, is_config, here, over, names))
]

-- Whatever the polls of a run decode to, each in a 32-bit time and from a link within its bounds:
-- either none of them drops the link and the fault is as before the run, or the fault is that of a
-- poll of the run that dropped the link, behind which no poll did.
pub run-last_fault :
    (link : Link) (polls : List Poll)
    → Inv link
    → InClock polls
    → (Up link polls × ((run link polls).last_fault ≡ link.last_fault))
      ⊎ ((before : List Poll) × (last : Poll) × (after : List Poll) × (polls
            ≡ before ++ last ∷ after)
          × Drops (run link before) last (run link polls).last_fault
          × Up (run link (before ++ last ∷ [])) after)
unfolding run
run-last_fault link [] v h = inl (tt, refl)
run-last_fault link ((outcome, us) ∷ polls) v (hu, h) =
    let v' = step-Inv link outcome us hu v in
    elim (run-last_fault (step link outcome us) polls v' h) [
      | inr (before, last, after, e, drops, up) ↦
          inr ((outcome, us) ∷ before, last, after, ap (λ ps. (outcome, us) ∷ ps) e, drops, up)
      | inl (up, same) ↦ elim (step-Drops link outcome us v hu) [
        | inl (here, kept) ↦ inl ((here, up), same ∙ kept)
        | inr drops ↦ inr ([], (outcome, us), polls, refl, rw same drops, up)
      ]
    ]
