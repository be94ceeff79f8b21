-- ===== src/Link/Lifecycle.antt =====
-- The lifecycle that `step` (src/core/link.cpp) walks, poll by poll.
use pico_sg2hid.Common.{ℕ, ◌+◌, ◌≤◌, ◌<◌, ◌≡◌, ◌≢◌, ◌⊎◌, ◌↔◌, arith, min, u32_max}
use pico_sg2hid.Protocol.{ControllerId, digital, analog, config}
use pico_sg2hid.Frame.{DecodeStatus, Ps2Frame, DecodeOutcome, value, error}
use pico_sg2hid.Link.{
  LinkState, FaultCause, Link, absent, digital_streaming, analog_streaming, negotiation_timeout_us,
  state_for, fault_for, new_link, step,
}
use pico_sg2hid.Link.Time.{add_saturating_lem}

-- What holds of a link between two polls: its clock fits 32 bits, and a link that is negotiating
-- has not been so for longer than the timeout.
pub record Inv (link : Link) : Type 0 where
  pub fits : link.us_in_state ≤ u32_max
  pub in_time : link.state ≡ LinkState.negotiating → link.us_in_state ≤ negotiation_timeout_us

pub new_link-Inv : Inv new_link
new_link-Inv = ground arith

-- Every poll keeps the link within its bounds, whatever its outcome and whatever 32-bit time it took:
-- the clock fits 32 bits, and a link that is negotiating is so for at most the timeout.
pub step-Inv :
    (link : Link) (outcome : DecodeOutcome) (elapsed_us : ℕ)
    → elapsed_us ≤ u32_max
    → Inv link
    → Inv (step link outcome elapsed_us)
unfolding step
step-Inv link (error e) us h v = ground (arith, add_saturating_lem link.us_in_state us)
step-Inv link (value frame) us h v = ground (arith, add_saturating_lem link.us_in_state us)

-- A refused frame drops the link and names the refusal, and the time counts on only if the link
-- was absent before. The times are 32-bit numbers.
pub step_error :
    (link : Link) (e : DecodeStatus) (elapsed_us : ℕ)
    → link.us_in_state ≤ u32_max
    → elapsed_us ≤ u32_max
    → let after = step link (error e) elapsed_us in
      (after.state ≡ absent)
      × (after.last_fault ≡ fault_for e)
      × (((link.state ≡ absent) × (after.us_in_state ≡ min (link.us_in_state + elapsed_us) u32_max))
          ⊎ ((link.state ≢ absent) × (after.us_in_state ≡ 0)))
unfolding step
step_error link e us hl hu = ground (arith, add_saturating_lem link.us_in_state us hl hu)

-- A good frame sets the state that its id implies and keeps the last fault; but a link that has
-- been in config mode for longer than the timeout, and is answered in config mode again, drops with
-- the fault `negotiating`. The times are 32-bit numbers.
pub step_value :
    (link : Link) (frame : Ps2Frame) (elapsed_us : ℕ)
    → link.us_in_state ≤ u32_max
    → elapsed_us ≤ u32_max
    → let after = step link (value frame) elapsed_us in
      ((after.state ≡ state_for frame.id) × (after.last_fault ≡ link.last_fault))
      ⊎ ((link.state ≡ LinkState.negotiating)
          × (frame.id ≡ config)
          × (negotiation_timeout_us < link.us_in_state + elapsed_us)
          × (after.state ≡ absent)
          × (after.last_fault ≡ FaultCause.negotiating))
unfolding step
step_value link frame us hl hu = ground (arith, add_saturating_lem link.us_in_state us hl hu)

-- A good frame of this id.
abbrev pub IsGood : ControllerId → DecodeOutcome → Type 0
IsGood id outcome = (frame : Ps2Frame) × (outcome ≡ value frame) × (frame.id ≡ id)

-- Which state a poll leads to, whatever its outcome and whatever the link was before. It streams
-- analog exactly after a good analog frame, and digital exactly after a good digital frame. It is
-- negotiating exactly after a good config frame, unless it has been so for longer than the timeout.
-- The times are 32-bit numbers.
pub step-state_iff :
    (link : Link) (outcome : DecodeOutcome) (elapsed_us : ℕ)
    → link.us_in_state ≤ u32_max
    → elapsed_us ≤ u32_max
    → let after = step link outcome elapsed_us in
      ((after.state ≡ analog_streaming) ↔ IsGood analog outcome)
      × ((after.state ≡ digital_streaming) ↔ IsGood digital outcome)
      × ((after.state ≡ LinkState.negotiating) ↔ (
          IsGood config outcome
          × ((link.state ≢ LinkState.negotiating)
              ⊎ (link.us_in_state + elapsed_us ≤ negotiation_timeout_us))))
unfolding step
step-state_iff link (error e) us hl hu =
    ground (arith, add_saturating_lem link.us_in_state us hl hu)
step-state_iff link (value frame) us hl hu =
    ground (arith, add_saturating_lem link.us_in_state us hl hu)
