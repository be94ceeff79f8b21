-- ===== src/Link.antt =====
-- The link's lifecycle (src/core/link.h, src/core/link.cpp): what the controller is to the master,
-- and why it last stopped being it. `step` takes the link and returns the new one; the state that
-- the source's function returns is the new link's field `state`.
pub mod Time
pub mod Lifecycle
pub mod Runs
pub mod Drops
use pico_sg2hid.Common.{ℕ, ◌+◌, ◌-◌, ◌*◌, Bool, true, false, ◌&&◌, ltb, if◌then◌else◌, u32_max}
use pico_sg2hid.Protocol.{ControllerId, digital, analog, config, poll_period_us}
use pico_sg2hid.Frame.{DecodeStatus, DecodeOutcome, value, error}

pub data LinkState : Type 0 where
  absent negotiating digital_streaming analog_streaming : LinkState

pub data FaultCause : Type 0 where
  none ack_timeout unknown_id not_ready negotiating declined : FaultCause

abbrev pub state_eq : LinkState → LinkState → Bool
state_eq absent absent = true
state_eq negotiating negotiating = true
state_eq digital_streaming digital_streaming = true
state_eq analog_streaming analog_streaming = true
state_eq _ _ = false

abbrev pub negotiation_timeout_us : ℕ
negotiation_timeout_us = 6 * poll_period_us

pub record Link : Type 0 where
  pub state : LinkState
  pub last_fault : FaultCause
  pub us_in_state : ℕ

-- `Link{}`.
abbrev pub new_link : Link
new_link = record { state = absent; last_fault = FaultCause.none; us_in_state = 0 }

unfoldable pub add_saturating : ℕ → ℕ → ℕ
add_saturating base addend = if ltb (u32_max - addend) base then u32_max else base + addend

abbrev pub state_for : ControllerId → LinkState
state_for analog = analog_streaming
state_for digital = digital_streaming
state_for config = LinkState.negotiating

-- The `switch` on the decode's error.
abbrev pub fault_for : DecodeStatus → FaultCause
fault_for DecodeStatus.ack_timeout = FaultCause.ack_timeout
fault_for DecodeStatus.unknown_id = FaultCause.unknown_id
fault_for DecodeStatus.not_ready = FaultCause.not_ready

is_stuck : Link → LinkState → ℕ → Bool
is_stuck link next elapsed_us =
    state_eq link.state LinkState.negotiating
    && state_eq next LinkState.negotiating
    && ltb negotiation_timeout_us (add_saturating link.us_in_state elapsed_us)

-- The state that one outcome leads to, and the fault that the link then records.
judge : Link → DecodeOutcome → ℕ → LinkState × FaultCause
unfolding is_stuck
judge link (error e) elapsed_us = (absent, fault_for e)
judge link (value frame) elapsed_us =
    let next = state_for frame.id in
    if is_stuck link next elapsed_us
    then (absent, FaultCause.negotiating)
    else (next, link.last_fault)

unfoldable pub step : Link → DecodeOutcome → ℕ → Link
unfolding judge
step link outcome elapsed_us =
    let (next, fault) = judge link outcome elapsed_us in
    record {
      state = next;
      last_fault = fault;
      us_in_state =
          if state_eq next link.state then add_saturating link.us_in_state elapsed_us else 0;
    }
