-- ===== src/MasterPort/Deadline.antt =====
-- The time that a frame (src/hal/bus_frame.cpp) takes over the master's port (src/hal/pio_port.cpp).
use native.Mathlib.Nat.{suc-mul}
use pico_sg2hid.Common.{
  ℕ, zero, suc, ◌+◌, ◌*◌, ◌<◌, ◌≡◌, refl, ap, ◌∙◌, inl, inr, Bool, Bool-cases, true, false,
  if◌then◌else◌, ltb, length, get_or, arith, Option, Option-cases, some, List,
}
use pico_sg2hid.Protocol.{byte_gap_us, att_setup_us}
use pico_sg2hid.Trace.{WireByte, zero_wire}
use pico_sg2hid.Bus.{attempt, put_in, put_elapsed, exchange_loop, exchange_frame}
use pico_sg2hid.Pins.{att}
use pico_sg2hid.MasterPort.{
  MasterSdk, att_assert, att_release, bus_wait_us, exchange_byte, finish_byte, recover, master_gpio,
}
use pico_sg2hid.MasterPort.Clock.{Clock, Within}
use pico_sg2hid.MasterPort.Ends.{exchange_byte-finish_byte}
use pico_sg2hid.MasterPort.Frames.{pio_port, lost_byte}

-- The calls behind a wait take no longer than those that it makes, and `busy_wait_us` no longer than
-- that beyond what it is asked to wait.
pub record Prompt {S : Type 0} (sdk : MasterSdk S) (now_ns : S → ℕ) (lag : ℕ) : Type 0 where
  pub disable_interrupts : (s : S) → Within lag (now_ns s) (now_ns (sdk.disable_interrupts s).1)
  pub restore_interrupts :
      (state : ℕ) (s : S) → Within lag (now_ns s) (now_ns (sdk.restore_interrupts state s))
  pub sm_get : (s : S) → Within lag (now_ns s) (now_ns (sdk.sm_get s).1)
  pub sm_set_enabled :
      (is_on : Bool) (s : S) → Within lag (now_ns s) (now_ns (sdk.sm_set_enabled is_on s))
  pub sm_clear_fifos : (s : S) → Within lag (now_ns s) (now_ns (sdk.sm_clear_fifos s))
  pub sm_restart : (s : S) → Within lag (now_ns s) (now_ns (sdk.sm_restart s))
  pub sm_jump_to_start : (s : S) → Within lag (now_ns s) (now_ns (sdk.sm_jump_to_start s))
  pub gpio_put :
      (gpio : ℕ) (level : Bool) (s : S) → Within lag (now_ns s) (now_ns (sdk.gpio_put gpio level s))
  pub busy_wait_us :
      (us : ℕ) (s : S) → Within (us * 1000 + lag) (now_ns s) (now_ns (sdk.busy_wait_us us s))

module _ {S : Type 0} (sdk : MasterSdk S) (now_ns : S → ℕ) (clock : Clock sdk now_ns)
    (prompt : Prompt sdk now_ns clock.lag) where
  recover-Within : (s : S) → Within (5 * clock.lag) (now_ns s) (now_ns (recover sdk s))
  unfolding recover
  recover-Within s =
      let s₁ = sdk.sm_set_enabled false s in
      let s₂ = sdk.sm_clear_fifos s₁ in
      let s₃ = sdk.sm_restart s₂ in
      let s₄ = sdk.sm_jump_to_start s₃ in
      let stops = prompt.sm_set_enabled false s in
      let clears = prompt.sm_clear_fifos s₁ in
      let restarts = prompt.sm_restart s₂ in
      let jumps = prompt.sm_jump_to_start s₃ in
      let starts = prompt.sm_set_enabled true s₄ in omega arith

  finish_byte-Within :
      (irq start : ℕ) (is_complete : Bool) (s : S)
      → Within (7 * clock.lag) (now_ns s) (now_ns (finish_byte sdk irq start is_complete s).1)
  unfolding finish_byte
  finish_byte-Within irq start is_complete s =
      let s₁ = (sdk.time_us s).1 in
      let s₂ = sdk.restore_interrupts irq s₁ in
      let passes = clock.passes s in
      let reads = clock.time_us s in
      let restores = prompt.restore_interrupts irq s₁ in
      let gets = prompt.sm_get s₂ in
      let recovers = recover-Within s₂ in
      elim (Bool-cases is_complete) [
        | inl e ↦ rw (e, finish_byte) (omega arith)
        | inr e ↦ rw (e, finish_byte) (omega arith)
      ]

  module _ (fuel : ℕ) (enough : 133000 < fuel) where
    -- The hardware is there, so much time later at most.
    abbrev pub Reached : ℕ → S → Option S → Type 0
    Reached most s outcome = (s' : S) × (outcome ≡ some s') × Within most (now_ns s) (now_ns s')

    byte-Reached :
        (out : ℕ) (should_wait_ack : Bool) (s : S)
        → Reached
            (133000 + (12 * clock.lag))
            s
            (lost_byte (exchange_byte sdk fuel out should_wait_ack s)).1
    byte-Reached out should_wait_ack s =
        let (irq, s₁) = sdk.disable_interrupts s in
        let (start, s₂) = sdk.time_us s₁ in
        let disables = prompt.disable_interrupts s in
        let passes = clock.passes s₁ in
        let reads = clock.time_us s₁ in
        let (is_complete, s₃, o, waits) =
          exchange_byte-finish_byte sdk now_ns clock fuel out should_wait_ack s enough in
        let finishes = finish_byte-Within irq start is_complete s₃ in
        (
          (finish_byte sdk irq start is_complete s₃).1,
          ap (λ outcome. (lost_byte outcome).1) o,
          omega arith,
        )

    gap-Reached :
        (has_gap : Bool) (s : S)
        → Reached
            (20000 + clock.lag)
            s
            (if has_gap then some (bus_wait_us sdk byte_gap_us s) else some s)
    unfolding bus_wait_us
    gap-Reached true s =
        let waits = prompt.busy_wait_us byte_gap_us s in
        (bus_wait_us sdk byte_gap_us s, refl, omega arith)
    gap-Reached false s = (s, refl, omega arith)

    attempt-Reached :
        (done : ℕ) (frame : List WireByte) (s : S)
        → Reached (153000 + (13 * clock.lag)) s (attempt (pio_port sdk fuel) done frame (some s)).1
    unfolding attempt
    attempt-Reached done frame s =
        let out = (get_or frame done zero_wire).out in
        let should_wait_ack = ltb (done + 1) (length frame) in
        let (s₁, e, gap) = gap-Reached (ltb 0 done) s in
        let (s₂, e', byte) = byte-Reached out should_wait_ack s₁ in
        (
          s₂,
          ap (λ port. ((pio_port sdk fuel).exchange_byte out should_wait_ack port).1) e ∙ e',
          omega arith,
        )

    exchange_loop-Reached :
        (left done : ℕ) (frame : List WireByte) (s : S)
        → Reached
            (left * (153000 + (13 * clock.lag)))
            s
            (exchange_loop (pio_port sdk fuel) left done frame (some s)).port
    unfolding exchange_loop
    exchange_loop-Reached zero done frame s = (s, refl, omega arith)
    exchange_loop-Reached (suc left) done frame s =
        let got = (attempt (pio_port sdk fuel) done frame (some s)).0 in
        let noted = put_elapsed frame done got.elapsed_us in
        let (s', e, one) = attempt-Reached done frame s in
        elim (Option-cases got.in_byte) [
          | inl is_none ↦ (
            s',
            rw (is_none, exchange_loop) e,
            rw (suc-mul left (153000 + (13 * clock.lag))) (omega arith),
          )
          | inr (byte, is_some) ↦
              let (s'', e', more) =
                exchange_loop-Reached left (done + 1) (put_in noted done byte) s' in
              (
                s'',
                rw (is_some, e, exchange_loop) e',
                rw (suc-mul left (153000 + (13 * clock.lag))) (omega arith),
              )
        ]

    -- Over the port of the hardware, where no call of the SDK but the wait takes longer than `lag`
    -- and there is more fuel for each byte than the nanoseconds of its budget: a frame of `n` bytes
    -- returns, with ATT released by the last call, whether or not the controller answered. That is
    -- 20 microseconds and `n` times 153 microseconds later at most, but for the time of three calls
    -- and of 13 more for each byte.
    pub exchange_frame_deadline :
        (frame : List WireByte) (s : S)
        → (s' : S) × ((exchange_frame (pio_port sdk fuel) frame (some s)).port
            ≡ some (att_release sdk s'))
          × Within
              (20000 + (3 * clock.lag) + (length frame * (153000 + (13 * clock.lag))))
              (now_ns s)
              (now_ns (att_release sdk s'))
    unfolding exchange_frame att_assert att_release bus_wait_us
    exchange_frame_deadline frame s =
        let s₁ = att_assert sdk s in
        let s₂ = bus_wait_us sdk att_setup_us s₁ in
        let asserts = prompt.gpio_put (master_gpio att) false s in
        let waits = prompt.busy_wait_us att_setup_us s₁ in
        let (s₃, e, bytes) = exchange_loop-Reached (length frame) 0 frame s₂ in
        let releases = prompt.gpio_put (master_gpio att) true s₃ in
        (s₃, ap (pio_port sdk fuel).att_release e, omega arith)
