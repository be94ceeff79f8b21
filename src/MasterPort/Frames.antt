-- ===== src/MasterPort/Frames.antt =====
-- Whole frames (src/hal/bus_frame.cpp) over the master's port (src/hal/pio_port.cpp).
use pico_sg2hid.Common.{
  ℕ, zero, suc, ◌<◌, ◌≡◌, refl, ap, ◌∙◌, inl, inr, Bool, true, false, if◌then◌else◌, ltb, length,
  get_or, ◌+◌, Option, Option-cases, none, some, List,
}
use pico_sg2hid.Protocol.{byte_gap_us, att_setup_us}
use pico_sg2hid.Trace.{WireByte, zero_wire}
use pico_sg2hid.Bus.{
  ByteExchange, BusPort, attempt, put_in, put_elapsed, exchange_loop, exchange_frame,
}
use pico_sg2hid.MasterPort.{MasterSdk, att_assert, att_release, bus_wait_us, exchange_byte}
use pico_sg2hid.MasterPort.Clock.{Clock}
use pico_sg2hid.MasterPort.Ends.{exchange_byte-ends}

abbrev on_hardware : {S : Type 0} → (S → S) → Option S → Option S
on_hardware change none = none
on_hardware change (some s) = some (change s)

abbrev pub lost_byte : {S : Type 0} → Option (ByteExchange × S) → ByteExchange × Option S
lost_byte none = (record { in_byte = none; elapsed_us = 0 }, none)
lost_byte (some (exchange, s)) = (exchange, some s)

-- The port that the frame loop is linked with: no hardware is left once the fuel has run out.
abbrev pub pio_port : {S : Type 0} → MasterSdk S → ℕ → BusPort (Option S)
pio_port sdk fuel = record {
  att_assert = on_hardware (att_assert sdk);
  att_release = on_hardware (att_release sdk);
  bus_wait_us = λ us. on_hardware (bus_wait_us sdk us);
  exchange_byte = λ out should_wait_ack s. elim s [
    | none ↦ lost_byte none
    | some s ↦ lost_byte (exchange_byte sdk fuel out should_wait_ack s)
  ];
}

module _ {S : Type 0} (sdk : MasterSdk S) (now_ns : S → ℕ) (clock : Clock sdk now_ns) (fuel : ℕ)
    (enough : 133000 < fuel) where
  abbrev Present : Option S → Type 0
  Present s = (s' : S) × (s ≡ some s')

  byte-Present :
      (out : ℕ) (should_wait_ack : Bool) (s : S)
      → Present (lost_byte (exchange_byte sdk fuel out should_wait_ack s)).1
  byte-Present out should_wait_ack s =
      let (exchange, s', o) =
        exchange_byte-ends sdk now_ns clock fuel out should_wait_ack s enough in
      (s', ap (λ outcome. (lost_byte outcome).1) o)

  gap-Present :
      (has_gap : Bool) (s : S)
      → Present (if has_gap then some (bus_wait_us sdk byte_gap_us s) else some s)
  gap-Present true s = (bus_wait_us sdk byte_gap_us s, refl)
  gap-Present false s = (s, refl)

  attempt-Present :
      (done : ℕ) (frame : List WireByte) (s : S)
      → Present (attempt (pio_port sdk fuel) done frame (some s)).1
  unfolding attempt
  attempt-Present done frame s =
      let out = (get_or frame done zero_wire).out in
      let should_wait_ack = ltb (done + 1) (length frame) in
      let (s₁, e) = gap-Present (ltb 0 done) s in
      let (s₂, e') = byte-Present out should_wait_ack s₁ in
      (s₂, ap (λ port. ((pio_port sdk fuel).exchange_byte out should_wait_ack port).1) e ∙ e')

  exchange_loop-Present :
      (left done : ℕ) (frame : List WireByte) (s : S)
      → Present (exchange_loop (pio_port sdk fuel) left done frame (some s)).port
  unfolding exchange_loop
  exchange_loop-Present zero done frame s = (s, refl)
  exchange_loop-Present (suc left) done frame s =
      let (got, p) = attempt (pio_port sdk fuel) done frame (some s) in
      let noted = put_elapsed frame done got.elapsed_us in
      let (s', e) = attempt-Present done frame s in
      elim (Option-cases got.in_byte) [
        | inl is_none ↦ (s', rw (is_none, exchange_loop) e)
        | inr (byte, is_some) ↦
            let (s'', e') = exchange_loop-Present left (done + 1) (put_in noted done byte) s' in
            (s'', rw (is_some, e, exchange_loop) e')
      ]

  -- The hardware is a parameter, with a clock that goes on. With more fuel for each byte than the
  -- nanoseconds of its budget, a frame of any length returns over the port of the hardware: with
  -- the last call the hardware is there, ATT released, whether or not the controller answered.
  pub exchange_frame-ends :
      (frame : List WireByte) (s : S)
      → (s' : S) × ((exchange_frame (pio_port sdk fuel) frame (some s)).port
          ≡ some (att_release sdk s'))
  unfolding exchange_frame
  exchange_frame-ends frame s =
      let (s', e) =
        exchange_loop-Present (length frame) 0 frame
          (bus_wait_us sdk att_setup_us (att_assert sdk s)) in
      (s', ap (on_hardware (att_release sdk)) e)
