-- ===== src/Bus/Untouched.antt =====
-- A frame of src/hal/bus_frame.cpp leaves what its port leaves.
use pico_sg2hid.Common.{
  ℕ, zero, suc, ◌+◌, ◌≡◌, ◌∙◌, refl, Bool, Bool-cases, inl, inr, List, ltb, length, get_or,
  Option-cases,
}
use pico_sg2hid.Protocol.{byte_gap_us, att_setup_us}
use pico_sg2hid.Trace.{WireByte, zero_wire}
use pico_sg2hid.Bus.{BusPort, put_elapsed, put_in, attempt, exchange_loop, exchange_frame}

-- No operation of the port changes what `view` reads of the hardware.
pub record Untouched {S A : Type 0} (view : S → A) (port : BusPort S) : Type 0 where
  pub att_assert : (s : S) → view (port.att_assert s) ≡ view s
  pub att_release : (s : S) → view (port.att_release s) ≡ view s
  pub bus_wait_us : (us : ℕ) (s : S) → view (port.bus_wait_us us s) ≡ view s
  pub exchange_byte :
      (out : ℕ) (should_wait_ack : Bool) (s : S)
      → view (port.exchange_byte out should_wait_ack s).1 ≡ view s

module _ {S A : Type 0} (view : S → A) (port : BusPort S) (same : Untouched view port) where
  attempt-view :
      (done : ℕ) (frame : List WireByte) (s : S) → view (attempt port done frame s).1 ≡ view s
  unfolding attempt
  attempt-view done frame s =
      let out = (get_or frame done zero_wire).out in
      let should_wait_ack = ltb (done + 1) (length frame) in
      elim (Bool-cases (ltb 0 done)) [
        | inl e ↦
            rw (e, attempt)
              (same.exchange_byte out should_wait_ack (port.bus_wait_us byte_gap_us s)
                ∙ same.bus_wait_us byte_gap_us s)
        | inr e ↦ rw (e, attempt) (same.exchange_byte out should_wait_ack s)
      ]

  exchange_loop-view :
      (left done : ℕ) (frame : List WireByte) (s : S)
      → view (exchange_loop port left done frame s).port ≡ view s
  unfolding exchange_loop
  exchange_loop-view zero done frame s = refl
  exchange_loop-view (suc left) done frame s =
      let (got, s') = attempt port done frame s in
      let noted = put_elapsed frame done got.elapsed_us in
      elim (Option-cases got.in_byte) [
        | inl e ↦ rw (e, exchange_loop) (attempt-view done frame s)
        | inr (byte, e) ↦
            rw (e, exchange_loop)
              (exchange_loop-view left (done + 1) (put_in noted done byte) s'
                ∙ attempt-view done frame s)
      ]

  pub exchange_frame-view :
      (frame : List WireByte) (s : S) → view (exchange_frame port frame s).port ≡ view s
  unfolding exchange_frame
  exchange_frame-view frame s =
      let s₁ = port.att_assert s in
      let s₂ = port.bus_wait_us att_setup_us s₁ in
      same.att_release (exchange_loop port (length frame) 0 frame s₂).port
      ∙ exchange_loop-view (length frame) 0 frame s₂
      ∙ same.bus_wait_us att_setup_us s₁
      ∙ same.att_assert s
