-- ===== src/Bus/Paced.antt =====
-- The time that a frame of src/hal/bus_frame.cpp takes, over any hardware whose clock goes on.
use pico_sg2hid.Common.{
  ℕ, zero, suc, ◌+◌, ◌-◌, ◌*◌, ◌/◌, ◌%◌, ◌≤◌, ◌<◌, ◌≡◌, Bool, Bool-cases, inl, inr, List, arith,
  ltb, u32_sub, u32_mod, length, get_or, Option-cases,
}
use native.Mathlib.Nat.{suc-mul, mul-le-mul_right}
use pico_sg2hid.Protocol.{byte_gap_us, att_setup_us}
use pico_sg2hid.Trace.{WireByte, zero_wire}
use pico_sg2hid.Bus.{BusPort, put_elapsed, put_in, attempt, exchange_loop, exchange_frame}
use pico_sg2hid.MasterPort.Clock.{Within, u32_sub-elapsed}

-- The clock `time_us_32` of the SDK: microseconds since some start, wrapped around at 32 bits. Each
-- reading of it takes some time, and no call of the clock or of the bus port takes longer than a
-- second; `bus_wait_us` takes no longer than that beyond what it is asked to wait.
pub record BusClock {S : Type 0} (time_us : S → ℕ × S) (port : BusPort S) (now_ns : S → ℕ)
    : Type 0 where
  pub lag : ℕ
  pub lag_bound : lag ≤ 1000000000
  pub reported : (s : S) → (time_us s).0 ≡ now_ns (time_us s).1 / 1000 % u32_mod
  pub passes : (s : S) → now_ns s < now_ns (time_us s).1
  pub reads : (s : S) → now_ns (time_us s).1 ≤ now_ns s + lag
  pub att_assert : (s : S) → Within lag (now_ns s) (now_ns (port.att_assert s))
  pub att_release : (s : S) → Within lag (now_ns s) (now_ns (port.att_release s))
  pub bus_wait_us :
      (us : ℕ) (s : S) → Within (us * 1000 + lag) (now_ns s) (now_ns (port.bus_wait_us us s))
  pub exchange_byte :
      (out : ℕ) (should_wait_ack : Bool) (s : S)
      → Within lag (now_ns s) (now_ns (port.exchange_byte out should_wait_ack s).1)

module _ {S : Type 0} (time_us : S → ℕ × S) (port : BusPort S) (now_ns : S → ℕ)
    (clock : BusClock time_us port now_ns) where
  attempt-Within :
      (done : ℕ) (frame : List WireByte) (s : S)
      → Within (20000 + (2 * clock.lag)) (now_ns s) (now_ns (attempt port done frame s).1)
  unfolding attempt
  attempt-Within done frame s =
      let waits = clock.bus_wait_us byte_gap_us s in
      let out = (get_or frame done zero_wire).out in
      let should_wait_ack = ltb (done + 1) (length frame) in
      elim (Bool-cases (ltb 0 done)) [
        | inl e ↦
            let takes = clock.exchange_byte out should_wait_ack (port.bus_wait_us byte_gap_us s) in
            rw (e, attempt) (omega arith)
        | inr e ↦
            let takes = clock.exchange_byte out should_wait_ack s in rw (e, attempt) (omega arith)
      ]

  exchange_loop-Within :
      (left done : ℕ) (frame : List WireByte) (s : S)
      → Within
          (left * (20000 + (2 * clock.lag)))
          (now_ns s)
          (now_ns (exchange_loop port left done frame s).port)
  unfolding exchange_loop
  exchange_loop-Within zero done frame s = omega arith
  exchange_loop-Within (suc left) done frame s =
      let got = (attempt port done frame s).0 in
      let s' = (attempt port done frame s).1 in
      let noted = put_elapsed frame done got.elapsed_us in
      let one = attempt-Within done frame s in
      elim (Option-cases got.in_byte) [
        | inl e ↦ rw (e, exchange_loop, suc-mul left (20000 + (2 * clock.lag))) (omega arith)
        | inr (byte, e) ↦
            let rest = exchange_loop-Within left (done + 1) (put_in noted done byte) s' in
            rw (e, exchange_loop, suc-mul left (20000 + (2 * clock.lag))) (omega arith)
      ]

  -- A frame of at most nine bytes, as all of the firmwares' commands are.
  pub exchange_frame-Within :
      (frame : List WireByte) (s : S)
      → length frame ≤ 9
      → Within (200000 + (21 * clock.lag)) (now_ns s) (now_ns (exchange_frame port frame s).port)
  unfolding exchange_frame
  exchange_frame-Within frame s short =
      let s₁ = port.att_assert s in
      let s₂ = port.bus_wait_us att_setup_us s₁ in
      let asserts = clock.att_assert s in
      let waits = clock.bus_wait_us att_setup_us s₁ in
      let takes = exchange_loop-Within (length frame) 0 frame s₂ in
      let releases = clock.att_release (exchange_loop port (length frame) 0 frame s₂).port in
      let bytes : length frame * (20000 + (2 * clock.lag)) ≤ 9 * (20000 + (2 * clock.lag)) =
        mul-le-mul_right (20000 + (2 * clock.lag)) short in
      omega arith

  -- A reading less the noted one is the time since then.
  pub elapsed :
      (begin noted : ℕ) (s : S)
      → begin ≤ now_ns s
      → now_ns s < begin + 3000000000000
      → noted ≡ begin / 1000 % u32_mod
      → u32_sub (time_us s).0 noted ≡ now_ns (time_us s).1 / 1000 - begin / 1000
  elapsed begin noted s h g e =
      let p = clock.passes s in
      let q = clock.reads s in
      let l = clock.lag_bound in
      rw (e, clock.reported s)
        (u32_sub-elapsed begin (now_ns (time_us s).1) (omega arith) (omega arith))
