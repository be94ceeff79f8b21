-- ===== src/Bus.antt =====
-- One PS2 frame on the bus (src/hal/bus_frame.h, src/hal/bus_frame.cpp) over the port of
-- src/hal/bus_port.h. The port drives hardware: it is a parameter, a record of the operations that
-- the frame loop calls, each on the hardware's state `S`.
pub mod Loop
pub mod Events
pub mod Paced
pub mod Untouched
use pico_sg2hid.Common.{
  ℕ, zero, suc, ◌+◌, Bool, Option, none, some, List, [], ◌∷◌, ltb, if◌then◌else◌, length, get_or,
  set,
}
use pico_sg2hid.Protocol.{att_setup_us, byte_gap_us}
use pico_sg2hid.Trace.{WireByte, zero_wire}

-- `in_byte` is the source's `in`.
pub record ByteExchange : Type 0 where
  pub in_byte : Option ℕ
  pub elapsed_us : ℕ

pub record BusPort (S : Type 0) : Type 0 where
  pub att_assert : S → S
  pub att_release : S → S
  pub bus_wait_us : ℕ → S → S
  pub exchange_byte : ℕ → Bool → S → ByteExchange × S

-- What an exchange leaves: the frame's bytes, how many completed, the hardware.
pub record Exchange (S : Type 0) : Type 0 where
  pub frame : List WireByte
  pub done : ℕ
  pub port : S

-- `frame[ done ].elapsed_us = …` and `frame[ done ].in = …`.
unfoldable pub put_elapsed : List WireByte → ℕ → ℕ → List WireByte
put_elapsed frame done us =
    set frame done (record (get_or frame done zero_wire) { elapsed_us = us })

unfoldable pub put_in : List WireByte → ℕ → ℕ → List WireByte
put_in frame done byte = set frame done (record (get_or frame done zero_wire) { in_byte = byte })

module _ {S : Type 0} (port : BusPort S) where
  -- The gap before every byte but the first, and the byte itself.
  unfoldable pub attempt : ℕ → List WireByte → S → ByteExchange × S
  attempt done frame s =
      let should_wait_ack = ltb (done + 1) (length frame) in
      port.exchange_byte (get_or frame done zero_wire).out should_wait_ack
        (if ltb 0 done then port.bus_wait_us byte_gap_us s else s)

  -- The `while` loop, by the bytes left.
  unfoldable pub exchange_loop : ℕ → ℕ → List WireByte → S → Exchange S
  exchange_loop zero done frame s = record { frame = frame; done = done; port = s }
  exchange_loop (suc left) done frame s =
      let (got, s') = attempt done frame s in
      let noted = put_elapsed frame done got.elapsed_us in
      elim got.in_byte [
        | none ↦ record { frame = noted; done = done; port = s' }
        | some byte ↦ exchange_loop left (done + 1) (put_in noted done byte) s'
      ]

  unfoldable pub exchange_frame : List WireByte → S → Exchange S
  exchange_frame frame s =
      let selected = port.bus_wait_us att_setup_us (port.att_assert s) in
      let after = exchange_loop (length frame) 0 frame selected in
      record after { port = port.att_release after.port }
