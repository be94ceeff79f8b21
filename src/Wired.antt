-- ===== src/Wired.antt =====
-- The master's frame loop (src/hal/bus_frame.cpp) wired to the emulated guitar (src/emu/main.cpp,
-- src/emu/sg_model.cpp): an instance of the bus port in which the wires and the two PIO programs
-- carry every byte. The state is the model and the byte that it shifts out next.
pub mod Exchange
pub mod Served
pub mod Masters
pub mod Startup
pub mod Streaming
pub mod Typed
pub mod Declined
use pico_sg2hid.Protocol.{ack_timeout_us}
use pico_sg2hid.Common.{ℕ, leb, Bool, not, ◌&&◌, Option, none, some, List, if◌then◌else◌}
use pico_sg2hid.Bus.{ByteExchange, BusPort}
use pico_sg2hid.Emulator.{SgModel, ByteAnswer, reset, step, idle_byte}

abbrev pub Guitar : Type 0
Guitar = SgModel × ℕ

-- Whether the master gets the ACK that it waits for: it is sent, and no later than the master waits.
abbrev pub is_acked : ByteAnswer → Bool
is_acked answer = answer.should_ack && leb answer.ack_delay_us ack_timeout_us

-- The master's byte goes in, the byte that the model decided on one step earlier comes out; the
-- exchange fails when the master waits for an ACK that does not come in time. `us` is what a byte
-- takes.
abbrev pub wired_exchange : ℕ → ℕ → Bool → Guitar → ByteExchange × Guitar
wired_exchange us out should_wait_ack (model, next) =
    let (answer, model') = step model out in
    let in_byte = if should_wait_ack && not (is_acked answer) then none else some next in
    (record { in_byte = in_byte; elapsed_us = us }, (model', answer.next))

abbrev pub wired : ℕ → BusPort Guitar
wired us = record {
  att_assert = λ (model, next). (reset model, idle_byte);
  att_release = λ guitar. guitar;
  bus_wait_us = λ wait guitar. guitar;
  exchange_byte = wired_exchange us;
}
