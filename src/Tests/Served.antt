-- ===== src/Tests/Served.antt =====
-- A poll of the master over the wires at concrete inputs (src/hal/bus_frame.cpp,
-- src/emu/sg_model.cpp).
use pico_sg2hid.Common.{ℕ, ◌≡◌, refl, List, [], ◌∷◌, map, take}
use pico_sg2hid.Trace.{WireByte}
use pico_sg2hid.Bus.{exchange_frame, exchange_loop, attempt, put_elapsed, put_in}
use pico_sg2hid.Emulator.{SgModel, ack, late, new_model, reset, receive, step, idle_byte}
use pico_sg2hid.Wired.{wired}
use pico_sg2hid.Wired.Served.{IsServed, exchange_frame-IsServed}

abbrev sent : ℕ → WireByte
sent byte = record { out = byte; in_byte = 0; elapsed_us = 0 }

abbrev poll : List WireByte
poll = map sent (0x01 ∷ 0x42 ∷ 0x00 ∷ 0x00 ∷ 0x00 ∷ [])

-- A guitar that leaves out the ACK of its fourth byte.
abbrev without_ack : SgModel
without_ack = record new_model { fault = record { kind = ack; value = 3 } }

three_read :
    let x = exchange_frame (wired 50) poll (without_ack, 0) in
    (x.done ≡ 3) × (map (λ byte. byte.in_byte) (take x.done x.frame) ≡ 0xFF ∷ 0x41 ∷ 0x5A ∷ [])
unfolding exchange_frame exchange_loop attempt put_elapsed put_in reset step receive
three_read = (refl, refl)

-- A guitar that sends its ACKs after 200 or 50 microseconds.
abbrev with_late : ℕ → SgModel
with_late us = record new_model { fault = record { kind = late; value = us } }

none_in_time : (exchange_frame (wired 50) poll (with_late 200, 0)).done ≡ 0
unfolding exchange_frame exchange_loop attempt put_elapsed put_in reset step receive
none_in_time = refl

all_in_time : (exchange_frame (wired 50) poll (with_late 50, 0)).done ≡ 5
unfolding exchange_frame exchange_loop attempt put_elapsed put_in reset step receive
all_in_time = refl

exchange_frame-IsServed_example :
    IsServed
      (reset (with_late 200))
      idle_byte
      poll
      (exchange_frame (wired 50) poll (with_late 200, 0))
exchange_frame-IsServed_example = exchange_frame-IsServed 50 poll (with_late 200) 0
