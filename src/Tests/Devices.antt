-- ===== src/Tests/Devices.antt =====
-- The emulator's loop and the drivers of the PIO state machines at concrete inputs, over hardware
-- that answers by a script.
use pico_sg2hid.Common.{
  ◌==◌, ◌↔◌, replicate, ◌+◌, ℕ, zero, suc, ◌*◌, ◌/◌, ◌%◌, ◌^◌, ◌<◌, ◌≤◌, ◌≡◌, refl, Bool, true,
  false, Option, none, some, List, [], ◌∷◌, arith, u32_mod,
}
use pico_sg2hid.Command.{newline}
use pico_sg2hid.Trace.{WireByte, zero_wire}
use pico_sg2hid.Bus.{BusPort, exchange_frame}
use pico_sg2hid.Emulator.{SgModel, new_model, reset}
use pico_sg2hid.Emulator.Frames.{serve}
use pico_sg2hid.Serving.{DevicePort, serve_frame, new_reader}
use pico_sg2hid.Serving.Calls.{Event, taken, Serves}
use pico_sg2hid.Serving.Calls as ServingCalls
use pico_sg2hid.Serving.Runs.{LetsGo, serve_frame-serve}
use pico_sg2hid.Serving.Line.{feed, Finished, feed-finish_line}
use pico_sg2hid.MasterPort.{MasterSdk, exchange_byte, probe_wire_bits, att_release}
use pico_sg2hid.MasterPort.Deadline.{Prompt, exchange_frame_deadline}
use pico_sg2hid.MasterPort.Clock.{Within, Clock}
use pico_sg2hid.MasterPort.Byte.{ByteOutcome, exchange_byte-calls}
use pico_sg2hid.MasterPort.Calls
use pico_sg2hid.MasterPort.Probe.{ProbeOutcome, probe_wire_bits-calls}
use pico_sg2hid.MasterPort.Frames.{pio_port}
use pico_sg2hid.Protocol.{att_setup_us}
use pico_sg2hid.Usb.Strings.{string_index, descriptor_string_cb}
use pico_sg2hid.Usb.Strings.Read.{read_given, string_at, descriptor_string_cb-Read}
use pico_sg2hid.Loopback.{LoopReadings, seq_poll, print_loopback}
use pico_sg2hid.Loopback.Echo.{Echoes, is_match-Echoes}

-- How often ATT is still low, the bytes the master sends, and the time.
abbrev Script : Type 0
Script = ℕ × List ℕ × ℕ

abbrev next_byte : Script → Option ℕ × Script
next_byte (lows, [], now) = (none, (lows, [], now))
next_byte (lows, byte ∷ bytes, now) = (some byte, (lows, bytes, now))

abbrev read_att : Script → Bool × Script
read_att (zero, bytes, now) = (true, (zero, bytes, now))
read_att (suc lows, bytes, now) = (false, (lows, bytes, now))

abbrev scripted : DevicePort Script
scripted = record {
  restart = λ s. s;
  take_byte = next_byte;
  answer = λ _ _ s. s;
  att_is_high = read_att;
  time_us = λ (lows, bytes, now). (now, (lows, bytes, now + 6));
  get_char = λ s. (none, s);
}

read_att-low : (s : Script) → (read_att s).0 ≡ false → (read_att s).1.0 < s.0
read_att-low (zero, bytes, now) e = ground arith
read_att-low (suc lows, bytes, now) e = omega arith

next_byte-lows : (s : Script) → (next_byte s).1.0 ≤ s.0
next_byte-lows (lows, [], now) = omega arith
next_byte-lows (lows, byte ∷ bytes, now) = omega arith

scripted-LetsGo : LetsGo scripted (λ s. s.0)
scripted-LetsGo = record {
  low = read_att-low;
  take = next_byte-lows;
  answer = λ s _ _. omega arith;
  time = λ s. omega arith;
}

abbrev sent_poll : Script
sent_poll = (8, 0x01 ∷ 0x42 ∷ 0 ∷ 0 ∷ 0 ∷ [], 100)

serve_frame-serve_example :
    (log : List Event) × (s' : Script) × (after : SgModel) × (serve_frame
        (ServingCalls.recording scripted)
        9
        new_model
        (sent_poll, [])
      ≡ some (after, (s', log)))
    × Serves (reset new_model) log after
    × (after ≡ (serve (reset new_model) (taken log)).1)
serve_frame-serve_example =
    serve_frame-serve scripted (λ s. s.0) scripted-LetsGo 9 new_model sent_poll (omega arith)

-- `ready 1`.
feed-finish_line_example :
    Finished new_model
      (114 ∷ 101 ∷ 97 ∷ 100 ∷ 121 ∷ 32 ∷ 49 ∷ [])
      (feed new_reader new_model (114 ∷ 101 ∷ 97 ∷ 100 ∷ 121 ∷ 32 ∷ 49 ∷ newline ∷ []))
feed-finish_line_example =
    feed-finish_line (114 ∷ 101 ∷ 97 ∷ 100 ∷ 121 ∷ 32 ∷ 49 ∷ []) new_reader new_model
      (
        (λ e. omega arith),
        (
          (λ e. omega arith),
          (
            (λ e. omega arith),
            (
              (λ e. omega arith),
              ((λ e. omega arith), ((λ e. omega arith), ((λ e. omega arith), tt))),
            ),
          ),
        ),
      )
      (refl, refl)

-- The time in nanoseconds, and how often the RX FIFO is still empty.
abbrev Ticks : Type 0
Ticks = ℕ × ℕ

abbrev read_time : Ticks → ℕ × Ticks
read_time (now, empties) = ((now + 100) / 1000 % u32_mod, (now + 100, empties))

abbrev ask_rx : Ticks → Bool × Ticks
ask_rx (now, zero) = (false, (now, zero))
ask_rx (now, suc empties) = (true, (now, empties))

abbrev ticking : MasterSdk Ticks
ticking = record {
  time_us = read_time;
  disable_interrupts = λ s. (1, s);
  restore_interrupts = λ _ s. s;
  rx_is_empty = ask_rx;
  sm_get = λ s. (0x5A * (2 ^ 24), s);
  sm_put = λ _ s. s;
  sm_set_enabled = λ _ s. s;
  sm_clear_fifos = λ s. s;
  sm_restart = λ s. s;
  sm_jump_to_start = λ s. s;
  set_clkdiv = λ _ s. s;
  clkdiv_restart = λ s. s;
  gpio_get = λ _ (now, empties). (now / 200 % 2 == 0, (now + 60, empties));
  gpio_put = λ _ _ s. s;
  busy_wait_us = λ us (now, empties). (now + (us * 1000), empties);
}

ask_rx-now : (s : Ticks) → (s.0 ≤ (ask_rx s).1.0) × ((ask_rx s).1.0 ≤ s.0 + 100)
ask_rx-now (now, zero) = (omega arith, omega arith)
ask_rx-now (now, suc empties) = (omega arith, omega arith)

abbrev ticking_clock : Clock ticking (λ s. s.0)
ticking_clock = record {
  lag = 100;
  lag_bound = omega arith;
  reported = λ s. refl;
  passes = λ s. omega arith;
  time_us = λ s. omega arith;
  rx_is_empty = ask_rx-now;
  gpio_get = λ _ s. (omega arith, omega arith);
  sm_put = λ _ s. (omega arith, omega arith);
}

exchange_byte-calls_example :
    ByteOutcome ticking
      (λ s. s.0)
      ticking_clock
      0x42
      true
      (0, 3)
      0x142
      (exchange_byte (Calls.recording ticking) 200000 0x42 true ((0, 3), []))
exchange_byte-calls_example =
    exchange_byte-calls ticking (λ s. s.0) ticking_clock 0x42 true (0, 3) 200000 (omega arith)
      (omega arith)

probe_wire_bits-calls_example :
    ProbeOutcome ticking
      (λ s. s.0)
      ticking_clock
      2000000000
      0x01
      (probe_wire_bits (Calls.recording ticking) 2000000000 0x01 ((0, 3), []))
probe_wire_bits-calls_example =
    probe_wire_bits-calls ticking (λ s. s.0) ticking_clock 2000000000 0x01 (0, 3) (omega arith)

abbrev two_bytes : List WireByte
two_bytes = record zero_wire { out = 0x01 } ∷ record zero_wire { out = 0x42 } ∷ []

abbrev ticking_prompt : Prompt ticking (λ s. s.0) 100
ticking_prompt = record {
  disable_interrupts = λ s. (omega arith, omega arith);
  restore_interrupts = λ _ s. (omega arith, omega arith);
  sm_get = λ s. (omega arith, omega arith);
  sm_set_enabled = λ _ s. (omega arith, omega arith);
  sm_clear_fifos = λ s. (omega arith, omega arith);
  sm_restart = λ s. (omega arith, omega arith);
  sm_jump_to_start = λ s. (omega arith, omega arith);
  gpio_put = λ _ _ s. (omega arith, omega arith);
  busy_wait_us = λ us s. (omega arith, omega arith);
}

exchange_frame_deadline_example :
    (s' : Ticks) × ((exchange_frame (pio_port ticking 200000) two_bytes (some (0, 3))).port
      ≡ some (att_release ticking s'))
    × Within 328900 0 (att_release ticking s').0
exchange_frame_deadline_example =
    exchange_frame_deadline ticking (λ s. s.0) ticking_clock ticking_prompt 200000 (omega arith)
      two_bytes (0, 3)

-- A jumper from CMD to DATA: every byte comes back.
abbrev jumper : BusPort ℕ
jumper = record {
  att_assert = λ s. s;
  att_release = λ s. s;
  bus_wait_us = λ us s. s + us;
  exchange_byte = λ out _ s. (record { in_byte = some out; elapsed_us = 36 }, s + 36);
}

abbrev loop_readings : LoopReadings
loop_readings = record { start = 4294967290; ended = 300; att_level = true }

is_match-Echoes_example :
    ((print_loopback jumper 0 seq_poll loop_readings 0).0.is_match ≡ true)
    ↔ Echoes jumper true seq_poll (jumper.bus_wait_us att_setup_us (jumper.att_assert 0))
is_match-Echoes_example = is_match-Echoes jumper 0 seq_poll loop_readings 0 (omega arith)

-- `E6614C`.
abbrev board_serial : List ℕ
board_serial = b'E' ∷ b'6' ∷ b'6' ∷ b'1' ∷ b'4' ∷ b'C' ∷ []

descriptor_string_cb-Read_example :
    read_given 8 (omega arith) (descriptor_string_cb 8 3 board_serial 3 (replicate 17 0xFFFF)).0
    ≡ string_at 8 (omega arith) board_serial (string_index 3)
descriptor_string_cb-Read_example =
    descriptor_string_cb-Read 8 (omega arith) board_serial 3 (replicate 17 0xFFFF) (omega arith)
      refl
