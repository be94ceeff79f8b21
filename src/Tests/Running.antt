-- ===== src/Tests/Running.antt =====
-- `main` of src/app/main.cpp on a concrete hardware: a clock that every reading moves on.
use pico_sg2hid.Common.{
  ℕ, ◌+◌, ◌*◌, ◌/◌, ◌%◌, ◌≤◌, ◌≡◌, ◌≢◌, ◌⊎◌, refl, true, none, some, [], ◌∷◌, arith, u32_mod,
}
use pico_sg2hid.Link.{analog_streaming, digital_streaming}
use pico_sg2hid.Bus.{BusPort}
use pico_sg2hid.Usb.{UsbDevice}
use pico_sg2hid.Firmware.{Poller}
use pico_sg2hid.Firmware.Running.{MainSdk, run_main}
use pico_sg2hid.Firmware.Paced.{MainClock}
use pico_sg2hid.Firmware.Rounds.{run_main-ends}

-- The state is the time in nanoseconds.
abbrev desk : MainSdk ℕ
desk = record {
  time_us = λ now. ((now + 500) / 1000 % u32_mod, now + 500);
  task = λ now. now + 100;
  hid_ready = λ now. (true, now);
  hid_report = λ _ now. now + 100;
  att_level = λ now. (true, now);
  print = λ _ now. now + 2000;
}

-- No byte is answered.
abbrev open_bus : BusPort ℕ
open_bus = record {
  att_assert = λ now. now;
  att_release = λ now. now;
  bus_wait_us = λ us now. now + (us * 1000) + 300;
  exchange_byte = λ _ _ now. (record { in_byte = none; elapsed_us = 132 }, now + 132000);
}

desk_clock : MainClock desk open_bus (λ now. now)
desk_clock = record {
  bus = record {
    lag = 200000;
    lag_bound = omega arith;
    reported = λ now. refl;
    passes = λ now. omega arith;
    reads = λ now. omega arith;
    att_assert = λ now. omega arith;
    att_release = λ now. omega arith;
    bus_wait_us = λ us now. omega arith;
    exchange_byte = λ _ _ now. omega arith;
  };
  task = λ now. omega arith;
  hid_ready = λ now. omega arith;
  hid_report = λ _ now. omega arith;
  att_level = λ now. omega arith;
  print = λ _ now. omega arith;
}

run_main-ends_example :
    (p : Poller) × (d : UsbDevice) × (now : ℕ) × (run_main desk open_bus 9000000 126 7
      ≡ some (p, d, now))
    × (7 / 1000 + (126 * 8000) ≤ now / 1000)
    × (p.master.link.state ≢ digital_streaming)
    × ((p.master.link.state ≡ analog_streaming) ⊎ (d.stored_report ≡ 0 ∷ 0 ∷ 0 ∷ []))
run_main-ends_example =
    run_main-ends desk open_bus (λ now. now) desk_clock 9000000 (omega arith) 126 7
