-- ===== src/Pins.antt =====
-- The pin tables of the two Picos (src/core/pins.h).
pub mod Wiring
pub mod Calls
use pico_sg2hid.Common.{ℕ, Bool, true, false, Option, none, some, List, [], ◌∷◌, if◌then◌else◌}

pub data Signal : Type 0 where
  data_line cmd att clk ack : Signal

pub data Direction : Type 0 where
  input output : Direction

pub data DriveMode : Type 0 where
  push_pull open_drain_input_only input_only open_drain_output : DriveMode

pub record PinAssignment : Type 0 where
  pub gpio : ℕ
  pub signal : Signal
  pub direction : Direction
  pub drive : DriveMode

abbrev pub signal_eq : Signal → Signal → Bool
signal_eq data_line data_line = true
signal_eq cmd cmd = true
signal_eq att att = true
signal_eq clk clk = true
signal_eq ack ack = true
signal_eq _ _ = false

abbrev pub master_pins : List PinAssignment
master_pins =
    record { gpio = 2; signal = data_line; direction = input; drive = open_drain_input_only }
    ∷ record { gpio = 3; signal = cmd; direction = output; drive = push_pull }
    ∷ record { gpio = 4; signal = att; direction = output; drive = push_pull }
    ∷ record { gpio = 5; signal = clk; direction = output; drive = push_pull }
    ∷ record { gpio = 6; signal = ack; direction = input; drive = open_drain_input_only }
    ∷ []

abbrev pub emulator_pins : List PinAssignment
emulator_pins =
    record { gpio = 2; signal = data_line; direction = output; drive = open_drain_output }
    ∷ record { gpio = 3; signal = cmd; direction = input; drive = input_only }
    ∷ record { gpio = 4; signal = att; direction = input; drive = input_only }
    ∷ record { gpio = 5; signal = clk; direction = input; drive = input_only }
    ∷ record { gpio = 6; signal = ack; direction = output; drive = open_drain_output }
    ∷ []

-- `none` is the signal missing from the table, which the compiler refuses.
unfoldable pub gpio_of : Signal → List PinAssignment → Option ℕ
gpio_of signal [] = none
gpio_of signal (pin ∷ table) =
    if signal_eq pin.signal signal then some pin.gpio else gpio_of signal table
