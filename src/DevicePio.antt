-- ===== src/DevicePio.antt =====
-- The emulator's side of the bus on a PIO state machine (src/hal/pio_device.cpp). The Pico SDK's
-- calls are a parameter: a record of operations on the hardware's state `S`. The state machine and
-- the program's offset, which `device_init` chooses once, are left out of their arguments.
pub mod Words
pub mod Pads
pub mod NeverHigh
use Prim.Native.Nat.{bit_or}
use pico_sg2hid.Common.{
  ℕ, zero, suc, ◌+◌, ◌-◌, ◌*◌, ◌/◌, ◌%◌, ◌^◌, Bool, true, false, Option, none, some, List, [], ◌∷◌,
  if◌then◌else◌, u8,
}
use pico_sg2hid.Protocol.{wire_bits_per_byte}
use pico_sg2hid.Pins.{
  Signal, data_line, cmd, att, ack, PinAssignment, DriveMode, push_pull, open_drain_input_only,
  input_only, open_drain_output, emulator_pins, gpio_of,
}

-- What the state machine is configured with: its pin groups, its shift registers, and its clock divider
-- as a fraction of the system clock.
pub record SmConfig : Type 0 where
  pub out_base : ℕ
  pub out_count : ℕ
  pub set_base : ℕ
  pub set_count : ℕ
  pub in_base : ℕ
  pub out_shifts_right : Bool
  pub autopull : Bool
  pub pull_threshold : ℕ
  pub in_shifts_right : Bool
  pub autopush : Bool
  pub push_threshold : ℕ
  pub clkdiv_divisor : ℕ

pub record DeviceSdk (S : Type 0) : Type 0 where
  pub claim_sm : S → S
  pub add_program : S → S
  pub sm_set_pindirs : ℕ → Bool → S → S
  pub pio_gpio_init : ℕ → S → S
  pub gpio_set_outover_low : ℕ → S → S
  pub gpio_init : ℕ → S → S
  pub gpio_disable_pulls : ℕ → S → S
  pub sm_init : SmConfig → S → S
  pub sm_set_enabled : Bool → S → S
  pub sm_clear_fifos : S → S
  pub sm_restart : S → S
  pub sm_jump_to_start : S → S
  pub sm_put : ℕ → S → S
  pub rx_is_empty : S → Bool × S
  pub sm_get : S → ℕ × S
  pub gpio_get : ℕ → S → Bool × S

abbrev pub device_cycles_per_us : ℕ
device_cycles_per_us = 8

abbrev pub device_us_per_second : ℕ
device_us_per_second = 1000000

abbrev pub device_shift_bits : ℕ
device_shift_bits = 32

abbrev pub device_rx_byte_shift : ℕ
device_rx_byte_shift = device_shift_bits - wire_bits_per_byte

abbrev pub ack_flag : ℕ
ack_flag = 1

abbrev pub byte_shift : ℕ
byte_shift = 1

abbrev pub released_byte : ℕ
released_byte = 255

-- `gpio_of( signal, kEmulatorPins )`; the build fails where the table lacks the signal.
abbrev pub emulator_gpio : Signal → ℕ
emulator_gpio signal = elim (gpio_of signal emulator_pins) [ none ↦ 0 | some gpio ↦ gpio ]

-- `~next` as a byte.
abbrev pub inverted : ℕ → ℕ
inverted next = 255 - u8 next

abbrev pub word_for : ℕ → Bool → ℕ
word_for next should_ack =
    bit_or (inverted next * 2 ^ byte_shift) (if should_ack then ack_flag else 0)

abbrev pub device_config : SmConfig
device_config = record {
  out_base = emulator_gpio data_line;
  out_count = 1;
  set_base = emulator_gpio ack;
  set_count = 1;
  in_base = emulator_gpio cmd;
  out_shifts_right = true;
  autopull = false;
  pull_threshold = device_shift_bits;
  in_shifts_right = true;
  autopush = false;
  push_threshold = device_shift_bits;
  clkdiv_divisor = device_cycles_per_us * device_us_per_second;
}

abbrev pub is_open_drain : PinAssignment → Bool
is_open_drain pin = elim pin.drive [ open_drain_output ↦ true | _ ↦ false ]

module _ {S : Type 0} (sdk : DeviceSdk S) where
  -- A round of the loop of `device_init`.
  unfoldable pub init_pin : PinAssignment → S → S
  init_pin pin s =
      if is_open_drain pin
      then sdk.gpio_set_outover_low pin.gpio
          (sdk.pio_gpio_init pin.gpio (sdk.sm_set_pindirs pin.gpio false s))
      else sdk.gpio_disable_pulls pin.gpio (sdk.gpio_init pin.gpio s)

  unfoldable pub init_pins : List PinAssignment → S → S
  init_pins [] s = s
  init_pins (pin ∷ pins) s = init_pins pins (init_pin pin s)

  -- The loop of `device_restart`.
  unfoldable pub release_pins : List PinAssignment → S → S
  release_pins [] s = s
  release_pins (pin ∷ pins) s =
      release_pins pins (if is_open_drain pin then sdk.sm_set_pindirs pin.gpio false s else s)

  unfoldable pub device_restart : S → S
  device_restart s =
      let emptied = sdk.sm_restart (sdk.sm_clear_fifos (sdk.sm_set_enabled false s)) in
      let at_start = sdk.sm_jump_to_start (release_pins emulator_pins emptied) in
      sdk.sm_set_enabled true (sdk.sm_put (word_for released_byte false) at_start)

  unfoldable pub device_init : S → S
  device_init s =
      let configured = init_pins emulator_pins (sdk.add_program (sdk.claim_sm s)) in
      device_restart (sdk.sm_init device_config configured)

  unfoldable pub device_take_byte : S → Option ℕ × S
  device_take_byte s =
      let (is_empty, s₁) = sdk.rx_is_empty s in
      elim is_empty [
        | true ↦ (none, s₁)
        | false ↦
            (let (word, s₂) = sdk.sm_get s₁ in (some (u8 (word / 2 ^ device_rx_byte_shift)), s₂))
      ]

  unfoldable pub device_answer : ℕ → Bool → S → S
  device_answer next should_ack s = sdk.sm_put (word_for next should_ack) s

  unfoldable pub device_att_is_high : S → Bool × S
  device_att_is_high s = sdk.gpio_get (emulator_gpio att) s
