-- ===== src/MasterPort/Setup.antt =====
-- `bus_init` of src/hal/pio_port.cpp: how the master's pins are configured. The Pico SDK's calls are a
-- parameter: a record of operations on the hardware's state `S`.
use pico_sg2hid.Common.{ℕ, ◌*◌, ◌^◌, Bool, true, false, List, [], ◌∷◌, if◌then◌else◌}
use pico_sg2hid.Protocol.{bus_clock_hz}
use pico_sg2hid.Pins.{
  data_line, cmd, att, clk, ack, signal_eq, PinAssignment, open_drain_input_only, master_pins,
}
use pico_sg2hid.MasterPort.{master_gpio, shift_bits}

abbrev pub cycles_per_bit : ℕ
cycles_per_bit = 4

-- What the state machine is configured with: its pin groups, its shift registers, and its clock divider
-- as a fraction of the system clock.
pub record BusConfig : Type 0 where
  pub out_base : ℕ
  pub out_count : ℕ
  pub in_base : ℕ
  pub sideset_base : ℕ
  pub jmp_pin : ℕ
  pub out_shifts_right : Bool
  pub autopull : Bool
  pub pull_threshold : ℕ
  pub in_shifts_right : Bool
  pub autopush : Bool
  pub push_threshold : ℕ
  pub clkdiv_divisor : ℕ

pub record SetupSdk (S : Type 0) : Type 0 where
  pub claim_sm : S → S
  pub add_program : S → S
  pub gpio_init : ℕ → S → S
  pub gpio_pull_up : ℕ → S → S
  pub gpio_put : ℕ → Bool → S → S
  pub gpio_set_dir_out : ℕ → S → S
  pub sm_set_pins_with_mask : ℕ → ℕ → S → S
  pub sm_set_pindirs : ℕ → Bool → S → S
  pub pio_gpio_init : ℕ → S → S
  pub sm_init : BusConfig → S → S
  pub sm_set_enabled : Bool → S → S

abbrev pub bus_config : BusConfig
bus_config = record {
  out_base = master_gpio cmd;
  out_count = 1;
  in_base = master_gpio data_line;
  sideset_base = master_gpio clk;
  jmp_pin = master_gpio ack;
  out_shifts_right = true;
  autopull = false;
  pull_threshold = shift_bits;
  in_shifts_right = true;
  autopush = false;
  push_threshold = shift_bits;
  clkdiv_divisor = cycles_per_bit * bus_clock_hz;
}

abbrev pub is_input_only : PinAssignment → Bool
is_input_only pin = elim pin.drive [ open_drain_input_only ↦ true | _ ↦ false ]

module _ {S : Type 0} (sdk : SetupSdk S) where
  -- A round of the loop over the table.
  unfoldable pub set_up_pin : PinAssignment → S → S
  set_up_pin pin s =
      let mask = 2 ^ pin.gpio in
      if is_input_only pin
      then sdk.gpio_pull_up pin.gpio (sdk.gpio_init pin.gpio s)
      else (if signal_eq pin.signal att
          then sdk.gpio_set_dir_out pin.gpio (sdk.gpio_put pin.gpio true (sdk.gpio_init pin.gpio s))
          else sdk.pio_gpio_init pin.gpio
              (sdk.sm_set_pindirs pin.gpio true (sdk.sm_set_pins_with_mask mask mask s)))

  unfoldable pub set_up_pins : List PinAssignment → S → S
  set_up_pins [] s = s
  set_up_pins (pin ∷ pins) s = set_up_pins pins (set_up_pin pin s)

  unfoldable pub bus_init : S → S
  bus_init s =
      let configured = set_up_pins master_pins (sdk.add_program (sdk.claim_sm s)) in
      sdk.sm_set_enabled true (sdk.sm_init bus_config configured)
