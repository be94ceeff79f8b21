-- ===== src/MasterPort/Idle.antt =====
-- What the master's pins drive while `bus_init` configures them (src/hal/pio_port.cpp).
use pico_sg2hid.Common.{ℕ, ◌≡◌, ◌⊎◌, Bool, true, false, List, [], ◌∷◌}
use pico_sg2hid.Pins.Calls.{at_pin, noted}
use pico_sg2hid.Pins.{data_line, att, ack}
use pico_sg2hid.MasterPort.{master_gpio}
use pico_sg2hid.MasterPort.Setup.{SetupSdk, BusConfig}

-- What drives a pin: the state machine or the processor, each with its direction and its level.
pub record MasterPad : Type 0 where
  pub is_pio : Bool
  pub pio_is_output : Bool
  pub pio_level : Bool
  pub sio_is_output : Bool
  pub sio_level : Bool

-- The pads but for what the state machine does to its own directions and levels.
abbrev pub Runs : {S : Type 0} → (ℕ → S → MasterPad) → S → S → Type 0
Runs pad s s' =
    (gpio : ℕ)
    → (is_output level : Bool) × (pad gpio s'
        ≡ record (pad gpio s) { pio_is_output = is_output; pio_level = level })

-- A call changes one pin's pad in this way, and no other's.
abbrev pub Touches :
    {S : Type 0} → (ℕ → S → MasterPad) → ℕ → (MasterPad → MasterPad) → S → S → Type 0
Touches pad pin change s s' =
    (gpio : ℕ) → pad gpio s' ≡ at_pin pin gpio (change (pad gpio s)) (pad gpio s)

-- The SDK's calls, as its documentation has them.
pub record SetupLaws {S : Type 0} (sdk : SetupSdk S) (pad : ℕ → S → MasterPad) : Type 0 where
  pub gpio_init :
      (pin : ℕ) (s : S)
      → Touches pad pin
          (λ p. record p { is_pio = false; sio_is_output = false; sio_level = false })
          s
          (sdk.gpio_init pin s)
  pub gpio_pull_up : (pin : ℕ) (s : S) → Touches pad pin (λ p. p) s (sdk.gpio_pull_up pin s)
  pub gpio_put :
      (pin : ℕ) (level : Bool) (s : S)
      → Touches pad pin (λ p. record p { sio_level = level }) s (sdk.gpio_put pin level s)
  pub gpio_set_dir_out :
      (pin : ℕ) (s : S)
      → Touches pad pin (λ p. record p { sio_is_output = true }) s (sdk.gpio_set_dir_out pin s)
  pub sm_set_pins_with_mask :
      (values mask : ℕ) (s : S) → Runs pad s (sdk.sm_set_pins_with_mask values mask s)
  pub sm_set_pindirs :
      (pin : ℕ) (is_output : Bool) (s : S) → Runs pad s (sdk.sm_set_pindirs pin is_output s)
  pub pio_gpio_init :
      (pin : ℕ) (s : S)
      → Touches pad pin (λ p. record p { is_pio = true }) s (sdk.pio_gpio_init pin s)
  pub claim_sm : (s : S) → Runs pad s (sdk.claim_sm s)
  pub add_program : (s : S) → Runs pad s (sdk.add_program s)
  pub sm_init : (config : BusConfig) (s : S) → Runs pad s (sdk.sm_init config s)
  pub sm_set_enabled : (is_on : Bool) (s : S) → Runs pad s (sdk.sm_set_enabled is_on s)

-- An SDK that also notes every state that a call leaves.
abbrev pub traced : {S : Type 0} → SetupSdk S → SetupSdk (S × List S)
traced sdk = record {
  claim_sm = noted sdk.claim_sm;
  add_program = noted sdk.add_program;
  gpio_init = λ pin. noted (sdk.gpio_init pin);
  gpio_pull_up = λ pin. noted (sdk.gpio_pull_up pin);
  gpio_put = λ pin level. noted (sdk.gpio_put pin level);
  gpio_set_dir_out = λ pin. noted (sdk.gpio_set_dir_out pin);
  sm_set_pins_with_mask = λ values mask. noted (sdk.sm_set_pins_with_mask values mask);
  sm_set_pindirs = λ pin is_output. noted (sdk.sm_set_pindirs pin is_output);
  pio_gpio_init = λ pin. noted (sdk.pio_gpio_init pin);
  sm_init = λ config. noted (sdk.sm_init config);
  sm_set_enabled = λ is_on. noted (sdk.sm_set_enabled is_on);
}

-- Nothing drives the pin.
abbrev pub Undriven : MasterPad → Type 0
Undriven pad = (pad.is_pio ≡ false) × (pad.sio_is_output ≡ false)

-- Nothing drives the pin, or the processor drives it high.
abbrev pub Idle : MasterPad → Type 0
Idle pad = (pad.is_pio ≡ false) × ((pad.sio_is_output ≡ false) ⊎ (pad.sio_level ≡ true))

-- The pins that the guitar drives are left to it, and ATT does not select it.
abbrev pub Quiet : {S : Type 0} → (ℕ → S → MasterPad) → S → Type 0
Quiet pad s =
    Undriven (pad (master_gpio data_line) s)
    × Idle (pad (master_gpio att) s)
    × Undriven (pad (master_gpio ack) s)

abbrev pub AlwaysQuiet : {S : Type 0} → (ℕ → S → MasterPad) → List S → Type 0
AlwaysQuiet pad [] = Unit {0}
AlwaysQuiet pad (s ∷ seen) = Quiet pad s × AlwaysQuiet pad seen
