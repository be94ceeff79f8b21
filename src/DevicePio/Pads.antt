-- ===== src/DevicePio/Pads.antt =====
-- What the emulator's pins can drive (src/hal/pio_device.cpp): the order in which `device_init`
-- configures them, and the port's operations behind it.
use pico_sg2hid.Common.{
  ℕ, ◌≡◌, ◌⊎◌, Bool, true, false, not, ◌&&◌, List, [], ◌∷◌, arith, if◌then◌else◌,
}
use pico_sg2hid.Pins.Calls.{at_pin, noted, noted_answer}
use pico_sg2hid.DevicePio.{
  DeviceSdk, SmConfig, device_restart, device_take_byte, device_answer, device_att_is_high,
}

-- What drives a pin: the state machine or the processor, each with its direction, and whether the
-- pad's output is forced low.
pub record Pad : Type 0 where
  pub is_pio : Bool
  pub pio_is_output : Bool
  pub sio_is_output : Bool
  pub is_forced_low : Bool

abbrev pub can_drive_high : Pad → Bool
can_drive_high pad =
    (if pad.is_pio then pad.pio_is_output else pad.sio_is_output) && not pad.is_forced_low

-- The pads but for the directions that the state machine's program chooses.
abbrev pub Runs : {S : Type 0} → (ℕ → S → Pad) → S → S → Type 0
Runs pad s s' =
    (gpio : ℕ)
    → (is_output : Bool) × (pad gpio s' ≡ record (pad gpio s) { pio_is_output = is_output })

-- The SDK's calls, as its documentation has them: giving a pin to PIO or to the processor clears its
-- output override; a running program changes directions only.
pub record PadLaws {S : Type 0} (sdk : DeviceSdk S) (pad : ℕ → S → Pad) : Type 0 where
  pub sm_set_pindirs :
      (pin : ℕ) (is_output : Bool) (s : S) (gpio : ℕ)
      → pad gpio (sdk.sm_set_pindirs pin is_output s)
        ≡ at_pin pin gpio (record (pad gpio s) { pio_is_output = is_output }) (pad gpio s)
  pub pio_gpio_init :
      (pin : ℕ) (s : S) (gpio : ℕ)
      → pad gpio (sdk.pio_gpio_init pin s)
        ≡ at_pin pin gpio
            (record (pad gpio s) { is_pio = true; is_forced_low = false })
            (pad gpio s)
  pub gpio_set_outover_low :
      (pin : ℕ) (s : S) (gpio : ℕ)
      → pad gpio (sdk.gpio_set_outover_low pin s)
        ≡ at_pin pin gpio (record (pad gpio s) { is_forced_low = true }) (pad gpio s)
  pub gpio_init :
      (pin : ℕ) (s : S) (gpio : ℕ)
      → pad gpio (sdk.gpio_init pin s)
        ≡ at_pin pin gpio
            (record (pad gpio s) { is_pio = false; sio_is_output = false; is_forced_low = false })
            (pad gpio s)
  pub gpio_disable_pulls :
      (pin : ℕ) (s : S) (gpio : ℕ) → pad gpio (sdk.gpio_disable_pulls pin s) ≡ pad gpio s
  pub claim_sm : (s : S) → Runs pad s (sdk.claim_sm s)
  pub add_program : (s : S) → Runs pad s (sdk.add_program s)
  pub sm_init : (config : SmConfig) (s : S) → Runs pad s (sdk.sm_init config s)
  pub sm_set_enabled : (is_on : Bool) (s : S) → Runs pad s (sdk.sm_set_enabled is_on s)
  pub sm_clear_fifos : (s : S) → Runs pad s (sdk.sm_clear_fifos s)
  pub sm_restart : (s : S) → Runs pad s (sdk.sm_restart s)
  pub sm_jump_to_start : (s : S) → Runs pad s (sdk.sm_jump_to_start s)
  pub sm_put : (word : ℕ) (s : S) → Runs pad s (sdk.sm_put word s)
  pub rx_is_empty : (s : S) → Runs pad s (sdk.rx_is_empty s).1
  pub sm_get : (s : S) → Runs pad s (sdk.sm_get s).1
  pub gpio_get : (pin : ℕ) (s : S) → Runs pad s (sdk.gpio_get pin s).1

-- An SDK that also notes every state that a call leaves.
abbrev pub traced : {S : Type 0} → DeviceSdk S → DeviceSdk (S × List S)
traced sdk = record {
  claim_sm = noted sdk.claim_sm;
  add_program = noted sdk.add_program;
  sm_set_pindirs = λ pin is_output. noted (sdk.sm_set_pindirs pin is_output);
  pio_gpio_init = λ pin. noted (sdk.pio_gpio_init pin);
  gpio_set_outover_low = λ pin. noted (sdk.gpio_set_outover_low pin);
  gpio_init = λ pin. noted (sdk.gpio_init pin);
  gpio_disable_pulls = λ pin. noted (sdk.gpio_disable_pulls pin);
  sm_init = λ config. noted (sdk.sm_init config);
  sm_set_enabled = λ is_on. noted (sdk.sm_set_enabled is_on);
  sm_clear_fifos = noted sdk.sm_clear_fifos;
  sm_restart = noted sdk.sm_restart;
  sm_jump_to_start = noted sdk.sm_jump_to_start;
  sm_put = λ word. noted (sdk.sm_put word);
  rx_is_empty = noted_answer sdk.rx_is_empty;
  sm_get = noted_answer sdk.sm_get;
  gpio_get = λ pin. noted_answer (sdk.gpio_get pin);
}

-- The operations of the port behind `device_init`.
pub data Operation : Type 0 where
  restart take_byte att_is_high : Operation
  answer : ℕ → Bool → Operation

module _ {S : Type 0} (sdk : DeviceSdk S) where
  abbrev pub operate : Operation → S → S
  operate restart s = device_restart sdk s
  operate take_byte s = (device_take_byte sdk s).1
  operate att_is_high s = (device_att_is_high sdk s).1
  operate (answer next should_ack) s = device_answer sdk next should_ack s

  abbrev pub operates : List Operation → S → S
  operates [] s = s
  operates (operation ∷ operations) s = operates operations (operate operation s)

-- No pad can drive high in any of the states.
abbrev pub NeverHigh : {S : Type 0} → (ℕ → S → Pad) → List S → Type 0
NeverHigh pad [] = Unit {0}
NeverHigh pad (s ∷ seen) = ((gpio : ℕ) → can_drive_high (pad gpio s) ≡ false) × NeverHigh pad seen

-- A pad that no program can make drive high.
abbrev pub Settled : Pad → Type 0
Settled pad = ((pad.is_pio ≡ false) × (pad.sio_is_output ≡ false)) ⊎ (pad.is_forced_low ≡ true)

pub Settled-can_drive_high : (pad : Pad) → Settled pad → can_drive_high pad ≡ false
Settled-can_drive_high pad settled = ground arith

pub Settled-runs :
    (pad : Pad) (is_output : Bool)
    → Settled pad
    → Settled (record pad { pio_is_output = is_output })
Settled-runs pad is_output settled = settled
