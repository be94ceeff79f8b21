-- ===== src/Tests/Pads.antt =====
-- The configuration of the pins of both Picos at concrete inputs: pads as a function of the pin.
use pico_sg2hid.Common.{ℕ, ◌≡◌, refl, Bool, true, false, [], ◌∷◌}
use pico_sg2hid.MasterPort.Setup.{SetupSdk, bus_init}
use pico_sg2hid.MasterPort.Idle
use pico_sg2hid.MasterPort.Idle.{MasterPad, SetupLaws, AlwaysQuiet}
use pico_sg2hid.MasterPort.Quiet.{bus_init-Quiet}
use pico_sg2hid.DevicePio.{DeviceSdk, device_init}
use pico_sg2hid.Pins.Calls.{at_pin}
use pico_sg2hid.DevicePio.Pads.{
  Pad, PadLaws, traced, restart, take_byte, answer, operates, NeverHigh,
}
use pico_sg2hid.DevicePio.NeverHigh.{device_init-NeverHigh}

abbrev at_reset : ℕ → Pad
at_reset gpio = record {
  is_pio = false;
  pio_is_output = false;
  sio_is_output = false;
  is_forced_low = false;
}

abbrev touch : ℕ → (Pad → Pad) → (ℕ → Pad) → ℕ → Pad
touch pin change pads gpio = at_pin pin gpio (change (pads gpio)) (pads gpio)

abbrev pad_sdk : DeviceSdk (ℕ → Pad)
pad_sdk = record {
  claim_sm = λ s. s;
  add_program = λ s. s;
  sm_set_pindirs = λ pin is_output. touch pin (λ pad. record pad { pio_is_output = is_output });
  pio_gpio_init = λ pin. touch pin (λ pad. record pad { is_pio = true; is_forced_low = false });
  gpio_set_outover_low = λ pin. touch pin (λ pad. record pad { is_forced_low = true });
  gpio_init = λ pin.
      touch pin
        (λ pad. record pad { is_pio = false; sio_is_output = false; is_forced_low = false });
  gpio_disable_pulls = λ _ s. s;
  sm_init = λ _ s. s;
  sm_set_enabled = λ is_on s gpio. record (s gpio) { pio_is_output = is_on };
  sm_clear_fifos = λ s. s;
  sm_restart = λ s. s;
  sm_jump_to_start = λ s. s;
  sm_put = λ _ s. s;
  rx_is_empty = λ s. (false, s);
  sm_get = λ s. (0, s);
  gpio_get = λ _ s. (true, s);
}

same_pads :
    (s : ℕ → Pad)
    → (gpio : ℕ) → (is_output : Bool) × (s gpio ≡ record (s gpio) { pio_is_output = is_output })
same_pads s gpio = ((s gpio).pio_is_output, refl)

pad_sdk-PadLaws : PadLaws pad_sdk (λ gpio s. s gpio)
pad_sdk-PadLaws = record {
  sm_set_pindirs = λ _ _ _ _. refl;
  pio_gpio_init = λ _ _ _. refl;
  gpio_set_outover_low = λ _ _ _. refl;
  gpio_init = λ _ _ _. refl;
  gpio_disable_pulls = λ _ _ _. refl;
  claim_sm = same_pads;
  add_program = same_pads;
  sm_init = λ _. same_pads;
  sm_set_enabled = λ is_on s gpio. (is_on, refl);
  sm_clear_fifos = same_pads;
  sm_restart = same_pads;
  sm_jump_to_start = same_pads;
  sm_put = λ _. same_pads;
  rx_is_empty = same_pads;
  sm_get = same_pads;
  gpio_get = λ _. same_pads;
}

device_init-NeverHigh_example :
    NeverHigh
      (λ gpio s. s gpio)
      (operates
        (traced pad_sdk)
        (take_byte ∷ answer 0x80 true ∷ restart ∷ [])
        (device_init (traced pad_sdk) (at_reset, []))).1
device_init-NeverHigh_example =
    device_init-NeverHigh pad_sdk (λ gpio s. s gpio) pad_sdk-PadLaws at_reset
      (take_byte ∷ answer 0x80 true ∷ restart ∷ []) (λ _. (refl, refl))

abbrev undriven : ℕ → MasterPad
undriven gpio = record {
  is_pio = false;
  pio_is_output = false;
  pio_level = false;
  sio_is_output = false;
  sio_level = false;
}

abbrev change_pin : ℕ → (MasterPad → MasterPad) → (ℕ → MasterPad) → ℕ → MasterPad
change_pin pin change pads gpio = at_pin pin gpio (change (pads gpio)) (pads gpio)

abbrev setup_sdk : SetupSdk (ℕ → MasterPad)
setup_sdk = record {
  claim_sm = λ s. s;
  add_program = λ s. s;
  gpio_init = λ pin.
      change_pin pin (λ p. record p { is_pio = false; sio_is_output = false; sio_level = false });
  gpio_pull_up = λ pin. change_pin pin (λ p. p);
  gpio_put = λ pin level. change_pin pin (λ p. record p { sio_level = level });
  gpio_set_dir_out = λ pin. change_pin pin (λ p. record p { sio_is_output = true });
  sm_set_pins_with_mask = λ _ _ s. s;
  sm_set_pindirs = λ _ _ s. s;
  pio_gpio_init = λ pin. change_pin pin (λ p. record p { is_pio = true });
  sm_init = λ _ s. s;
  sm_set_enabled = λ is_on s gpio. record (s gpio) { pio_is_output = is_on };
}

as_before :
    (s : ℕ → MasterPad) (gpio : ℕ)
    → (is_output level : Bool) × (s gpio
        ≡ record (s gpio) { pio_is_output = is_output; pio_level = level })
as_before s gpio = ((s gpio).pio_is_output, (s gpio).pio_level, refl)

setup_sdk-SetupLaws : SetupLaws setup_sdk (λ gpio s. s gpio)
setup_sdk-SetupLaws = record {
  gpio_init = λ _ _ _. refl;
  gpio_pull_up = λ _ _ _. refl;
  gpio_put = λ _ _ _ _. refl;
  gpio_set_dir_out = λ _ _ _. refl;
  sm_set_pins_with_mask = λ _ _. as_before;
  sm_set_pindirs = λ _ _. as_before;
  pio_gpio_init = λ _ _ _. refl;
  claim_sm = as_before;
  add_program = as_before;
  sm_init = λ _. as_before;
  sm_set_enabled = λ is_on s gpio. (is_on, (s gpio).pio_level, refl);
}

bus_init-Quiet_example :
    AlwaysQuiet (λ gpio s. s gpio) (bus_init (Idle.traced setup_sdk) (undriven, [])).1
bus_init-Quiet_example =
    bus_init-Quiet setup_sdk (λ gpio s. s gpio) setup_sdk-SetupLaws undriven (λ _. (refl, refl))
