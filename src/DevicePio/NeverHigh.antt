-- ===== src/DevicePio/NeverHigh.antt =====
-- The order in which `device_init` configures the emulator's pins, and the port's operations behind
-- it (src/hal/pio_device.cpp).
use pico_sg2hid.Common.{
  ℕ, ◌≡◌, refl, sym, subst, ap, ◌∙◌, inl, inr, true, false, ◌&&◌, Bool-cases, List, [], ◌∷◌, ◌==◌,
}
use pico_sg2hid.Pins.{PinAssignment, emulator_pins}
use pico_sg2hid.DevicePio.{
  DeviceSdk, is_open_drain, device_config, released_byte, word_for, emulator_gpio, init_pin,
  init_pins, release_pins, device_restart, device_init, device_take_byte, device_answer,
  device_att_is_high,
}
use pico_sg2hid.Pins.Calls.{at_pin_hit, at_pin_miss, noted}
use pico_sg2hid.DevicePio.Pads.{
  Pad, PadLaws, Runs, traced, Operation, restart, take_byte, att_is_high, answer, operate, operates,
  NeverHigh, can_drive_high, Settled, Settled-can_drive_high, Settled-runs,
}
use pico_sg2hid.Pins.{att}

module _ {S : Type 0} (sdk : DeviceSdk S) (pad : ℕ → S → Pad) (laws : PadLaws sdk pad) where
  Fine : S × List S → Type 0
  Fine (s, seen) = ((gpio : ℕ) → Settled (pad gpio s)) × NeverHigh pad seen

  Fine-Settled :
      (s s' : S) (seen : List S)
      → ((gpio : ℕ) → Settled (pad gpio s'))
      → Fine (s, seen)
      → Fine (s', s' ∷ seen)
  unfolding Fine
  Fine-Settled s s' seen settled (_, never) =
      (settled, ((λ gpio. Settled-can_drive_high (pad gpio s') (settled gpio)), never))

  Fine-Runs : (s s' : S) (seen : List S) → Runs pad s s' → Fine (s, seen) → Fine (s', s' ∷ seen)
  unfolding Fine
  Fine-Runs s s' seen runs fine =
      Fine-Settled s s' seen
        (λ gpio.
          let (is_output, e) = runs gpio in
          subst Settled (sym e) (Settled-runs (pad gpio s) is_output (fine.0 gpio)))
        fine

  module _ (pin : ℕ) (s : S) where
    abbrev directed : S
    directed = sdk.sm_set_pindirs pin false s

    abbrev handed : S
    handed = sdk.pio_gpio_init pin directed

    pindirs-Settled : ((gpio : ℕ) → Settled (pad gpio s)) → (gpio : ℕ) → Settled (pad gpio directed)
    pindirs-Settled settled gpio =
        subst Settled (sym (laws.sm_set_pindirs pin false s gpio))
          (elim (Bool-cases (gpio == pin)) [
            | inl e ↦
                subst Settled (sym (at_pin_hit pin gpio _ _ e))
                  (Settled-runs (pad gpio s) false (settled gpio))
            | inr e ↦ subst Settled (sym (at_pin_miss pin gpio _ _ e)) (settled gpio)
          ])

    handed_low :
        ((gpio : ℕ) → Settled (pad gpio s)) → (gpio : ℕ) → can_drive_high (pad gpio handed) ≡ false
    handed_low settled gpio =
        let d = laws.sm_set_pindirs pin false s gpio in
        let h = laws.pio_gpio_init pin directed gpio in
        elim (Bool-cases (gpio == pin)) [
          | inl e ↦
              ap can_drive_high (h ∙ at_pin_hit pin gpio _ _ e)
              ∙ ap (λ p. p.pio_is_output && true) (d ∙ at_pin_hit pin gpio _ _ e)
          | inr e ↦
              ap can_drive_high (h ∙ at_pin_miss pin gpio _ _ e ∙ d ∙ at_pin_miss pin gpio _ _ e)
              ∙ Settled-can_drive_high (pad gpio s) (settled gpio)
        ]

    forced-Settled :
        ((gpio : ℕ) → Settled (pad gpio s))
        → (gpio : ℕ) → Settled (pad gpio (sdk.gpio_set_outover_low pin handed))
    forced-Settled settled gpio =
        let d = laws.sm_set_pindirs pin false s gpio in
        let h = laws.pio_gpio_init pin directed gpio in
        let f = laws.gpio_set_outover_low pin handed gpio in
        elim (Bool-cases (gpio == pin)) [
          | inl e ↦ inr (ap (λ p. p.is_forced_low) (f ∙ at_pin_hit pin gpio _ _ e))
          | inr e ↦
              subst Settled
                (sym (
                  f
                  ∙ at_pin_miss pin gpio _ _ e
                  ∙ h
                  ∙ at_pin_miss pin gpio _ _ e
                  ∙ d
                  ∙ at_pin_miss pin gpio _ _ e))
                (settled gpio)
        ]

    gpio_init-Settled :
        ((gpio : ℕ) → Settled (pad gpio s)) → (gpio : ℕ) → Settled (pad gpio (sdk.gpio_init pin s))
    gpio_init-Settled settled gpio =
        subst Settled (sym (laws.gpio_init pin s gpio)) (elim (Bool-cases (gpio == pin)) [
          | inl e ↦ subst Settled (sym (at_pin_hit pin gpio _ _ e)) (inl (refl, refl))
          | inr e ↦ subst Settled (sym (at_pin_miss pin gpio _ _ e)) (settled gpio)
        ])

  init_pin-Fine :
      (pin : PinAssignment) (t : S × List S) → Fine t → Fine (init_pin (traced sdk) pin t)
  unfolding Fine init_pin
  init_pin-Fine pin (s, seen) (settled, never) = elim (Bool-cases (is_open_drain pin)) [
    | inl e ↦
        rw (e, init_pin)
          (let s₁ = directed pin.gpio s in
            let s₂ = handed pin.gpio s in
            let (settled₁, never₁) =
              Fine-Settled s s₁ seen (pindirs-Settled pin.gpio s settled) (settled, never) in
            let never₂ : NeverHigh pad (s₂ ∷ s₁ ∷ seen) = (handed_low pin.gpio s settled, never₁) in
            let settled₃ = forced-Settled pin.gpio s settled in
            (settled₃, ((λ gpio. Settled-can_drive_high (pad gpio _) (settled₃ gpio)), never₂)))
    | inr e ↦
        rw (e, init_pin)
          (let s₁ = sdk.gpio_init pin.gpio s in
            let s₂ = sdk.gpio_disable_pulls pin.gpio s₁ in
            let fine =
              Fine-Settled s s₁ seen (gpio_init-Settled pin.gpio s settled) (settled, never) in
            Fine-Settled s₁ s₂ (s₁ ∷ seen)
              (λ gpio. subst Settled (sym (laws.gpio_disable_pulls pin.gpio s₁ gpio)) (fine.0 gpio))
              fine)
  ]

  init_pins-Fine :
      (pins : List PinAssignment) (t : S × List S) → Fine t → Fine (init_pins (traced sdk) pins t)
  unfolding init_pins
  init_pins-Fine [] t fine = fine
  init_pins-Fine (pin ∷ pins) t fine =
      init_pins-Fine pins (init_pin (traced sdk) pin t) (init_pin-Fine pin t fine)

  release_pins-Fine :
      (pins : List PinAssignment) (t : S × List S)
      → Fine t
      → Fine (release_pins (traced sdk) pins t)
  unfolding release_pins Fine
  release_pins-Fine [] t fine = fine
  release_pins-Fine (pin ∷ pins) (s, seen) fine = elim (Bool-cases (is_open_drain pin)) [
    | inl e ↦
        rw (e, release_pins)
          (release_pins-Fine pins (directed pin.gpio s, directed pin.gpio s ∷ seen)
            (Fine-Settled s (directed pin.gpio s) seen (pindirs-Settled pin.gpio s fine.0) fine))
    | inr e ↦ rw (e, release_pins) (release_pins-Fine pins (s, seen) fine)
  ]

  Runs-Fine :
      (op : S → S) → ((s : S) → Runs pad s (op s)) → (t : S × List S) → Fine t → Fine (noted op t)
  unfolding Fine
  Runs-Fine op runs (s, seen) fine = Fine-Runs s (op s) seen (runs s) fine

  device_restart-Fine : (t : S × List S) → Fine t → Fine (device_restart (traced sdk) t)
  unfolding device_restart
  device_restart-Fine t fine =
      let stopped = Runs-Fine (sdk.sm_set_enabled false) (laws.sm_set_enabled false) t fine in
      let emptied = Runs-Fine sdk.sm_clear_fifos laws.sm_clear_fifos _ stopped in
      let reset = Runs-Fine sdk.sm_restart laws.sm_restart _ emptied in
      let released = release_pins-Fine emulator_pins _ reset in
      let at_start = Runs-Fine sdk.sm_jump_to_start laws.sm_jump_to_start _ released in
      let word = word_for released_byte false in
      let loaded = Runs-Fine (sdk.sm_put word) (laws.sm_put word) _ at_start in
      Runs-Fine (sdk.sm_set_enabled true) (laws.sm_set_enabled true) _ loaded

  device_init-Fine : (t : S × List S) → Fine t → Fine (device_init (traced sdk) t)
  unfolding device_init
  device_init-Fine t fine =
      let claimed = Runs-Fine sdk.claim_sm laws.claim_sm t fine in
      let loaded = Runs-Fine sdk.add_program laws.add_program _ claimed in
      let configured = init_pins-Fine emulator_pins _ loaded in
      device_restart-Fine _
        (Runs-Fine (sdk.sm_init device_config) (laws.sm_init device_config) _ configured)

  device_take_byte-Fine : (t : S × List S) → Fine t → Fine (device_take_byte (traced sdk) t).1
  unfolding device_take_byte
  device_take_byte-Fine t fine =
      let asked = Runs-Fine (λ s. (sdk.rx_is_empty s).1) laws.rx_is_empty t fine in
      elim (Bool-cases (sdk.rx_is_empty t.0).0) [
        | inl e ↦ rw (e, device_take_byte) asked
        | inr e ↦ rw (e, device_take_byte) (Runs-Fine (λ s. (sdk.sm_get s).1) laws.sm_get _ asked)
      ]

  operate-Fine :
      (operation : Operation) (t : S × List S) → Fine t → Fine (operate (traced sdk) operation t)
  unfolding device_answer device_att_is_high
  operate-Fine restart t fine = device_restart-Fine t fine
  operate-Fine att_is_high t fine =
      Runs-Fine (λ s. (sdk.gpio_get (emulator_gpio att) s).1) (laws.gpio_get (emulator_gpio att)) t
        fine
  operate-Fine (answer next should_ack) t fine =
      Runs-Fine (sdk.sm_put (word_for next should_ack)) (laws.sm_put (word_for next should_ack)) t
        fine
  operate-Fine take_byte t fine = device_take_byte-Fine t fine

  operates-Fine :
      (operations : List Operation) (t : S × List S)
      → Fine t
      → Fine (operates (traced sdk) operations t)
  operates-Fine [] t fine = fine
  operates-Fine (operation ∷ operations) t fine =
      operates-Fine operations (operate (traced sdk) operation t) (operate-Fine operation t fine)

  -- The SDK is a parameter, with what its documentation says of the pads: a pin that is given to PIO or
  -- to the processor loses its output override, and a running program changes directions only.
  -- From hardware on which no pin is given to PIO and none is an output, in every state that
  -- a call of `device_init` leaves, and a call of the port's operations in any order behind it,
  -- no pin can drive high, whatever directions the program chooses.
  pub device_init-NeverHigh :
      (s : S) (operations : List Operation)
      → ((gpio : ℕ) → ((pad gpio s).is_pio ≡ false) × ((pad gpio s).sio_is_output ≡ false))
      → NeverHigh pad (operates (traced sdk) operations (device_init (traced sdk) (s, []))).1
  unfolding Fine
  device_init-NeverHigh s operations unused =
      (operates-Fine operations (device_init (traced sdk) (s, []))
        (device_init-Fine (s, []) ((λ gpio. inl (unused gpio)), tt))).1
