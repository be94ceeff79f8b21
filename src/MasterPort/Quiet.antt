-- ===== src/MasterPort/Quiet.antt =====
-- The calls of `bus_init` in order (src/hal/pio_port.cpp), and what the pins drive behind each.
use pico_sg2hid.Common.{
  ℕ, ◌≡◌, refl, sym, subst, ap, ◌∙◌, inl, inr, true, false, Bool-cases, ◌==◌, List, [], ◌∷◌,
}
use pico_sg2hid.Pins.Calls.{at_pin, at_pin_hit, at_pin_miss, noted}
use pico_sg2hid.Pins.{gpio_of, data_line, att, ack, master_pins}
use pico_sg2hid.MasterPort.{master_gpio}
use pico_sg2hid.MasterPort.Setup.{SetupSdk, bus_config, set_up_pin, set_up_pins, bus_init}
use pico_sg2hid.MasterPort.Idle.{
  MasterPad, Runs, Touches, SetupLaws, traced, Undriven, Idle, Quiet, AlwaysQuiet,
}

module _ {S : Type 0} (sdk : SetupSdk S) (pad : ℕ → S → MasterPad) (laws : SetupLaws sdk pad) where
  Fine : S × List S → Type 0
  Fine (s, seen) = Quiet pad s × AlwaysQuiet pad seen

  noted-Fine :
      (op : S → S)
      → ((s : S) → Quiet pad s → Quiet pad (op s))
      → (t : S × List S) → Fine t
      → Fine (noted op t)
  unfolding Fine
  noted-Fine op keeps (s, seen) (quiet, always) = (keeps s quiet, (keeps s quiet, always))

  Runs-Quiet : (s s' : S) → Runs pad s s' → Quiet pad s → Quiet pad s'
  Runs-Quiet s s' runs (data_quiet, att_quiet, ack_quiet) =
      let (_, _, d) = runs (master_gpio data_line) in
      let (_, _, a) = runs (master_gpio att) in
      let (_, _, k) = runs (master_gpio ack) in
      (
        subst Undriven (sym d) data_quiet,
        subst Idle (sym a) att_quiet,
        subst Undriven (sym k) ack_quiet,
      )

  -- A call of one pin whose change keeps what each of the three pins is to be.
  Touches-Quiet :
      (pin : ℕ) (change : MasterPad → MasterPad) (s s' : S)
      → Touches pad pin change s s'
      → ((p : MasterPad) → Undriven p → Undriven (at_pin pin (master_gpio data_line) (change p) p))
      → ((p : MasterPad) → Idle p → Idle (at_pin pin (master_gpio att) (change p) p))
      → ((p : MasterPad) → Undriven p → Undriven (at_pin pin (master_gpio ack) (change p) p))
      → Quiet pad s
      → Quiet pad s'
  Touches-Quiet pin change s s' touches for_data for_att for_ack
        (data_quiet, att_quiet, ack_quiet) =
      (
        subst Undriven (sym (touches (master_gpio data_line))) (for_data _ data_quiet),
        subst Idle (sym (touches (master_gpio att))) (for_att _ att_quiet),
        subst Undriven (sym (touches (master_gpio ack))) (for_ack _ ack_quiet),
      )

  either :
      (P : MasterPad → Type 0) (pin gpio : ℕ) (a b : MasterPad)
      → P a
      → P b
      → P (at_pin pin gpio a b)
  either P pin gpio a b x y = elim (Bool-cases (gpio == pin)) [
    | inl e ↦ subst P (sym (at_pin_hit pin gpio a b e)) x
    | inr e ↦ subst P (sym (at_pin_miss pin gpio a b e)) y
  ]

  gpio_init-Quiet : (pin : ℕ) (s : S) → Quiet pad s → Quiet pad (sdk.gpio_init pin s)
  gpio_init-Quiet pin s =
      let change =
        λ (p : MasterPad). record p { is_pio = false; sio_is_output = false; sio_level = false } in
      Touches-Quiet pin change s _ (laws.gpio_init pin s)
        (λ p u. either Undriven pin _ (change p) p (refl, refl) u)
        (λ p i. either Idle pin _ (change p) p (refl, inl refl) i)
        (λ p u. either Undriven pin _ (change p) p (refl, refl) u)

  gpio_pull_up-Quiet : (pin : ℕ) (s : S) → Quiet pad s → Quiet pad (sdk.gpio_pull_up pin s)
  gpio_pull_up-Quiet pin s =
      Touches-Quiet pin (λ p. p) s _ (laws.gpio_pull_up pin s)
        (λ p u. either Undriven pin _ p p u u) (λ p i. either Idle pin _ p p i i)
        (λ p u. either Undriven pin _ p p u u)

  gpio_put-Quiet : (pin : ℕ) (s : S) → Quiet pad s → Quiet pad (sdk.gpio_put pin true s)
  gpio_put-Quiet pin s =
      let change = λ (p : MasterPad). record p { sio_level = true } in
      Touches-Quiet pin change s _ (laws.gpio_put pin true s)
        (λ p u. either Undriven pin _ (change p) p u u)
        (λ p i. either Idle pin _ (change p) p (i.0, inr refl) i)
        (λ p u. either Undriven pin _ (change p) p u u)

  -- A pin of the table that the guitar drives.
  input_pin-Fine :
      (pin : ℕ) (t : S × List S)
      → Fine t
      → Fine (noted (sdk.gpio_pull_up pin) (noted (sdk.gpio_init pin) t))
  input_pin-Fine pin t fine =
      noted-Fine (sdk.gpio_pull_up pin) (gpio_pull_up-Quiet pin) _
        (noted-Fine (sdk.gpio_init pin) (gpio_init-Quiet pin) t fine)

  -- ATT is high before it is an output.
  att_pin-Fine :
      (t : S × List S)
      → Fine t
      → Fine
          (noted (sdk.gpio_set_dir_out 4) (noted (sdk.gpio_put 4 true) (noted (sdk.gpio_init 4) t)))
  unfolding Fine gpio_of at_pin
  att_pin-Fine (s, seen) fine =
      let s₁ = sdk.gpio_init 4 s in
      let s₂ = sdk.gpio_put 4 true s₁ in
      let (quiet, always) =
        noted-Fine (sdk.gpio_put 4 true) (gpio_put-Quiet 4) (s₁, s₁ ∷ seen)
          (noted-Fine (sdk.gpio_init 4) (gpio_init-Quiet 4) (s, seen) fine) in
      let is_high : (pad 4 s₂).sio_level ≡ true =
        ap (λ p. p.sio_level) (laws.gpio_put 4 true s₁ 4) in
      let e = laws.gpio_set_dir_out 4 s₂ in
      let quiet' : Quiet pad (sdk.gpio_set_dir_out 4 s₂) = (
        subst Undriven (sym (e 2)) quiet.0,
        (ap (λ p. p.is_pio) (e 4) ∙ quiet.1.0, inr (ap (λ p. p.sio_level) (e 4) ∙ is_high)),
        subst Undriven (sym (e 6)) quiet.2,
      ) in
      (quiet', (quiet', always))

  -- A pin that the state machine drives, which is none of the three.
  pio_pin-Fine :
      (pin mask : ℕ) (t : S × List S)
      → ((s : S) → Quiet pad s → Quiet pad (sdk.pio_gpio_init pin s))
      → Fine t
      → Fine (
          noted
            (sdk.pio_gpio_init pin)
            (noted (sdk.sm_set_pindirs pin true) (noted (sdk.sm_set_pins_with_mask mask mask) t)))
  pio_pin-Fine pin mask t keeps fine =
      let set =
        noted-Fine (sdk.sm_set_pins_with_mask mask mask)
          (λ s. Runs-Quiet s _ (laws.sm_set_pins_with_mask mask mask s)) t fine in
      let directed =
        noted-Fine (sdk.sm_set_pindirs pin true)
          (λ s. Runs-Quiet s _ (laws.sm_set_pindirs pin true s)) _ set in
      noted-Fine (sdk.pio_gpio_init pin) keeps _ directed

  pio_gpio_init-Quiet :
      (s : S) → Quiet pad s → Quiet pad (sdk.pio_gpio_init 3 s) × Quiet pad (sdk.pio_gpio_init 5 s)
  unfolding gpio_of at_pin
  pio_gpio_init-Quiet s quiet =
      let change = λ (p : MasterPad). record p { is_pio = true } in
      (
        Touches-Quiet 3 change s _ (laws.pio_gpio_init 3 s) (λ p u. u) (λ p i. i) (λ p u. u) quiet,
        Touches-Quiet 5 change s _ (laws.pio_gpio_init 5 s) (λ p u. u) (λ p i. i) (λ p u. u) quiet,
      )

  set_up_pins-Fine : (t : S × List S) → Fine t → Fine (set_up_pins (traced sdk) master_pins t)
  unfolding set_up_pins set_up_pin
  set_up_pins-Fine t fine =
      let data_fine = input_pin-Fine 2 t fine in
      let cmd_fine = pio_pin-Fine 3 8 _ (λ s quiet. (pio_gpio_init-Quiet s quiet).0) data_fine in
      let att_fine = att_pin-Fine _ cmd_fine in
      let clk_fine = pio_pin-Fine 5 32 _ (λ s quiet. (pio_gpio_init-Quiet s quiet).1) att_fine in
      input_pin-Fine 6 _ clk_fine

  bus_init-Fine : (t : S × List S) → Fine t → Fine (bus_init (traced sdk) t)
  unfolding bus_init
  bus_init-Fine t fine =
      let claimed = noted-Fine sdk.claim_sm (λ s. Runs-Quiet s _ (laws.claim_sm s)) t fine in
      let loaded =
        noted-Fine sdk.add_program (λ s. Runs-Quiet s _ (laws.add_program s)) _ claimed in
      let pins = set_up_pins-Fine _ loaded in
      let configured =
        noted-Fine (sdk.sm_init bus_config) (λ s. Runs-Quiet s _ (laws.sm_init bus_config s)) _
          pins in
      noted-Fine (sdk.sm_set_enabled true) (λ s. Runs-Quiet s _ (laws.sm_set_enabled true s)) _
        configured

  -- The SDK is a parameter, with what its documentation says of the pads. From hardware on which no
  -- pin is given to PIO and none is an output, in every state that a call of `bus_init` leaves
  -- nothing on the master drives DATA or ACK, and ATT is not driven or driven high.
  pub bus_init-Quiet :
      (s : S)
      → ((gpio : ℕ) → Undriven (pad gpio s))
      → AlwaysQuiet pad (bus_init (traced sdk) (s, [])).1
  unfolding Fine
  bus_init-Quiet s unused =
      (bus_init-Fine (s, []) ((unused _, ((unused _).0, inl (unused _).1), unused _), tt)).1
