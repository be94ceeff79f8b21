-- ===== src/Pins/Wiring.antt =====
-- The wiring that the tables of src/core/pins.h give two Picos joined pin by pin.
use pico_sg2hid.Common.{
  ℕ, ◌≡◌, refl, sym, ap, ◌∙◌, ◌⊎◌, inl, inr, Option, none, some, List, [], ◌∷◌, ◌==◌, if◌then◌else◌,
}
use pico_sg2hid.Pins.{
  Signal, PinAssignment, data_line, cmd, att, clk, ack, input, output, push_pull,
  open_drain_input_only, input_only, open_drain_output, signal_eq, master_pins, emulator_pins,
  gpio_of,
}

-- The pin that a table assigns to a signal.
abbrev pub pin_of : Signal → List PinAssignment → Option PinAssignment
pin_of signal [] = none
pin_of signal (pin ∷ table) = if signal_eq pin.signal signal then some pin else pin_of signal table

-- One Pico drives the line and the other only reads it. The master drives push-pull; the guitar's
-- lines are open drain on both sides.
abbrev pub Driven : PinAssignment → PinAssignment → Type 0
Driven m e =
    ((m.direction ≡ output)
      × (e.direction ≡ input)
      × (m.drive ≡ push_pull)
      × (e.drive ≡ input_only))
    ⊎ ((m.direction ≡ input)
        × (e.direction ≡ output)
        × (m.drive ≡ open_drain_input_only)
        × (e.drive ≡ open_drain_output))

-- Every signal has a pin on both Picos, under the same GPIO, and exactly one of the two drives it:
-- no signal is an output on both, and no line that the guitar drives is push-pull on either.
pub gpio_of-Driven :
    (signal : Signal)
    → (m : PinAssignment) × (e : PinAssignment) × (pin_of signal master_pins ≡ some m)
      × (pin_of signal emulator_pins ≡ some e)
      × (gpio_of signal master_pins ≡ some m.gpio)
      × (gpio_of signal emulator_pins ≡ some m.gpio)
      × Driven m e
unfolding gpio_of
gpio_of-Driven data_line = (_, _, refl, refl, refl, refl, inr (refl, refl, refl, refl))
gpio_of-Driven cmd = (_, _, refl, refl, refl, refl, inl (refl, refl, refl, refl))
gpio_of-Driven att = (_, _, refl, refl, refl, refl, inl (refl, refl, refl, refl))
gpio_of-Driven clk = (_, _, refl, refl, refl, refl, inl (refl, refl, refl, refl))
gpio_of-Driven ack = (_, _, refl, refl, refl, refl, inr (refl, refl, refl, refl))

signal_at : Option ℕ → Signal
signal_at none = ack
signal_at (some g) =
    if g == 2
    then data_line
    else if g == 3
    then cmd
    else if g == 4
    then att
    else if g == 5
    then clk
    else ack

signal_at-gpio_of : (signal : Signal) → signal_at (gpio_of signal master_pins) ≡ signal
unfolding signal_at gpio_of
signal_at-gpio_of data_line = refl
signal_at-gpio_of cmd = refl
signal_at-gpio_of att = refl
signal_at-gpio_of clk = refl
signal_at-gpio_of ack = refl

-- No two signals share a GPIO.
pub gpio_of-one : (a b : Signal) → gpio_of a master_pins ≡ gpio_of b master_pins → a ≡ b
gpio_of-one a b h = sym (signal_at-gpio_of a) ∙ ap signal_at h ∙ signal_at-gpio_of b
