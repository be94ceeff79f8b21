-- ===== src/Pins/Calls.antt =====
-- Calls of the SDK that act on one pin, and the states that calls leave: shared by what is said of the
-- drivers of src/hal/ that configure the pins.
use pico_sg2hid.Common.{ℕ, true, false, ◌≡◌, refl, List, ◌∷◌, ◌==◌, if◌then◌else◌}

module _ {A : Type 0} where
  -- What a pin has behind a call that acts on one pin: `changed` at that pin.
  unfoldable pub at_pin : ℕ → ℕ → A → A → A
  at_pin pin gpio changed unchanged = if gpio == pin then changed else unchanged

  pub at_pin_hit : (pin gpio : ℕ) (a b : A) → (gpio == pin) ≡ true → at_pin pin gpio a b ≡ a
  unfolding at_pin
  at_pin_hit pin gpio a b e = rw (e, at_pin) refl

  pub at_pin_miss : (pin gpio : ℕ) (a b : A) → (gpio == pin) ≡ false → at_pin pin gpio a b ≡ b
  unfolding at_pin
  at_pin_miss pin gpio a b e = rw (e, at_pin) refl

-- A call that is noted with the state it leaves, the latest first.
abbrev pub noted : {S : Type 0} → (S → S) → S × List S → S × List S
noted op (s, seen) = (op s, op s ∷ seen)

abbrev pub noted_answer : {S A : Type 0} → (S → A × S) → S × List S → A × (S × List S)
noted_answer op (s, seen) = let (answer, s') = op s in (answer, (s', s' ∷ seen))
