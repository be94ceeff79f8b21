-- ===== src/DevicePio/Words.antt =====
-- The words that the emulator hands its state machine (src/hal/pio_device.cpp).
use pico_sg2hid.Common.{
  ℕ, ◌+◌, ◌-◌, ◌*◌, ◌<◌, ◌≡◌, refl, Bool, true, false, ◌==◌, ==_iff, if◌then◌else◌,
}
use pico_sg2hid.Common.Bits.{passes, holds_of_byte}
use pico_sg2hid.DevicePio.{word_for}

-- The lowest bit of the word is the ACK flag, and the eight bits above it are the byte inverted, a one
-- for every line level that pulls DATA low.
pub word_for_byte :
    (next : ℕ) (should_ack : Bool)
    → next < 256
    → word_for next should_ack ≡ ((255 - next) * 2) + (if should_ack then 1 else 0)
unfolding passes
word_for_byte next true h =
    (==_iff (word_for next true) ((255 - next) * 2 + 1)).0
      (holds_of_byte (λ byte. word_for byte true == ((255 - byte) * 2) + 1) next refl h)
word_for_byte next false h =
    (==_iff (word_for next false) ((255 - next) * 2 + 0)).0
      (holds_of_byte (λ byte. word_for byte false == ((255 - byte) * 2) + 0) next refl h)
