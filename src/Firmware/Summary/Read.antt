-- ===== src/Firmware/Summary/Read.antt =====
-- What a host reads in the summary of the master firmware (src/app/main.cpp): the reader is no part of
-- the program.
use pico_sg2hid.Common.{
  ℕ, ◌+◌, ◌*◌, ◌/◌, ◌%◌, ◌<◌, ◌≡◌, refl, false, List, [], ◌∷◌, ◌==◌, arith, get_or,
}
use pico_sg2hid.Trace.{hex_digits}
use pico_sg2hid.Host.{digit, hex-legible}
use pico_sg2hid.Firmware.Summary.{c_string, report_text, report_loop, snprintf, put_chars}

-- The bytes of a text `XX XX … XX`.
unfoldable pub read_report_text : List ℕ → List ℕ
read_report_text (high ∷ low ∷ []) = (digit high * 16 + digit low) ∷ []
read_report_text (high ∷ low ∷ sep ∷ rest) = (digit high * 16 + digit low) ∷ read_report_text rest
read_report_text _ = []

-- No digit of a byte is a NUL.
hex-no_nul :
    (byte : ℕ)
    → byte < 256
    → (get_or hex_digits (byte / 16 % 16) 0 == 0 ≡ false)
      × (get_or hex_digits (byte % 16) 0 == 0 ≡ false)
hex-no_nul byte below = let (h, l, e) = hex-legible byte below in (ground arith, ground arith)

-- The buffer holds the text of a whole report with its NUL: whatever the three bytes are, a reader
-- of the summary's `report=` gets each of them back.
pub report_text-Read :
    (first second whammy : ℕ)
    → first < 256
    → second < 256
    → whammy < 256
    → read_report_text (c_string (report_text (first ∷ second ∷ whammy ∷ [])))
      ≡ first ∷ second ∷ whammy ∷ []
unfolding report_text report_loop snprintf put_chars c_string read_report_text
report_text-Read first second whammy b₁ b₂ b₃ =
    let (h₁, l₁) = hex-no_nul first b₁ in
    let (h₂, l₂) = hex-no_nul second b₂ in
    let (h₃, l₃) = hex-no_nul whammy b₃ in
    let (_, _, e₁) = hex-legible first b₁ in
    let (_, _, e₂) = hex-legible second b₂ in
    let (_, _, e₃) = hex-legible whammy b₃ in rw (h₁, l₁, h₂, l₂, h₃, l₃, e₁, e₂, e₃) refl
