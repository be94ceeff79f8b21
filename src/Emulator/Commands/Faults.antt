-- ===== src/Emulator/Commands/Faults.antt =====
-- The lines that set a fault, over every value (src/emu/sg_model.cpp).
use pico_sg2hid.Common.{
  ℕ, ◌≤◌, ◌≡◌, false, List, [], ◌∷◌, ◌++◌, arith, ltb, if◌then◌else◌, length, length-append,
  u32_max,
}
use pico_sg2hid.Trace.{dec}
use pico_sg2hid.Trace.Fits.{length-dec}
use pico_sg2hid.Command.{is_empty}
use pico_sg2hid.Emulator.{SgModel, Fault, FaultKind}
use pico_sg2hid.Emulator.Commands.{
  Parsed, parsed, refused, usage_late, max_late_us, fault_text, late_text, space, skip_spaces,
  word_of, behind_word, parse_fault, parse_late, apply,
}
use pico_sg2hid.Emulator.Commands.Numbers.{
  dec_digits-Plain, is_empty-dec, parse_number-dec, Plain-skip_spaces, Plain-word_of,
  Plain-behind_word, Plain-drop_return,
}

-- `fault late `, up to the number.
abbrev pub late_command : List ℕ
late_command = fault_text ++ space ∷ late_text ++ space ∷ []

late_of : ℕ → Parsed Fault
late_of n =
    if ltb 0 n
    then (if ltb max_late_us n
        then refused usage_late
        else parsed (record { kind = FaultKind.late; value = n }))
    else refused usage_late

parse_late-dec : (n : ℕ) → n ≤ u32_max → parse_late (dec n) ≡ late_of n
unfolding parse_late late_of
parse_late-dec n h = rw (parse_number-dec n h, parse_late) (ground arith)

-- The line `fault late n`, for every 32-bit number n in decimal digits: from 1 to 10000 it sets the
-- late fault with that delay and changes nothing else; with any other number it is refused with the
-- usage of that fault.
pub apply-late :
    (m : SgModel) (n : ℕ)
    → n ≤ u32_max
    → apply m (late_command ++ dec n) ≡ (
        if ltb 0 n
        then (if ltb max_late_us n
            then refused usage_late
            else parsed (record m { fault = record { kind = FaultKind.late; value = n } }))
        else refused usage_late)
unfolding apply parse_fault skip_spaces word_of behind_word is_empty
apply-late m n h =
    let p = dec_digits-Plain 20 n in
    let short : ltb 64 (length (late_command ++ dec n)) ≡ false =
      ground (arith, length-append late_command (dec n), length-dec n h) in
    rw (Plain-drop_return late_command (dec n) p (is_empty-dec n), short)
      (rw (Plain-skip_spaces (dec n) p) (
        rw (Plain-word_of (dec n) p, Plain-behind_word (dec n) p, parse_late-dec n h)
          (unfold late_of in ground arith)))
