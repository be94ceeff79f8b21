-- ===== src/Usb/Strings.antt =====
-- The string descriptors of the USB device (src/usb/usb_device.cpp). The size of the board's id, the
-- type of a string descriptor and the board's serial number are the Pico SDK's and TinyUSB's:
-- parameters. The static buffer is an argument and a result.
pub mod Read
use Prim.Native.Nat.{bit_or}
use pico_sg2hid.Common.{
  ℕ, zero, suc, ◌+◌, ◌*◌, ◌%◌, ◌^◌, Option, none, some, List, [], ◌∷◌, ltb, ◌==◌, if◌then◌else◌, u8,
  length, get_or, set,
}

pub data StringIndex : Type 0 where
  language manufacturer product serial_number : StringIndex

-- The index that the host asks for; any other has no string.
abbrev pub string_index : ℕ → Option StringIndex
string_index index =
    if index == 0
    then some language
    else if index == 1
    then some manufacturer
    else if index == 2
    then some product
    else if index == 3
    then some serial_number
    else none

abbrev pub manufacturer_text : List ℕ
manufacturer_text = b'p' ∷ b'i' ∷ b'c' ∷ b'o' ∷ b'-' ∷ b's' ∷ b'g' ∷ b'2' ∷ b'h' ∷ b'i' ∷ b'd' ∷ []

abbrev pub product_text : List ℕ
product_text =
    b'S' ∷ b'G' ∷ b'2' ∷ b'H' ∷ b'I' ∷ b'D' ∷ 32 ∷ b'G' ∷ b'u' ∷ b'i' ∷ b't' ∷ b'a' ∷ b'r' ∷ []

abbrev pub language_en_us : ℕ
language_en_us = 0x0409

abbrev pub string_type_shift : ℕ
string_type_shift = 8

-- `string_buffer[ i + 1 ] = …` for the code units, by the rounds left.
unfoldable pub put_units : ℕ → ℕ → List ℕ → List ℕ → List ℕ
put_units zero i text buffer = buffer
put_units (suc n) i text buffer =
    put_units n (suc i) text (set buffer (suc i) (u8 (get_or text i 0)))

module _ (id_size desc_string : ℕ) where
  abbrev pub max_string_chars : ℕ
  max_string_chars = 2 * id_size

  -- The header word: the type, and the length in bytes.
  unfoldable pub finish_string : ℕ → List ℕ → List ℕ
  finish_string count buffer =
      set buffer 0 (bit_or (desc_string * 2 ^ string_type_shift) (2 * (count + 1)) % 2 ^ 16)

  unfoldable pub string_descriptor : List ℕ → List ℕ → List ℕ
  string_descriptor text buffer =
      let count = if ltb (length text) max_string_chars then length text else max_string_chars in
      finish_string count (put_units count 0 text buffer)

  -- `tud_descriptor_string_cb`: the buffer that TinyUSB is pointed to, or the null pointer, and the
  -- buffer that is left.
  unfoldable pub descriptor_string_cb : List ℕ → ℕ → List ℕ → Option (List ℕ) × List ℕ
  descriptor_string_cb board_serial index buffer = elim (string_index index) [
    | none ↦ (none, buffer)
    | some language ↦
        (let filled = finish_string 1 (set buffer 1 language_en_us) in (some filled, filled))
    | some manufacturer ↦
        (let filled = string_descriptor manufacturer_text buffer in (some filled, filled))
    | some product ↦ (let filled = string_descriptor product_text buffer in (some filled, filled))
    | some serial_number ↦
        (let filled = string_descriptor board_serial buffer in (some filled, filled))
  ]
