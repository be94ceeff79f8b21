-- ===== src/Usb/Strings/Read.antt =====
-- What a host reads from a string descriptor (src/usb/usb_device.cpp): no part of the program, and
-- written from the USB specification.
use mathlib.Core.List.{append_assoc}
use Prim.Native.Nat.{bit_or}
use pico_sg2hid.Common.{
  ℕ, zero, suc, ◌+◌, ◌-◌, ◌*◌, ◌/◌, ◌%◌, ◌≤◌, ◌<◌, ◌≡◌, refl, sym, ap, ◌∙◌, inl, inr, Bool-cases,
  Option-cases, ltb-true, ltb-false, Option, none, some, List, [], ◌∷◌, ◌++◌, map, arith, ltb, u8,
  length, get_or, set, take, drop, ◌==◌, ==_iff, length-append, length-take, set-append,
  take-append, take_all, take_short,
}
use pico_sg2hid.Common.Bits.{passes, holds_of_byte}
use pico_sg2hid.Usb.Strings.{
  StringIndex, language, manufacturer, product, serial_number, string_index, manufacturer_text,
  product_text, put_units, finish_string, string_descriptor, descriptor_string_cb,
}

-- The type of a descriptor, and its code units: as many as its length in bytes says.
pub record Read : Type 0 where
  pub descriptor_type : ℕ
  pub units : List ℕ

abbrev pub read_string : List ℕ → Read
read_string [] = record { descriptor_type = 0; units = [] }
read_string (header ∷ buffer) = record {
  descriptor_type = header / 256;
  units = take (header % 256 / 2 - 1) buffer;
}

-- The type of a string descriptor in the USB specification is 3.
header-sum :
    (length_bytes : ℕ)
    → length_bytes < 256
    → bit_or (3 * 256) length_bytes % 65536 ≡ 768 + length_bytes
unfolding passes
header-sum n h =
    (==_iff (bit_or (3 * 256) n % 65536) (768 + n)).0
      (holds_of_byte (λ b. (bit_or (3 * 256) b % 65536) == 768 + b) n refl h)

drop-cons :
    (i : ℕ) (text : List ℕ) → i < length text → drop i text ≡ get_or text i 0 ∷ drop (suc i) text
drop-cons i [] h = absurd (omega arith)
drop-cons zero (c ∷ text) h = refl
drop-cons (suc i) (c ∷ text) h = drop-cons i text (omega arith)

put_units-lem :
    (n : ℕ) (text : List ℕ) (h : ℕ) (pre old : List ℕ)
    → n ≤ length old
    → length pre + n ≤ length text
    → put_units n (length pre) text (h ∷ pre ++ old)
      ≡ h ∷ (pre ++ (map u8 (take n (drop (length pre) text)) ++ drop n old))
unfolding put_units
put_units-lem zero text h pre old a b = refl
put_units-lem (suc n) text h pre [] a b = absurd (omega arith)
put_units-lem (suc n) text h pre (o ∷ old) a b =
    let v = u8 (get_or text (length pre) 0) in
    let at : suc (length pre) ≡ length (pre ++ v ∷ []) =
      omega (arith, length-append pre (v ∷ [])) in
    let ih =
      put_units-lem n text h (pre ++ v ∷ []) old (omega arith)
        (omega (arith, length-append pre (v ∷ []))) in
    ap (λ b. put_units n (suc (length pre)) text (h ∷ b)) (set-append pre o v old)
    ∙ rw (drop-cons (length pre) text (omega arith)) (
        rw
          (
            at,
            ← append_assoc pre (v ∷ []) old,
            ← append_assoc pre (v ∷ [])
                (map u8 (take n (drop (length (pre ++ v ∷ [])) text)) ++ drop n old),
          )
          ih)

length-map-u8 : (text : List ℕ) → length (map u8 text) ≡ length text
length-map-u8 [] = refl
length-map-u8 (c ∷ text) = ap suc (length-map-u8 text)

abbrev string_of : List ℕ → Read
string_of units = record { descriptor_type = 3; units = units }

module _ (id_size : ℕ) (fits : 2 * (2 * id_size + 1) < 256) where
  finish_string-Read :
      (count h : ℕ) (units rest : List ℕ)
      → length units ≡ count
      → count ≤ 2 * id_size
      → read_string (finish_string id_size 3 count (h ∷ units ++ rest)) ≡ string_of units
  unfolding finish_string
  finish_string-Read count h units rest e short =
      let header : bit_or (3 * 256) (2 * (count + 1)) % 65536 ≡ 768 + 2 * (count + 1) =
        header-sum (2 * (count + 1)) (omega arith) in
      let taken : take count (units ++ rest) ≡ units =
        take-append count units rest (omega arith) ∙ take_all count units e in
      let a : (768 + 2 * (count + 1)) / 256 ≡ 3 = omega arith in
      let b : (768 + 2 * (count + 1)) % 256 / 2 - 1 ≡ count = omega arith in
      rw header (rw (a, b, taken) refl)

  -- A string of as many characters as are put into the buffer.
  filled-Read :
      (count h : ℕ) (text old : List ℕ)
      → length old ≡ 2 * id_size
      → count ≤ 2 * id_size
      → count ≤ length text
      → read_string (finish_string id_size 3 count (put_units count 0 text (h ∷ old)))
        ≡ string_of (map u8 (take count text))
  filled-Read count h text old e short whole =
      ap (λ b. read_string (finish_string id_size 3 count b))
        (put_units-lem count text h [] old (omega arith) (omega arith))
      ∙ finish_string-Read count h (map u8 (take count text)) (drop count old)
          (length-map-u8 (take count text) ∙ omega (arith, length-take count text)) short

  string_descriptor-Read :
      (text buffer : List ℕ)
      → length buffer ≡ 2 * id_size + 1
      → read_string (string_descriptor id_size 3 text buffer)
        ≡ string_of (map u8 (take (2 * id_size) text))
  unfolding string_descriptor
  string_descriptor-Read text [] e = absurd (omega arith)
  string_descriptor-Read text (h ∷ old) e = elim (Bool-cases (ltb (length text) (2 * id_size))) [
    | inl b ↦
        let below = ltb-true b in
        let all : take (length text) text ≡ take (2 * id_size) text =
          take_all (length text) text refl ∙ sym (take_short (2 * id_size) text (omega arith)) in
        rw b (
          filled-Read (length text) h text old (omega arith) (omega arith) (omega arith)
          ∙ ap (λ t. string_of (map u8 t)) all)
    | inr b ↦
        let above = ltb-false b in
        rw b (filled-Read (2 * id_size) h text old (omega arith) (omega arith) (omega arith))
  ]

  language-Read :
      (buffer : List ℕ)
      → 1 ≤ id_size
      → length buffer ≡ 2 * id_size + 1
      → read_string (finish_string id_size 3 1 (set buffer 1 0x0409)) ≡ string_of (0x0409 ∷ [])
  language-Read [] big e = absurd (omega arith)
  language-Read (h ∷ []) big e = absurd (omega arith)
  language-Read (h ∷ o ∷ old) big e = finish_string-Read 1 h (0x0409 ∷ []) old refl (omega arith)

  abbrev pub read_given : Option (List ℕ) → Option Read
  read_given none = none
  read_given (some buffer) = some (read_string buffer)

  -- The string for an index: none for the null pointer.
  abbrev pub string_at : List ℕ → Option StringIndex → Option Read
  string_at board_serial none = none
  string_at board_serial (some language) = some (string_of (0x0409 ∷ []))
  string_at board_serial (some manufacturer) = some (string_of manufacturer_text)
  string_at board_serial (some product) = some (string_of product_text)
  string_at board_serial (some serial_number) =
      some (string_of (map u8 (take (2 * id_size) board_serial)))

  -- The type of a string descriptor is 3, as the USB specification has it. With a buffer for a board
  -- id of at least seven bytes, a descriptor of at most 255 bytes, and whatever the buffer held before: a host that reads the descriptor by its header finds a string
  -- descriptor of the language, the manufacturer, the product or the serial number, each for its
  -- index and whole, but the serial number cut to the buffer; any other index gives the null pointer.
  pub descriptor_string_cb-Read :
      (board_serial : List ℕ) (index : ℕ) (buffer : List ℕ)
      → 7 ≤ id_size
      → length buffer ≡ 2 * id_size + 1
      → read_given (descriptor_string_cb id_size 3 board_serial index buffer).0
        ≡ string_at board_serial (string_index index)
  unfolding descriptor_string_cb
  descriptor_string_cb-Read board_serial index buffer big e =
      elim (Option-cases (string_index index)) [
        | inl n ↦ rw (n, descriptor_string_cb) refl
        | inr (language, i) ↦
            rw (i, descriptor_string_cb) (ap some (language-Read buffer (omega arith) e))
        | inr (manufacturer, i) ↦
            rw (i, descriptor_string_cb)
              (ap some (
                string_descriptor-Read manufacturer_text buffer e
                ∙ ap (λ t. string_of (map u8 t))
                    (take_short (2 * id_size) manufacturer_text (omega arith))))
        | inr (product, i) ↦
            rw (i, descriptor_string_cb)
              (ap some (
                string_descriptor-Read product_text buffer e
                ∙ ap (λ t. string_of (map u8 t))
                    (take_short (2 * id_size) product_text (omega arith))))
        | inr (serial_number, i) ↦
            rw (i, descriptor_string_cb) (ap some (string_descriptor-Read board_serial buffer e))
      ]
