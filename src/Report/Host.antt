-- ===== src/Report/Host.antt =====
-- How a host reads a report by its descriptor: the short items of HID 1.11, section 6.2.2.2, and
-- the input fields that they declare. An independent description that the report's layout is held
-- to; the firmware has no such code.
use pico_sg2hid.Common.{
  ℕ, zero, suc, ◌+◌, ◌*◌, ◌/◌, ◌%◌, List, [], ◌∷◌, ◌++◌, ◌==◌, if◌then◌else◌, get_or, take, drop,
  length,
}

-- The items in effect: the usage page, the usages still to be handed out, the report's shape.
pub record Items : Type 0 where
  pub page : ℕ
  pub usage : ℕ
  pub size : ℕ
  pub count : ℕ

-- An input field: `count` values of `size` bits; a constant field carries none.
pub record Field : Type 0 where
  pub page : ℕ
  pub first_usage : ℕ
  pub size : ℕ
  pub count : ℕ
  pub is_constant : ℕ

-- One value that the host is told of: its usage page, its usage, its value.
pub record Control : Type 0 where
  pub page : ℕ
  pub usage : ℕ
  pub value : ℕ

-- An item's effect, by its tag and type (the prefix without its two size bits).
put_item : ℕ → ℕ → Items → Items
put_item tag v s =
    if tag == 0x04
    then record s { page = v }
    else if tag == 0x08
    then record s { usage = v }
    else if tag == 0x18
    then record s { usage = v }
    else if tag == 0x74
    then record s { size = v }
    else if tag == 0x94
    then record s { count = v }
    else s

input_field : ℕ → Items → Field
input_field v s = record {
  page = s.page;
  first_usage = s.usage;
  size = s.size;
  count = s.count;
  is_constant = v % 2;
}

-- The fields that a descriptor declares, read item by item: prefix, then 0, 1 or 2 data bytes.
-- The fuel is the descriptor's length.
fields_from : ℕ → Items → List ℕ → List Field
unfolding put_item input_field
fields_from zero s bytes = []
fields_from (suc fuel) s [] = []
fields_from (suc fuel) s (prefix ∷ rest) =
    let size = prefix % 4 in
    let tag = prefix / 4 * 4 in
    let more = fields_from fuel (put_item tag (get_or rest 0 0) s) (drop size rest) in
    if tag == 0x80 then input_field (get_or rest 0 0) s ∷ more else more

pub fields : List ℕ → List Field
unfolding fields_from
fields descriptor =
    fields_from (length descriptor) (record { page = 0; usage = 0; size = 0; count = 0 }) descriptor

-- A byte's bits, the least significant first, as they stand in a report.
bits_from : ℕ → ℕ → List ℕ
bits_from zero b = []
bits_from (suc n) b = b % 2 ∷ bits_from n (b / 2)

report_bits : List ℕ → List ℕ
unfolding bits_from
report_bits [] = []
report_bits (b ∷ bs) = bits_from 8 b ++ report_bits bs

bits_value : List ℕ → ℕ
bits_value [] = 0
bits_value (b ∷ bs) = b + 2 * bits_value bs

-- The values of a field of `count` controls, and the bits behind it.
field_values : ℕ → ℕ → Field → List ℕ → List Control
unfolding bits_value
field_values zero usage f bits = []
field_values (suc n) usage f bits =
    record { page = f.page; usage = usage; value = bits_value (take f.size bits) }
    ∷ field_values n (usage + 1) f (drop f.size bits)

read_fields : List Field → List ℕ → List Control
unfolding field_values
read_fields [] bits = []
read_fields (f ∷ fs) bits =
    (if f.is_constant == 1 then [] else field_values f.count f.first_usage f bits)
    ++ read_fields fs (drop (f.size * f.count) bits)

-- What the host is told by a report, given the device's descriptor.
unfoldable pub read_report : List ℕ → List ℕ → List Control
unfolding fields report_bits read_fields
read_report descriptor report = read_fields (fields descriptor) (report_bits report)
