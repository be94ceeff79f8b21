-- ===== src/Report/Descriptor.antt =====
-- The HID report descriptor (src/core/hid_descriptor.h), item by item, from the constants of the
-- report's layout.
use pico_sg2hid.Common.{ℕ, ◌*◌, ◌-◌, List, [], ◌∷◌, u8}
use pico_sg2hid.Report.{button_count, bits_per_byte, button_bytes}

abbrev pub item_usage_page : ℕ
item_usage_page = 0x05

abbrev pub item_usage : ℕ
item_usage = 0x09

abbrev pub item_collection : ℕ
item_collection = 0xA1

abbrev pub item_end_collection : ℕ
item_end_collection = 0xC0

abbrev pub item_usage_minimum : ℕ
item_usage_minimum = 0x19

abbrev pub item_usage_maximum : ℕ
item_usage_maximum = 0x29

abbrev pub item_logical_minimum : ℕ
item_logical_minimum = 0x15

abbrev pub item_logical_maximum : ℕ
item_logical_maximum = 0x25

abbrev pub item_logical_maximum2 : ℕ
item_logical_maximum2 = 0x26

abbrev pub item_report_size : ℕ
item_report_size = 0x75

abbrev pub item_report_count : ℕ
item_report_count = 0x95

abbrev pub item_input : ℕ
item_input = 0x81

abbrev pub usage_page_generic_desktop : ℕ
usage_page_generic_desktop = 0x01

abbrev pub usage_page_button : ℕ
usage_page_button = 0x09

abbrev pub usage_game_pad : ℕ
usage_game_pad = 0x05

abbrev pub usage_x : ℕ
usage_x = 0x30

abbrev pub collection_application : ℕ
collection_application = 0x01

abbrev pub input_data_var_abs : ℕ
input_data_var_abs = 0x02

abbrev pub input_const_var_abs : ℕ
input_const_var_abs = 0x03

abbrev pub first_button_usage : ℕ
first_button_usage = 0x01

abbrev pub bit_field : ℕ
bit_field = 1

abbrev pub axis_bits : ℕ
axis_bits = 8

abbrev pub axis_maximum : ℕ
axis_maximum = 0xFF

abbrev pub padding_bits : ℕ
padding_bits = button_bytes * bits_per_byte - button_count

unfoldable pub hid_report_descriptor : List ℕ
hid_report_descriptor =
    item_usage_page
    ∷ usage_page_generic_desktop
    ∷ item_usage
    ∷ usage_game_pad
    ∷ item_collection
    ∷ collection_application
    ∷ item_usage_page
    ∷ usage_page_button
    ∷ item_usage_minimum
    ∷ first_button_usage
    ∷ item_usage_maximum
    ∷ u8 button_count
    ∷ item_logical_minimum
    ∷ 0
    ∷ item_logical_maximum
    ∷ 1
    ∷ item_report_size
    ∷ bit_field
    ∷ item_report_count
    ∷ u8 button_count
    ∷ item_input
    ∷ input_data_var_abs
    ∷ item_report_size
    ∷ bit_field
    ∷ item_report_count
    ∷ u8 padding_bits
    ∷ item_input
    ∷ input_const_var_abs
    ∷ item_usage_page
    ∷ usage_page_generic_desktop
    ∷ item_usage
    ∷ usage_x
    ∷ item_logical_minimum
    ∷ 0
    ∷ item_logical_maximum2
    ∷ axis_maximum
    ∷ 0
    ∷ item_report_size
    ∷ axis_bits
    ∷ item_report_count
    ∷ 1
    ∷ item_input
    ∷ input_data_var_abs
    ∷ item_end_collection
    ∷ []
