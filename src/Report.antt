-- ===== src/Report.antt =====
-- The HID gamepad report (src/core/hid_report.h, src/core/hid_report.cpp): its layout and the
-- packing of a guitar state into its bytes. `HidReport` is a list of `report_len` bytes.
pub mod Descriptor
pub mod Host
pub mod Layout
use Prim.Native.Nat.{bit_or}
use pico_sg2hid.Common.{
  ℕ, ◌+◌, ◌-◌, ◌/◌, ◌%◌, ◌^◌, Bool, false, List, if◌then◌else◌, u8, get_or, set, replicate,
}
use pico_sg2hid.Guitar.{GuitarState, Fret, green, red, yellow, blue, orange, fret_index}

pub data Button : Type 0 where
  fret_green fret_red fret_yellow fret_blue fret_orange : Button
  strum_up strum_down start select tilt : Button

abbrev pub button_index : Button → ℕ
button_index fret_green = 0
button_index fret_red = 1
button_index fret_yellow = 2
button_index fret_blue = 3
button_index fret_orange = 4
button_index strum_up = 5
button_index strum_down = 6
button_index start = 7
button_index select = 8
button_index tilt = 9

abbrev pub button_count : ℕ
button_count = 10

abbrev pub bits_per_byte : ℕ
bits_per_byte = 8

abbrev pub button_bytes : ℕ
button_bytes = (button_count + bits_per_byte - 1) / bits_per_byte

abbrev pub whammy_offset : ℕ
whammy_offset = button_bytes

abbrev pub report_len : ℕ
report_len = button_bytes + 1

abbrev pub HidReport : Type 0
HidReport = List ℕ

unfoldable pub set_button : HidReport → Button → Bool → HidReport
set_button report button is_pressed =
    let index = button_index button in
    let at = index / bits_per_byte in
    if is_pressed
    then set report at (u8 (bit_or (get_or report at 0) (u8 (2 ^ (index % bits_per_byte)))))
    else report

unfoldable pub fret_of : GuitarState → Fret → Bool
fret_of state fret = get_or state.is_fret_pressed (fret_index fret) false

unfoldable pub build_report : GuitarState → HidReport
build_report state =
    let report : HidReport = replicate report_len 0 in
    let report = set_button report fret_green (fret_of state green) in
    let report = set_button report fret_red (fret_of state red) in
    let report = set_button report fret_yellow (fret_of state yellow) in
    let report = set_button report fret_blue (fret_of state blue) in
    let report = set_button report fret_orange (fret_of state orange) in
    let report = set_button report strum_up state.is_strum_up in
    let report = set_button report strum_down state.is_strum_down in
    let report = set_button report start state.is_start in
    let report = set_button report select state.is_select in
    let report = set_button report tilt state.is_tilt in set report whammy_offset state.whammy
