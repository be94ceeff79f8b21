-- ===== src/Guitar.antt =====
-- A decoded frame as controls (src/core/guitar_state.h, src/core/guitar_state.cpp). The array
-- `is_fret_pressed` is a list of five tests, indexed by `fret_index`.
pub mod Controls
use Prim.Native.Nat.{bit_and}
use pico_sg2hid.Common.{
  ℕ, ◌*◌, ◌-◌, Bool, true, false, ◌||◌, List, [], ◌∷◌, leb, ◌==◌, if◌then◌else◌, u8, get_or, set,
  replicate,
}
use pico_sg2hid.Protocol.{ControllerId, digital, analog, id_eq}
use pico_sg2hid.Frame.{Ps2Frame}

abbrev pub buttons_low_index : ℕ
buttons_low_index = 0

abbrev pub buttons_high_index : ℕ
buttons_high_index = 1

abbrev pub mask_select : ℕ
mask_select = 0x01

abbrev pub mask_start : ℕ
mask_start = 0x08

abbrev pub mask_strum_up : ℕ
mask_strum_up = 0x10

abbrev pub mask_strum_down : ℕ
mask_strum_down = 0x40

abbrev pub mask_tilt : ℕ
mask_tilt = 0x01

abbrev pub mask_fret_green : ℕ
mask_fret_green = 0x02

abbrev pub mask_fret_yellow : ℕ
mask_fret_yellow = 0x10

abbrev pub mask_fret_red : ℕ
mask_fret_red = 0x20

abbrev pub mask_fret_blue : ℕ
mask_fret_blue = 0x40

abbrev pub mask_fret_orange : ℕ
mask_fret_orange = 0x80

abbrev pub whammy_index : ℕ
whammy_index = 5

abbrev pub whammy_axis_rest : ℕ
whammy_axis_rest = 0x7F

abbrev pub whammy_axis_scale : ℕ
whammy_axis_scale = 2

abbrev pub whammy_rest : ℕ
whammy_rest = 0x00

abbrev pub fret_count : ℕ
fret_count = 5

pub data Fret : Type 0 where
  green red yellow blue orange : Fret

abbrev pub fret_index : Fret → ℕ
fret_index green = 0
fret_index red = 1
fret_index yellow = 2
fret_index blue = 3
fret_index orange = 4

pub record GuitarState : Type 0 where
  pub is_fret_pressed : List Bool
  pub is_strum_up : Bool
  pub is_strum_down : Bool
  pub is_start : Bool
  pub is_select : Bool
  pub is_tilt : Bool
  pub whammy : ℕ

-- `GuitarState state{}`: every member zero.
abbrev pub zero_state : GuitarState
zero_state = record {
  is_fret_pressed = replicate fret_count false;
  is_strum_up = false;
  is_strum_down = false;
  is_start = false;
  is_select = false;
  is_tilt = false;
  whammy = 0;
}

unfoldable pub is_pressed : ℕ → ℕ → Bool
is_pressed buttons mask = bit_and buttons mask == 0

abbrev pub reports_controls : ControllerId → Bool
reports_controls id = id_eq id digital || id_eq id analog

unfoldable pub whammy_from_axis : ℕ → ℕ
whammy_from_axis axis =
    if leb whammy_axis_rest axis
    then whammy_rest
    else u8 ((whammy_axis_rest - axis) * whammy_axis_scale)

set_frets : ℕ → GuitarState → GuitarState
set_frets high state =
    let frets = set state.is_fret_pressed (fret_index green) (is_pressed high mask_fret_green) in
    let frets = set frets (fret_index red) (is_pressed high mask_fret_red) in
    let frets = set frets (fret_index yellow) (is_pressed high mask_fret_yellow) in
    let frets = set frets (fret_index blue) (is_pressed high mask_fret_blue) in
    let frets = set frets (fret_index orange) (is_pressed high mask_fret_orange) in
    record state { is_fret_pressed = frets }

unfoldable pub map_frame : Ps2Frame → GuitarState
unfolding set_frets
map_frame frame =
    if reports_controls frame.id
    then (let low = get_or frame.payload buttons_low_index 0 in
        let high = get_or frame.payload buttons_high_index 0 in
        record (set_frets high zero_state) {
          is_strum_up = is_pressed low mask_strum_up;
          is_strum_down = is_pressed low mask_strum_down;
          is_start = is_pressed low mask_start;
          is_select = is_pressed low mask_select;
          is_tilt = is_pressed high mask_tilt;
          whammy =
              if id_eq frame.id analog
              then whammy_from_axis (get_or frame.payload whammy_index 0)
              else whammy_rest;
        })
    else record zero_state { whammy = whammy_rest }
