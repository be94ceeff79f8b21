-- ===== src/Report/Layout.antt =====
-- The layout of the report that `build_report` (src/core/hid_report.cpp) packs, and what a host
-- reads from it by the descriptor of src/core/hid_descriptor.h.
use Prim.Native.Nat.{bit_or}
use native.Mathlib.Nat.{add-zero}
use pico_sg2hid.Common.{
  ℕ, ◌+◌, ◌*◌, ◌/◌, ◌%◌, ◌^◌, ◌≤◌, ◌<◌, ◌≡◌, refl, ap, ◌∙◌, Bool, true, false, ◌&&◌, [], ◌∷◌, arith,
  ◌==◌, ==_iff, if◌then◌else◌, u8,
}
use pico_sg2hid.Guitar.{GuitarState}
use pico_sg2hid.Report.Descriptor.{hid_report_descriptor}
use pico_sg2hid.Report.Host.{Control, read_report}
use pico_sg2hid.Report.{
  Button, fret_green, fret_red, fret_yellow, fret_blue, fret_orange, strum_up, strum_down, start,
  select, tilt, button_index, set_button, fret_of, build_report,
}

-- The guitar state with its five frets named.
abbrev pub state_of : (g r y b o up down st se ti : Bool) → ℕ → GuitarState
state_of g r y b o up down st se ti whammy = record {
  is_fret_pressed = g ∷ r ∷ y ∷ b ∷ o ∷ [];
  is_strum_up = up;
  is_strum_down = down;
  is_start = st;
  is_select = se;
  is_tilt = ti;
  whammy = whammy;
}

cell : ℕ → Button → Bool → ℕ → ℕ
cell at button p x =
    if button_index button / 8 == at && p
    then u8 (bit_or x (u8 (2 ^ (button_index button % 8))))
    else x

set_button-cell :
    (x y z : ℕ) (button : Button) (p : Bool)
    → set_button (x ∷ y ∷ z ∷ []) button p ≡ cell 0 button p x ∷ cell 1 button p y ∷ z ∷ []
unfolding set_button cell
set_button-cell x y z fret_green true = refl
set_button-cell x y z fret_green false = refl
set_button-cell x y z _ true = refl
set_button-cell x y z _ false = refl

abbrev pub one_if : Bool → ℕ
one_if true = 1
one_if false = 0

one_if-le : (b : Bool) → one_if b ≤ 1
one_if-le true = omega arith
one_if-le false = omega arith

-- The byte with the given bits, the least significant first.
abbrev pub byte_of : (a b c d e f g h : Bool) → ℕ
byte_of a b c d e f g h =
    one_if a
    + 2 * one_if b
    + 4 * one_if c
    + 8 * one_if d
    + 16 * one_if e
    + 32 * one_if f
    + 64 * one_if g
    + 128 * one_if h

all_bool : (Bool → Bool) → Bool
all_bool p = p true && p false

all_bool_sound : (p : Bool → Bool) (b : Bool) → all_bool p ≡ true → p b ≡ true
unfolding all_bool
all_bool_sound p true h = ground arith
all_bool_sound p false h = ground arith

low_byte : (a b c d e f g h : Bool) → ℕ
unfolding cell
low_byte a b c d e f g h = cell 0 start h (
    cell 0 strum_down g (
      cell 0 strum_up f (
        cell 0 fret_orange e
          (cell 0 fret_blue d (cell 0 fret_yellow c (cell 0 fret_red b (cell 0 fret_green a 0)))))))

low_byte_table :
    all_bool (λ a. all_bool λ b. all_bool λ c. all_bool λ d. all_bool λ e.
      all_bool λ f. all_bool λ g. all_bool λ h. low_byte a b c d e f g h == byte_of a b c d e f g h)
    ≡ true
unfolding all_bool low_byte
low_byte_table = refl

low_byte_lem : (a b c d e f g h : Bool) → low_byte a b c d e f g h ≡ byte_of a b c d e f g h
low_byte_lem a b c d e f g h = (==_iff _ _).0 (
    all_bool_sound _ h (
      all_bool_sound _ g (
        all_bool_sound _ f (
          all_bool_sound _ e (
            all_bool_sound _ d
              (all_bool_sound _ c (all_bool_sound _ b (all_bool_sound _ a low_byte_table))))))))

build_report-cells :
    (g r y b o up down st se ti : Bool) (w : ℕ)
    → build_report (state_of g r y b o up down st se ti w)
      ≡ low_byte g r y b o up down st ∷ cell 1 tilt ti (cell 1 select se 0) ∷ w ∷ []
unfolding build_report fret_of
build_report-cells g r y b o up down st se ti w =
    simp set_button-cell (unfold cell low_byte in refl)

high_byte :
    (se ti : Bool)
    → cell 1 tilt ti (cell 1 select se 0) ≡ byte_of se ti false false false false false false
unfolding cell
high_byte true true = refl
high_byte true false = refl
high_byte false true = refl
high_byte false false = refl

-- The report is three bytes: the ten buttons in order, one bit each and set while pressed, the six
-- padding bits clear, then the whammy as it is.
pub build_report_lem :
    (g r y b o up down st se ti : Bool) (w : ℕ)
    → build_report (state_of g r y b o up down st se ti w)
      ≡ byte_of g r y b o up down st ∷ byte_of se ti false false false false false false ∷ w ∷ []
build_report_lem g r y b o up down st se ti w =
    build_report-cells g r y b o up down st se ti w
    ∙ rw (low_byte_lem g r y b o up down st, high_byte se ti)

pub byte_of_bits :
    (a b c d e f g h : Bool)
    → let x = byte_of a b c d e f g h in
      (x < 256)
      × (x % 2 ≡ one_if a)
      × (x / 2 % 2 ≡ one_if b)
      × (x / 2 / 2 % 2 ≡ one_if c)
      × (x / 2 / 2 / 2 % 2 ≡ one_if d)
      × (x / 2 / 2 / 2 / 2 % 2 ≡ one_if e)
      × (x / 2 / 2 / 2 / 2 / 2 % 2 ≡ one_if f)
      × (x / 2 / 2 / 2 / 2 / 2 / 2 % 2 ≡ one_if g)
      × (x / 2 / 2 / 2 / 2 / 2 / 2 / 2 % 2 ≡ one_if h)
byte_of_bits a b c d e f g h = omega (
  arith,
  one_if-le a,
  one_if-le b,
  one_if-le c,
  one_if-le d,
  one_if-le e,
  one_if-le f,
  one_if-le g,
  one_if-le h,
)

abbrev pub button : ℕ → ℕ → Control
button usage v = record { page = 0x09; usage = usage; value = v }

abbrev pub axis_x : ℕ → Control
axis_x v = record { page = 0x01; usage = 0x30; value = v }

bits_sum : (w : ℕ) → ℕ
bits_sum w =
    w % 2
    + 2
      * (w / 2 % 2
          + 2
            * (w / 2 / 2 % 2
                + 2
                  * (w / 2 / 2 / 2 % 2
                      + 2
                        * (w / 2 / 2 / 2 / 2 % 2
                            + 2
                              * (w / 2 / 2 / 2 / 2 / 2 % 2
                                  + 2
                                    * (w / 2 / 2 / 2 / 2 / 2 / 2 % 2
                                        + 2 * (w / 2 / 2 / 2 / 2 / 2 / 2 / 2 % 2 + 2 * 0)))))))

bits_sum_lem : (w : ℕ) → w < 256 → bits_sum w ≡ w
unfolding bits_sum
bits_sum_lem w h = omega arith

-- What the descriptor makes of any three bytes.
read_report-bytes :
    (x y w : ℕ)
    → read_report hid_report_descriptor (x ∷ y ∷ w ∷ [])
      ≡ button 1 (x % 2 + 2 * 0)
        ∷ button 2 (x / 2 % 2 + 2 * 0)
        ∷ button 3 (x / 2 / 2 % 2 + 2 * 0)
        ∷ button 4 (x / 2 / 2 / 2 % 2 + 2 * 0)
        ∷ button 5 (x / 2 / 2 / 2 / 2 % 2 + 2 * 0)
        ∷ button 6 (x / 2 / 2 / 2 / 2 / 2 % 2 + 2 * 0)
        ∷ button 7 (x / 2 / 2 / 2 / 2 / 2 / 2 % 2 + 2 * 0)
        ∷ button 8 (x / 2 / 2 / 2 / 2 / 2 / 2 / 2 % 2 + 2 * 0)
        ∷ button 9 (y % 2 + 2 * 0)
        ∷ button 10 (y / 2 % 2 + 2 * 0)
        ∷ axis_x (bits_sum w)
        ∷ []
unfolding read_report hid_report_descriptor bits_sum
read_report-bytes x y w = refl

-- By the descriptor that the device declares, a host reads from every report the ten buttons, as
-- the usages 1 to 10 of the button page with value 1 while pressed, and then the whammy, as the X
-- axis of the generic desktop page, and nothing else.
pub read_report-build_report :
    (g r y b o up down st se ti : Bool) (w : ℕ)
    → w < 256
    → read_report hid_report_descriptor (build_report (state_of g r y b o up down st se ti w))
      ≡ button 1 (one_if g)
        ∷ button 2 (one_if r)
        ∷ button 3 (one_if y)
        ∷ button 4 (one_if b)
        ∷ button 5 (one_if o)
        ∷ button 6 (one_if up)
        ∷ button 7 (one_if down)
        ∷ button 8 (one_if st)
        ∷ button 9 (one_if se)
        ∷ button 10 (one_if ti)
        ∷ axis_x w
        ∷ []
read_report-build_report g r y b o up down st se ti w h =
    let low = byte_of_bits g r y b o up down st in
    let high = byte_of_bits se ti false false false false false false in
    ap (read_report hid_report_descriptor) (build_report_lem g r y b o up down st se ti w)
    ∙ read_report-bytes _ _ w
    ∙ rw (low.1, low.2, low.3, low.4, low.5, low.6, low.7, low.8, high.1, high.2, bits_sum_lem w h)
        (simp add-zero)
