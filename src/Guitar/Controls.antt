-- ===== src/Guitar/Controls.antt =====
-- What `map_frame` of src/core/guitar_state.cpp reads from a frame.
use pico_sg2hid.Common.{
  ℕ, ◌⊎◌, ◌-◌, ◌*◌, ◌/◌, ◌%◌, ◌^◌, ◌≤◌, ◌<◌, ◌≡◌, refl, sym, Bool, true, false, not, List, [], ◌∷◌,
  arith, ◌==◌,
}
use pico_sg2hid.Common.Bits.{passes, holds_of_byte}
use pico_sg2hid.Protocol.{ControllerId, digital, analog, config}
use pico_sg2hid.Guitar.{GuitarState, is_pressed, whammy_from_axis, map_frame, zero_state}

-- Bit `k` of a byte, counted from the least significant.
abbrev pub bit : ℕ → ℕ → ℕ
bit b k = b / 2 ^ k % 2

-- Buttons are active low: a control is pressed while its bit is clear.
abbrev pub is_clear : ℕ → ℕ → Bool
is_clear b k = bit b k == 0

eqb : Bool → Bool → Bool
eqb true b = b
eqb false b = not b

eqb→eq : (a b : Bool) → eqb a b ≡ true → a ≡ b
unfolding eqb
eqb→eq true b h = sym h
eqb→eq false true h = h
eqb→eq false false h = refl

reads : ℕ → ℕ → ℕ → Bool
unfolding eqb
reads mask k b = eqb (is_pressed b mask) (is_clear b k)

module _ (mask k : ℕ) (table : passes (reads mask k) 256 ≡ true) where
  reads_bit : (b : ℕ) → b < 256 → is_pressed b mask ≡ is_clear b k
  unfolding reads
  reads_bit b h = eqb→eq _ _ (holds_of_byte (reads mask k) b table h)

-- The ten masks of the source, each a single bit.
record Masks (b : ℕ) : Type 0 where
  bit0 : is_pressed b 0x01 ≡ is_clear b 0
  bit1 : is_pressed b 0x02 ≡ is_clear b 1
  bit3 : is_pressed b 0x08 ≡ is_clear b 3
  bit4 : is_pressed b 0x10 ≡ is_clear b 4
  bit5 : is_pressed b 0x20 ≡ is_clear b 5
  bit6 : is_pressed b 0x40 ≡ is_clear b 6
  bit7 : is_pressed b 0x80 ≡ is_clear b 7

masks : (b : ℕ) → b < 256 → Masks b
unfolding passes is_pressed reads
masks b h = record {
  bit0 = reads_bit 0x01 0 refl b h;
  bit1 = reads_bit 0x02 1 refl b h;
  bit3 = reads_bit 0x08 3 refl b h;
  bit4 = reads_bit 0x10 4 refl b h;
  bit5 = reads_bit 0x20 5 refl b h;
  bit6 = reads_bit 0x40 6 refl b h;
  bit7 = reads_bit 0x80 7 refl b h;
}

-- The controls of a pair of button bytes, and the whammy given: what the guitar's wiring fixes.
abbrev pub controls : ℕ → ℕ → ℕ → GuitarState
controls low high whammy = record {
  is_fret_pressed =
      is_clear high 1 ∷ is_clear high 5 ∷ is_clear high 4 ∷ is_clear high 6 ∷ is_clear high 7 ∷ [];
  is_strum_up = is_clear low 4;
  is_strum_down = is_clear low 6;
  is_start = is_clear low 3;
  is_select = is_clear low 0;
  is_tilt = is_clear high 0;
  whammy = whammy;
}

-- The whammy is the distance that the bar travelled from its rest value 127, doubled. It needs no
-- wrap-around: the largest value is 254.
pub whammy_from_axis_lem : (axis : ℕ) → whammy_from_axis axis ≡ (127 - axis) * 2
unfolding whammy_from_axis
whammy_from_axis_lem axis = ground arith

module _ (low high : ℕ) (hl : low < 256) (hh : high < 256) where
  pub map_frame_analog :
      (a b c axis : ℕ)
      → map_frame (record { id = analog; payload = low ∷ high ∷ a ∷ b ∷ c ∷ axis ∷ [] })
        ≡ controls low high ((127 - axis) * 2)
  unfolding map_frame
  map_frame_analog a b c axis =
      let ml = masks low hl in
      let mh = masks high hh in
      cc (
        ml.bit0,
        ml.bit3,
        ml.bit4,
        ml.bit6,
        mh.bit0,
        mh.bit1,
        mh.bit4,
        mh.bit5,
        mh.bit6,
        mh.bit7,
        whammy_from_axis_lem axis,
      )

  pub map_frame_digital :
      (rest : List ℕ)
      → map_frame (record { id = digital; payload = low ∷ high ∷ rest }) ≡ controls low high 0
  unfolding map_frame
  map_frame_digital rest =
      let ml = masks low hl in
      let mh = masks high hh in
      cc (ml.bit0, ml.bit3, ml.bit4, ml.bit6, mh.bit0, mh.bit1, mh.bit4, mh.bit5, mh.bit6, mh.bit7)

-- The controls of a frame with six payload bytes, of which the buttons are bytes.
abbrev pub frame_controls : ControllerId → (low high axis : ℕ) → GuitarState
frame_controls digital low high axis = controls low high 0
frame_controls analog low high axis = controls low high ((127 - axis) * 2)
frame_controls config low high axis = record zero_state { whammy = 0 }

-- For every id: a digital or an analog frame is read bit by bit, active low, from its first two
-- payload bytes; the whammy comes from the last byte of an analog frame and is at rest otherwise;
-- a config frame reports every control released, whatever its payload.
pub map_frame_lem :
    (id : ControllerId) (low high a b c axis : ℕ)
    → low < 256
    → high < 256
    → map_frame (record { id = id; payload = low ∷ high ∷ a ∷ b ∷ c ∷ axis ∷ [] })
      ≡ frame_controls id low high axis
map_frame_lem digital low high a b c axis hl hh =
    map_frame_digital low high hl hh (a ∷ b ∷ c ∷ axis ∷ [])
map_frame_lem analog low high a b c axis hl hh = map_frame_analog low high hl hh a b c axis
map_frame_lem config low high a b c axis hl hh = unfold map_frame in refl

-- Pressing the bar further (a smaller byte from the guitar) never lowers the reported axis, and
-- below the rest value raises it; the reported axis stays within 0 and 254, and a byte at or above
-- the rest value reads as rest.
pub whammy_from_axis_travel :
    (near far : ℕ)
    → far < near
    → (whammy_from_axis near ≤ whammy_from_axis far)
      × ((127 ≤ far) ⊎ (whammy_from_axis near < whammy_from_axis far))
      × (whammy_from_axis far ≤ 254)
      × ((near < 127) ⊎ (whammy_from_axis near ≡ 0))
whammy_from_axis_travel near far h =
    ground (arith, whammy_from_axis_lem near, whammy_from_axis_lem far)
