-- ===== src/Usb/Stored.antt =====
-- What a host reads back from the device of src/usb/usb_device.cpp.
use mathlib.Core.List.{append-nil}
use pico_sg2hid.Common.{
  ℕ, zero, suc, ◌≡◌, refl, sym, ltb, if◌then◌else◌, Bool, true, false, List, [], ◌∷◌, ◌++◌, arith,
  min, take, take-nil, drop,
}
use pico_sg2hid.Usb.{UsbDevice, send_report, get_report}

read_back :
    (device : UsbDevice) (a b c x y z : ℕ) (rest : List ℕ) (reqlen : ℕ)
    → device.stored_report ≡ a ∷ b ∷ c ∷ []
    → get_report device (x ∷ y ∷ z ∷ rest) reqlen
      ≡ (take reqlen (a ∷ b ∷ c ∷ []) ++ drop (min reqlen 3) (x ∷ y ∷ z ∷ rest), min reqlen 3)
unfolding get_report
read_back device a b c x y z rest zero e = rw e
read_back device a b c x y z rest (suc zero) e = rw e
read_back device a b c x y z rest (suc (suc zero)) e = rw e
read_back device a b c x y z rest (suc (suc (suc n))) e =
    let em : min (suc (suc (suc n))) 3 ≡ 3 = omega arith in
    let el : ltb (suc (suc (suc n))) 3 ≡ false = ground arith in
    rw (e, em) (rw el (rw (take-nil {A = ℕ} n)))

-- After a report of three bytes was sent, ready or not, a host's GET_REPORT reads the first bytes
-- of that report, as many as it asks for and at most all three, and the rest of its buffer stays;
-- the report was handed to TinyUSB exactly when the interface was ready.
pub get_report-send_report :
    (device : UsbDevice) (ready : Bool) (a b c x y z : ℕ) (rest : List ℕ) (reqlen : ℕ)
    → let after = send_report ready (a ∷ b ∷ c ∷ []) device in
      (get_report after (x ∷ y ∷ z ∷ rest) reqlen
        ≡ (take reqlen (a ∷ b ∷ c ∷ []) ++ drop (min reqlen 3) (x ∷ y ∷ z ∷ rest), min reqlen 3))
      × (after.handed ≡ device.handed ++ (if ready then (a ∷ b ∷ c ∷ []) ∷ [] else []))
unfolding send_report
get_report-send_report device true a b c x y z rest reqlen =
    (read_back _ a b c x y z rest reqlen refl, refl)
get_report-send_report device false a b c x y z rest reqlen =
    (read_back _ a b c x y z rest reqlen refl, sym (append-nil device.handed))
