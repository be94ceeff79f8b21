-- ===== src/Usb.antt =====
-- The reports of the USB device (src/usb/usb_device.cpp). TinyUSB is not modelled: `tud_hid_ready( )`
-- is the argument `ready`, and `handed` lists the reports given to `tud_hid_report( )`, the latest
-- last.
pub mod Stored
pub mod Strings
pub mod Descriptors
use pico_sg2hid.Common.{
  ℕ, zero, suc, ◌+◌, Bool, List, [], ◌∷◌, ◌++◌, ltb, if◌then◌else◌, length, get_or, set,
}
use pico_sg2hid.Report.{HidReport}
use pico_sg2hid.Poll.{neutral_report}

pub record UsbDevice : Type 0 where
  pub stored_report : HidReport
  pub handed : List HidReport

-- The neutral report until the first poll stores one.
unfoldable pub new_device : UsbDevice
new_device = record { stored_report = neutral_report; handed = [] }

unfoldable pub send_report : Bool → HidReport → UsbDevice → UsbDevice
send_report ready report device =
    let stored = record device { stored_report = report } in
    if ready then record stored { handed = stored.handed ++ stored.stored_report ∷ [] } else stored

-- `for ( i = …; i < count; ++i ) buffer[ i ] = stored_report[ i ]`, by the rounds left.
copy_report : ℕ → ℕ → HidReport → List ℕ → List ℕ
copy_report zero i report buffer = buffer
copy_report (suc n) i report buffer =
    copy_report n (i + 1) report (set buffer i (get_or report i 0))

-- `tud_hid_get_report_cb`: the buffer that it fills, and the count that it returns.
unfoldable pub get_report : UsbDevice → List ℕ → ℕ → List ℕ × ℕ
unfolding copy_report
get_report device buffer reqlen =
    let size = length device.stored_report in
    let count = if ltb reqlen size then reqlen else size in
    (copy_report count 0 device.stored_report buffer, count)
