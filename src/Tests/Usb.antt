-- ===== src/Tests/Usb.antt =====
-- Concrete runs of the USB descriptors (src/usb/usb_device.cpp) on descriptors as TinyUSB builds them.
use pico_sg2hid.Common.{ℕ, ◌+◌, ◌*◌, ◌/◌, ◌%◌, ◌<◌, ◌≡◌, refl, some, List, [], ◌∷◌, arith}
use pico_sg2hid.Usb.Descriptors.{TinyUsb, config_descriptor}
use pico_sg2hid.Usb.Descriptors.Host.{concat, read_config}
use pico_sg2hid.Usb.Descriptors.Walk.{Documented, expected, config_descriptor-Walk}

abbrev low : ℕ → ℕ
low n = n % 256

abbrev high : ℕ → ℕ
high n = n / 256 % 256

abbrev config_bytes : ℕ → ℕ → ℕ → ℕ → ℕ → ℕ → List ℕ
config_bytes number count name total attributes power =
    9 ∷ 2 ∷ low total ∷ high total ∷ count ∷ number ∷ name ∷ (0x80 + attributes) ∷ power / 2 ∷ []

abbrev cdc_blocks : ℕ → ℕ → ℕ → ℕ → ℕ → ℕ → ℕ → List (List ℕ)
cdc_blocks itf name notify notify_size out in_ep size =
    (8 ∷ 11 ∷ itf ∷ 2 ∷ 2 ∷ 2 ∷ 0 ∷ 0 ∷ [])
    ∷ (9 ∷ 4 ∷ itf ∷ 0 ∷ 1 ∷ 2 ∷ 2 ∷ 0 ∷ name ∷ [])
    ∷ (5 ∷ 0x24 ∷ 0 ∷ 0x20 ∷ 1 ∷ [])
    ∷ (5 ∷ 0x24 ∷ 1 ∷ 0 ∷ (itf + 1) ∷ [])
    ∷ (4 ∷ 0x24 ∷ 2 ∷ 6 ∷ [])
    ∷ (5 ∷ 0x24 ∷ 6 ∷ itf ∷ (itf + 1) ∷ [])
    ∷ (7 ∷ 5 ∷ notify ∷ 3 ∷ low notify_size ∷ high notify_size ∷ 16 ∷ [])
    ∷ (9 ∷ 4 ∷ (itf + 1) ∷ 0 ∷ 2 ∷ 10 ∷ 0 ∷ 0 ∷ 0 ∷ [])
    ∷ (7 ∷ 5 ∷ out ∷ 2 ∷ low size ∷ high size ∷ 0 ∷ [])
    ∷ (7 ∷ 5 ∷ in_ep ∷ 2 ∷ low size ∷ high size ∷ 0 ∷ [])
    ∷ []

abbrev hid_blocks : ℕ → ℕ → ℕ → ℕ → ℕ → ℕ → ℕ → List (List ℕ)
hid_blocks itf name protocol len in_ep size interval =
    (9 ∷ 4 ∷ itf ∷ 0 ∷ 1 ∷ 3 ∷ 0 ∷ protocol ∷ name ∷ [])
    ∷ (9 ∷ 0x21 ∷ 0x11 ∷ 1 ∷ 0 ∷ 1 ∷ 0x22 ∷ low len ∷ high len ∷ [])
    ∷ (7 ∷ 5 ∷ in_ep ∷ 3 ∷ low size ∷ high size ∷ interval ∷ [])
    ∷ []

abbrev tiny : TinyUsb
tiny = record {
  device_len = 18;
  desc_device = 1;
  class_misc = 0xEF;
  subclass_common = 2;
  protocol_iad = 1;
  endpoint0_size = 64;
  hid_itf_protocol_none = 0;
  config_desc_len = 9;
  cdc_desc_len = 66;
  hid_desc_len = 25;
  config_descriptor = config_bytes;
  cdc_descriptor = λ itf name notify notify_size out in_ep size.
      concat (cdc_blocks itf name notify notify_size out in_ep size);
  hid_descriptor = λ itf name protocol len in_ep size interval.
      concat (hid_blocks itf name protocol len in_ep size interval);
}

word-bytes : (n : ℕ) → n < 65536 → low n + (256 * high n) ≡ n
word-bytes n h = omega arith

tiny-Documented : Documented tiny
tiny-Documented = record {
  head = λ number count name total attributes power. (_, refl, refl);
  head_len = refl;
  cdc = λ itf name notify notify_size out in_ep size _ _ nb _ _ sb. record {
    blocks = cdc_blocks itf name notify notify_size out in_ep size;
    is_concat = refl;
    are_blocks = omega arith;
    has_size = refl;
    has_interfaces = refl;
    has_endpoints = rw (word-bytes notify_size nb, word-bytes size sb) refl;
    has_lens = refl;
  };
  hid = λ itf name protocol len in_ep size interval _ lb _ sb. record {
    blocks = hid_blocks itf name protocol len in_ep size interval;
    is_concat = refl;
    are_blocks = omega arith;
    has_size = refl;
    has_interfaces = refl;
    has_endpoints = rw (word-bytes size sb) refl;
    has_lens = rw (word-bytes len lb) refl;
  };
  short = omega arith;
}

config_descriptor-Walk_example : read_config (config_descriptor tiny) ≡ some expected
config_descriptor-Walk_example = config_descriptor-Walk tiny tiny-Documented
