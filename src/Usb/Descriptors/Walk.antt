-- ===== src/Usb/Descriptors/Walk.antt =====
-- The configuration descriptor of src/usb/usb_device.cpp, as a host reads it that walks it block by
-- block: what TinyUSB's macros have to say for that, and what the host then finds.
use pico_sg2hid.Common.{
  ℕ, ◌+◌, ◌/◌, ◌%◌, ◌<◌, ◌≡◌, ◌∙◌, refl, sym, ap, some, List, [], ◌∷◌, ◌++◌, arith, length,
  length-append,
}
use pico_sg2hid.Report.Descriptor.{hid_report_descriptor}
use pico_sg2hid.Usb.Descriptors.{
  TinyUsb, config_descriptor, config_part, cdc_part, hid_part, descriptor_report_cb,
  config_total_len,
}
use pico_sg2hid.Usb.Descriptors.Host.{
  concat, AreBlocks, interfaces, endpoints, report_lens, interfaces-append, endpoints-append,
  report_lens-append, concat-append, AreBlocks-append, Config, accept, read_config,
  read_config-concat, accept-head,
}

-- What the parts that TinyUSB's macros build say to a host, as TinyUSB documents them: blocks, of as
-- many bytes as the macro's length says, with the interfaces and endpoints of its arguments.
pub record Says (bytes : List ℕ) (size : ℕ) (itfs : List ℕ) (eps : List (ℕ × ℕ)) (lens : List ℕ)
    : Type 0 where
  pub blocks : List (List ℕ)
  pub is_concat : bytes ≡ concat blocks
  pub are_blocks : AreBlocks blocks
  pub has_size : length bytes ≡ size
  pub has_interfaces : interfaces blocks ≡ itfs
  pub has_endpoints : endpoints blocks ≡ eps
  pub has_lens : report_lens blocks ≡ lens

pub record Documented (tusb : TinyUsb) : Type 0 where
  pub head :
      (number count name total attributes power : ℕ)
      → (rest : List ℕ) × (tusb.config_descriptor number count name total attributes power
          ≡ 9 ∷ 2 ∷ total % 256 ∷ total / 256 % 256 ∷ count ∷ rest)
        × (length rest ≡ 4)
  pub head_len : tusb.config_desc_len ≡ 9
  pub cdc :
      (itf name notify notify_size out in_ep size : ℕ)
      → itf < 255
      → notify < 256
      → notify_size < 65536
      → out < 256
      → in_ep < 256
      → size < 65536
      → Says
          (tusb.cdc_descriptor itf name notify notify_size out in_ep size)
          tusb.cdc_desc_len
          (itf ∷ (itf + 1) ∷ [])
          ((notify, notify_size) ∷ (out, size) ∷ (in_ep, size) ∷ [])
          []
  pub hid :
      (itf name protocol len in_ep size interval : ℕ)
      → itf < 256
      → len < 65536
      → in_ep < 256
      → size < 65536
      → Says
          (tusb.hid_descriptor itf name protocol len in_ep size interval)
          tusb.hid_desc_len
          (itf ∷ [])
          ((in_ep, size) ∷ [])
          (len ∷ [])
  pub short : tusb.cdc_desc_len + tusb.hid_desc_len < 60000

-- The configuration of a device with a serial port and a gamepad.
abbrev pub expected : Config
expected = record {
  interface_numbers = 0 ∷ 1 ∷ 2 ∷ [];
  endpoint_sizes = (0x81, 8) ∷ (0x02, 64) ∷ (0x82, 64) ∷ (0x83, 8) ∷ [];
  report_descriptor_lens = length descriptor_report_cb ∷ [];
}

module _ (tusb : TinyUsb) (doc : Documented tusb) where
  abbrev cdc_says :
      Says
        (cdc_part tusb)
        tusb.cdc_desc_len
        (0 ∷ 1 ∷ [])
        ((0x81, 8) ∷ (0x02, 64) ∷ (0x82, 64) ∷ [])
        []
  cdc_says =
      doc.cdc 0 0 0x81 8 0x02 0x82 64 (omega arith) (omega arith) (omega arith) (omega arith)
        (omega arith) (omega arith)

  hid_says :
      Says
        (hid_part tusb)
        tusb.hid_desc_len
        (2 ∷ [])
        ((0x83, 8) ∷ [])
        (length descriptor_report_cb ∷ [])
  unfolding hid_report_descriptor descriptor_report_cb
  hid_says =
      doc.hid 2 0 tusb.hid_itf_protocol_none (length hid_report_descriptor) 0x83 8 1 (omega arith)
        (omega arith) (omega arith) (omega arith)

  -- The length that the configuration announces is the one that it has.
  length-config : length (config_descriptor tusb) ≡ config_total_len tusb
  unfolding config_descriptor
  length-config =
      let (rest, is_head, four) = doc.head 1 3 0 (config_total_len tusb) 0 100 in
      let head : length (config_part tusb) ≡ 9 = rw is_head (omega arith) in
      omega (
        arith,
        doc.head_len,
        head,
        length-append (config_part tusb) (cdc_part tusb ++ hid_part tusb),
        length-append (cdc_part tusb) (hid_part tusb),
        cdc_says.has_size,
        hid_says.has_size,
      )

  -- Whatever bytes TinyUSB's macros build, as long as each says what its arguments say, a host that
  -- walks the configuration block by block accepts it: its length and the number of its interfaces
  -- are the ones it announces, the interfaces are numbered 0 to 2, no two of the four endpoints have
  -- one address, and the length of the report descriptor is that of the one the host then gets.
  pub config_descriptor-Walk : read_config (config_descriptor tusb) ≡ some expected
  unfolding config_descriptor read_config
  config_descriptor-Walk =
      let (rest, is_head, four) = doc.head 1 3 0 (config_total_len tusb) 0 100 in
      let cdc = cdc_says in
      let hid = hid_says in
      let size = config_total_len tusb in
      let head = 9 ∷ 2 ∷ size % 256 ∷ size / 256 % 256 ∷ 3 ∷ rest in
      let inner = cdc.blocks ++ hid.blocks in
      let bytes : config_descriptor tusb ≡ concat (head ∷ inner) =
        rw (is_head, cdc.is_concat, hid.is_concat, concat-append cdc.blocks hid.blocks) refl in
      let long : length (concat (head ∷ inner)) ≡ size = ap length (sym bytes) ∙ length-config in
      let short = doc.short in
      let nine = doc.head_len in
      rw bytes (
        read_config-concat (head ∷ inner) (
          omega (arith, four),
          AreBlocks-append cdc.blocks hid.blocks cdc.are_blocks hid.are_blocks,
        )
        ∙ ap (λ n. accept n (head ∷ inner)) long
        ∙ accept-head size rest inner (0 ∷ 1 ∷ 2 ∷ [])
            ((0x81, 8) ∷ (0x02, 64) ∷ (0x82, 64) ∷ (0x83, 8) ∷ []) (omega arith)
            (interfaces-append cdc.blocks hid.blocks
              ∙ rw (cdc.has_interfaces, hid.has_interfaces) refl)
            (endpoints-append cdc.blocks hid.blocks
              ∙ rw (cdc.has_endpoints, hid.has_endpoints) refl)
            refl refl
        ∙ ap (λ lens. some (record expected { report_descriptor_lens = lens }))
            (report_lens-append cdc.blocks hid.blocks ∙ rw (cdc.has_lens, hid.has_lens) refl))
