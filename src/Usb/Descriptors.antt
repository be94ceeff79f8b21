-- ===== src/Usb/Descriptors.antt =====
-- The device and configuration descriptors of the USB device (src/usb/usb_device.cpp, and the sizes of
-- src/usb/tusb_config.h). TinyUSB's macros, which build the bytes, and its constants are a parameter.
pub mod Host
pub mod Walk
use pico_sg2hid.Common.{ℕ, zero, suc, ◌+◌, Option, none, some, List, [], ◌∷◌, ◌++◌, length}
use pico_sg2hid.Report.Descriptor.{hid_report_descriptor}

pub record TinyUsb : Type 0 where
  pub device_len : ℕ
  pub desc_device : ℕ
  pub class_misc : ℕ
  pub subclass_common : ℕ
  pub protocol_iad : ℕ
  pub endpoint0_size : ℕ
  pub hid_itf_protocol_none : ℕ
  pub config_desc_len : ℕ
  pub cdc_desc_len : ℕ
  pub hid_desc_len : ℕ
  pub config_descriptor : ℕ → ℕ → ℕ → ℕ → ℕ → ℕ → List ℕ
  pub cdc_descriptor : ℕ → ℕ → ℕ → ℕ → ℕ → ℕ → ℕ → List ℕ
  pub hid_descriptor : ℕ → ℕ → ℕ → ℕ → ℕ → ℕ → ℕ → List ℕ

abbrev pub vendor_id : ℕ
vendor_id = 0x2E8A

abbrev pub product_id : ℕ
product_id = 0x000A

abbrev pub usb_version : ℕ
usb_version = 0x0200

abbrev pub device_version : ℕ
device_version = 0x0100

pub data Interface : Type 0 where
  interface_cdc interface_cdc_data interface_hid interface_count : Interface

-- The enumerators count up from 0.
abbrev pub interface_number : Interface → ℕ
interface_number interface_cdc = 0
interface_number interface_cdc_data = 1
interface_number interface_hid = 2
interface_number interface_count = 3

abbrev pub endpoint_cdc_notify : ℕ
endpoint_cdc_notify = 0x81

abbrev pub endpoint_cdc_out : ℕ
endpoint_cdc_out = 0x02

abbrev pub endpoint_cdc_in : ℕ
endpoint_cdc_in = 0x82

abbrev pub endpoint_hid_in : ℕ
endpoint_hid_in = 0x83

abbrev pub cdc_notify_size : ℕ
cdc_notify_size = 8

abbrev pub cdc_data_size : ℕ
cdc_data_size = 64

abbrev pub hid_poll_interval_ms : ℕ
hid_poll_interval_ms = 1

abbrev pub config_number : ℕ
config_number = 1

abbrev pub no_string : ℕ
no_string = 0

abbrev pub no_attributes : ℕ
no_attributes = 0

abbrev pub max_power_ma : ℕ
max_power_ma = 100

abbrev pub hid_ep_bufsize : ℕ
hid_ep_bufsize = 8

-- `tusb_desc_device_t`, with the fields' names of the USB specification.
pub record DeviceDescriptor : Type 0 where
  pub b_length : ℕ
  pub b_descriptor_type : ℕ
  pub bcd_usb : ℕ
  pub b_device_class : ℕ
  pub b_device_sub_class : ℕ
  pub b_device_protocol : ℕ
  pub b_max_packet_size0 : ℕ
  pub id_vendor : ℕ
  pub id_product : ℕ
  pub bcd_device : ℕ
  pub i_manufacturer : ℕ
  pub i_product : ℕ
  pub i_serial_number : ℕ
  pub b_num_configurations : ℕ

-- The enumerators of `StringIndex`.
abbrev pub index_manufacturer : ℕ
index_manufacturer = 1

abbrev pub index_product : ℕ
index_product = 2

abbrev pub index_serial : ℕ
index_serial = 3

module _ (tusb : TinyUsb) where
  abbrev pub config_total_len : ℕ
  config_total_len = tusb.config_desc_len + tusb.cdc_desc_len + tusb.hid_desc_len

  unfoldable pub device_descriptor : DeviceDescriptor
  device_descriptor = record {
    b_length = tusb.device_len;
    b_descriptor_type = tusb.desc_device;
    bcd_usb = usb_version;
    b_device_class = tusb.class_misc;
    b_device_sub_class = tusb.subclass_common;
    b_device_protocol = tusb.protocol_iad;
    b_max_packet_size0 = tusb.endpoint0_size;
    id_vendor = vendor_id;
    id_product = product_id;
    bcd_device = device_version;
    i_manufacturer = index_manufacturer;
    i_product = index_product;
    i_serial_number = index_serial;
    b_num_configurations = 1;
  }

  -- What the configuration is made of.
  abbrev pub config_part : List ℕ
  config_part =
      tusb.config_descriptor config_number (interface_number interface_count) no_string
        config_total_len no_attributes max_power_ma

  abbrev pub cdc_part : List ℕ
  cdc_part =
      tusb.cdc_descriptor (interface_number interface_cdc) no_string endpoint_cdc_notify
        cdc_notify_size endpoint_cdc_out endpoint_cdc_in cdc_data_size

  abbrev pub hid_part : List ℕ
  hid_part =
      tusb.hid_descriptor (interface_number interface_hid) no_string tusb.hid_itf_protocol_none
        (length hid_report_descriptor) endpoint_hid_in hid_ep_bufsize hid_poll_interval_ms

  unfoldable pub config_descriptor : List ℕ
  config_descriptor = config_part ++ (cdc_part ++ hid_part)

-- `tud_hid_descriptor_report_cb`.
unfoldable pub descriptor_report_cb : List ℕ
descriptor_report_cb = hid_report_descriptor
