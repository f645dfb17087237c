-- ===== src/Usb/Descriptors.antt =====
-- The device and configuration descriptors of the two usb_descriptors.c.
use pico_deck_eddiscovery.Base.{
  ℕ, ◌+◌, ◌^◌, ◌++◌, Option, none, some, ltb, ◌==◌, if◌then◌else◌, length, Bytes,
}
use pico_deck_eddiscovery.Usb.Tusb.{Tusb}

-- `tusb_desc_device_t`
pub record DeviceDescriptor : Type 0 where
  pub length_field : ℕ
  pub descriptor_type : ℕ
  pub bcd_usb : ℕ
  pub device_class : ℕ
  pub device_subclass : ℕ
  pub device_protocol : ℕ
  pub max_packet_size_0 : ℕ
  pub id_vendor : ℕ
  pub id_product : ℕ
  pub bcd_device : ℕ
  pub manufacturer : ℕ
  pub product : ℕ
  pub serial_number : ℕ
  pub num_configurations : ℕ

-- `CFG_TUD_ENDPOINT0_SIZE`
abbrev pub endpoint0_size : ℕ
endpoint0_size = 64

abbrev pub strid_langid : ℕ
strid_langid = 0

abbrev pub strid_manufacturer : ℕ
strid_manufacturer = 1

abbrev pub strid_product : ℕ
strid_product = 2

abbrev pub strid_serial : ℕ
strid_serial = 3

-- `STRID_INTERFACE` of the display, `STRID_NETWORK` of the keyboard.
abbrev pub strid_network : ℕ
strid_network = 4

abbrev pub strid_mac : ℕ
strid_mac = 5

-- What the two initialisers have in common.
abbrev pub device_descriptor : Tusb → ℕ → ℕ → DeviceDescriptor
device_descriptor t id_product bcd_device = record {
  length_field = t.device_desc_len;
  descriptor_type = t.desc_device;
  bcd_usb = 0x0201;
  device_class = t.class_misc;
  device_subclass = t.misc_subclass_common;
  device_protocol = t.misc_protocol_iad;
  max_packet_size_0 = endpoint0_size;
  id_vendor = 0xcafe;
  id_product = id_product;
  bcd_device = bcd_device;
  manufacturer = strid_manufacturer;
  product = strid_product;
  serial_number = strid_serial;
  num_configurations = 1;
}

-- `USB_PID` of the display: only `CFG_TUD_NCM` is 1.
abbrev pub display_pid : ℕ
display_pid = 0x4000 + 2 ^ 5

abbrev pub keyboard_pid : ℕ
keyboard_pid = 0x4024

abbrev pub display_device_cb : Tusb → DeviceDescriptor
display_device_cb t = device_descriptor t display_pid 0x0100

abbrev pub keyboard_device_cb : Tusb → DeviceDescriptor
keyboard_device_cb t = device_descriptor t keyboard_pid 0x0102

-- `NCM_CONFIG_TOTAL_LEN` and `CONFIG_TOTAL_LEN`
abbrev pub display_total_len : Tusb → ℕ
display_total_len t = t.config_desc_len + t.cdc_ncm_desc_len

abbrev pub keyboard_total_len : Tusb → ℕ
keyboard_total_len t = t.config_desc_len + t.hid_desc_len + t.cdc_ncm_desc_len

unfoldable pub ncm_configuration : Tusb → Bytes
ncm_configuration t =
    t.config_descriptor 1 2 0 (display_total_len t) 0 100
    ++ t.cdc_ncm_descriptor 0 strid_network strid_mac 0x81 64 0x02 0x82 t.net_endpoint_size
        t.net_mtu

unfoldable pub configuration_descriptor : Tusb → Bytes
configuration_descriptor t =
    t.config_descriptor 1 3 0 (keyboard_total_len t) t.att_remote_wakeup 250
    ++ t.hid_descriptor 0 0 t.hid_itf_protocol_keyboard (length t.hid_report_desc_keyboard) 0x81 16
        1
    ++ t.cdc_ncm_descriptor 1 strid_network strid_mac 0x82 64 0x03 0x83 t.net_endpoint_size
        t.net_mtu

unfoldable pub display_configuration_cb : Tusb → ℕ → Option Bytes
display_configuration_cb t index = if ltb index 1 then some (ncm_configuration t) else none

unfoldable pub keyboard_configuration_cb : Tusb → ℕ → Option Bytes
keyboard_configuration_cb t index = if index == 0 then some (configuration_descriptor t) else none

abbrev pub hid_report_cb : Tusb → Bytes
hid_report_cb t = t.hid_report_desc_keyboard

abbrev pub bos_total_len : Tusb → ℕ
bos_total_len t = t.bos_desc_len + t.bos_microsoft_os_desc_len

abbrev pub ms_os_20_desc_len : ℕ
ms_os_20_desc_len = 0xb2

abbrev pub bos_cb : Tusb → Bytes
bos_cb t = t.bos_descriptor (bos_total_len t) 1 ++ t.bos_ms_os_20_descriptor ms_os_20_desc_len 1
