-- ===== src/Usb/Tusb.antt =====
-- What both usb_descriptors.c use of TinyUSB: its constants, and its macros that expand to bytes.
use pico_deck_eddiscovery.Base.{ℕ, ◌/◌, ◌≡◌, [], ◌∷◌, length, Bytes}
use pico_deck_eddiscovery.Base.Bits.{u8}

pub record Tusb : Type 0 where
  -- `sizeof(tusb_desc_device_t)`
  pub device_desc_len : ℕ
  pub desc_device : ℕ
  pub desc_string : ℕ
  pub class_misc : ℕ
  pub misc_subclass_common : ℕ
  pub misc_protocol_iad : ℕ
  pub att_remote_wakeup : ℕ
  pub hid_itf_protocol_keyboard : ℕ
  pub net_endpoint_size : ℕ
  pub net_mtu : ℕ
  pub set_header_descriptor : ℕ
  pub subset_header_configuration : ℕ
  pub subset_header_function : ℕ
  pub feature_compatible_id : ℕ
  pub feature_reg_property : ℕ
  pub config_desc_len : ℕ
  pub hid_desc_len : ℕ
  pub cdc_ncm_desc_len : ℕ
  pub bos_desc_len : ℕ
  pub bos_microsoft_os_desc_len : ℕ
  -- The configuration's number, interface count, string, total length, attribute and power.
  pub config_descriptor : ℕ → ℕ → ℕ → ℕ → ℕ → ℕ → Bytes
  -- Interface, string, protocol, length of the report, endpoint, its size and interval.
  pub hid_descriptor : ℕ → ℕ → ℕ → ℕ → ℕ → ℕ → ℕ → Bytes
  pub hid_report_desc_keyboard : Bytes
  -- Interface, strings of the description and of the address, endpoint of the notifications and its
  -- size, the two data endpoints, their size and the segment size.
  pub cdc_ncm_descriptor : ℕ → ℕ → ℕ → ℕ → ℕ → ℕ → ℕ → ℕ → ℕ → Bytes
  pub bos_descriptor : ℕ → ℕ → Bytes
  pub bos_ms_os_20_descriptor : ℕ → ℕ → Bytes
  pub u16_to_u8s_le : ℕ → Bytes
  pub u32_to_u8s_le : ℕ → Bytes

-- The documented lengths of the macros.
abbrev pub HasLengths : Tusb → Type 0
HasLengths t =
    ((a b c d e f : ℕ) → length (t.config_descriptor a b c d e f) ≡ t.config_desc_len)
    × ((a b c d e f g : ℕ) → length (t.hid_descriptor a b c d e f g) ≡ t.hid_desc_len)
    × ((a b c d e f g h i : ℕ)
        → length (t.cdc_ncm_descriptor a b c d e f g h i) ≡ t.cdc_ncm_desc_len)

-- The macros for two and four bytes, low byte first.
abbrev pub IsLittleEndian : Tusb → Type 0
IsLittleEndian t =
    ((n : ℕ) → t.u16_to_u8s_le n ≡ u8 n ∷ u8 (n / 256) ∷ [])
    × ((n : ℕ) → t.u32_to_u8s_le n ≡ u8 n ∷ u8 (n / 256) ∷ u8 (n / 65536) ∷ u8 (n / 16777216) ∷ [])
