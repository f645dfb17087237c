-- ===== src/Usb/MsOs.antt =====
-- The Microsoft OS 2.0 descriptor of the two usb_descriptors.c, and the vendor request that asks for it.
use pico_deck_eddiscovery.Base.{
  ℕ, ◌+◌, ◌-◌, ◌*◌, Bool, ◌&&◌, [], ◌∷◌, ◌++◌, ◌==◌, if◌then◌else◌, get_or, length, Bytes, codes,
}
use pico_deck_eddiscovery.Usb.Tusb.{Tusb}
use pico_deck_eddiscovery.Usb.Descriptors.{ms_os_20_desc_len}

-- Characters with a high byte of 0.
unfoldable pub utf16 : Bytes → Bytes
utf16 [] = []
utf16 (c ∷ cs) = c ∷ 0 ∷ utf16 cs

abbrev pub display_guid : Bytes
display_guid = codes "{12345678-0D08-43FD-8B3E-127CA8AFFF9D}"

abbrev pub keyboard_guid : Bytes
keyboard_guid = codes "{6B431D2E-4D35-4A1F-94B2-853AC9E1078C}"

-- Set header; configuration subset; function subset, with its first interface; compatible ID; registry
-- property.
abbrev pub set_header : Tusb → Bytes
set_header t =
    t.u16_to_u8s_le 0x000a
    ++ t.u16_to_u8s_le t.set_header_descriptor
    ++ t.u32_to_u8s_le 0x06030000
    ++ t.u16_to_u8s_le ms_os_20_desc_len

abbrev pub configuration_subset : Tusb → Bytes
configuration_subset t =
    t.u16_to_u8s_le 0x0008
    ++ t.u16_to_u8s_le t.subset_header_configuration
    ++ (0 ∷ 0 ∷ [])
    ++ t.u16_to_u8s_le (ms_os_20_desc_len - 0x0a)

abbrev pub function_subset : Tusb → ℕ → Bytes
function_subset t first_interface =
    t.u16_to_u8s_le 0x0008
    ++ t.u16_to_u8s_le t.subset_header_function
    ++ (first_interface ∷ 0 ∷ [])
    ++ t.u16_to_u8s_le (ms_os_20_desc_len - 0x0a - 0x08)

abbrev pub compatible_id : Tusb → Bytes
compatible_id t =
    t.u16_to_u8s_le 0x0014
    ++ t.u16_to_u8s_le t.feature_compatible_id
    ++ codes "WINNCM"
    ++ (0 ∷ 0 ∷ 0 ∷ 0 ∷ 0 ∷ 0 ∷ 0 ∷ 0 ∷ 0 ∷ 0 ∷ [])

abbrev pub registry_property : Tusb → Bytes → Bytes
registry_property t guid =
    t.u16_to_u8s_le (ms_os_20_desc_len - 0x0a - 0x08 - 0x08 - 0x14)
    ++ t.u16_to_u8s_le t.feature_reg_property
    ++ t.u16_to_u8s_le 0x0007
    ++ t.u16_to_u8s_le 0x002a
    ++ utf16 (codes "DeviceInterfaceGUIDs")
    ++ (0 ∷ 0 ∷ [])
    ++ t.u16_to_u8s_le 0x0050
    ++ utf16 guid
    ++ (0 ∷ 0 ∷ 0 ∷ 0 ∷ [])

unfoldable pub ms_os_20_descriptor : Tusb → ℕ → Bytes → Bytes
ms_os_20_descriptor t first_interface guid =
    set_header t
    ++ configuration_subset t
    ++ function_subset t first_interface
    ++ compatible_id t
    ++ registry_property t guid

-- What a control transfer is answered with: nothing to do, a stall, or so many of these bytes.
pub data Answer : Type 0 where
  nothing : Answer
  stall : Answer
  transfer : Bytes → ℕ → Answer

-- `memcpy(&total_len, desc_ms_os_20 + 8, 2)`, low byte first.
abbrev pub total_len : Bytes → ℕ
total_len desc = get_or desc 8 0 + get_or desc 9 0 * 256

-- The stage is the setup; the type of the request is vendor; its number and its index.
unfoldable pub display_control_xfer_cb : Bytes → Bool → Bool → ℕ → ℕ → Answer
display_control_xfer_cb desc setup vendor number index =
    if setup
    then (if vendor
        then (if number == 1
            then (if index == 7 then transfer desc (total_len desc) else stall)
            else stall)
        else stall)
    else nothing

unfoldable pub keyboard_control_xfer_cb : Bytes → Bool → Bool → ℕ → ℕ → Answer
keyboard_control_xfer_cb desc setup vendor number index =
    if setup
    then (if vendor && number == 1 && index == 7 then transfer desc (length desc) else stall)
    else nothing
