-- ===== src/Usb/Strings.antt =====
-- `tud_descriptor_string_cb` of the two usb_descriptors.c: they differ in their texts. The serial number
-- comes from `board_usb_get_serial`, which writes at most 32 units.
use pico_deck_eddiscovery.Base.{
  ℕ, ◌+◌, ◌*◌, ◌/◌, ◌%◌, List, [], ◌∷◌, Option, none, some, leb, ◌==◌, if◌then◌else◌, take, get_or,
  length, Bytes, codes,
}
use pico_deck_eddiscovery.Base.Bits.{u16}
use pico_deck_eddiscovery.Usb.Tusb.{Tusb}
use pico_deck_eddiscovery.Usb.Descriptors.{strid_langid, strid_serial, strid_mac}

abbrev pub hex_digit : ℕ → ℕ
hex_digit n = get_or (codes "0123456789ABCDEF") n 0

-- Two digits for each byte.
unfoldable pub mac_units : Bytes → List ℕ
mac_units [] = []
mac_units (b ∷ bs) = hex_digit (b / 16 % 16) ∷ hex_digit (b % 16) ∷ mac_units bs

-- The texts by index. The first is the language, not a text; the serial number has none here.
abbrev pub display_strings : List (Option Bytes)
display_strings =
    some (0x09 ∷ 0x04 ∷ [])
    ∷ some (codes "PicoDeck")
    ∷ some (codes "PicoDeck ED Display")
    ∷ none
    ∷ some (codes "PicoDeck USB Network")
    ∷ []

abbrev pub keyboard_strings : List (Option Bytes)
keyboard_strings =
    some (0x09 ∷ 0x04 ∷ [])
    ∷ some (codes "d3cker")
    ∷ some (codes "PicoDeck ED Keyboard")
    ∷ none
    ∷ some (codes "PicoDeck Keyboard Network")
    ∷ []

-- The first unit: the length in bytes with it, and the type above. The length is below 256: `|` is `+`.
abbrev pub with_header : Tusb → List ℕ → List ℕ
with_header t units = u16 (t.desc_string * 256 + (2 * length units + 2)) ∷ units

-- A text of the table, of which 32 units fit.
abbrev pub text_units : Option Bytes → Option (List ℕ)
text_units none = none
text_units (some text) = some (take 32 text)

abbrev pub headed : Tusb → Option (List ℕ) → Option (List ℕ)
headed t none = none
headed t (some units) = some (with_header t units)

-- The units that are copied, from the table, the interface's address and the serial number.
unfoldable pub string_units : List (Option Bytes) → Bytes → List ℕ → ℕ → Option (List ℕ)
string_units strings mac serial index =
    if index == strid_langid
    then some (0x0409 ∷ [])
    else if index == strid_serial
    then some serial
    else if index == strid_mac
    then some (mac_units mac)
    else if leb (length strings) index
    then none
    else text_units (get_or strings index none)

unfoldable pub tud_descriptor_string_cb :
    Tusb → List (Option Bytes) → Bytes → List ℕ → ℕ → Option (List ℕ)
tud_descriptor_string_cb t strings mac serial index =
    headed t (string_units strings mac serial index)
