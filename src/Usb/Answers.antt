-- ===== src/Usb/Answers.antt =====
-- What the host learns from the two usb_descriptors.c.
use pico_deck_eddiscovery.Base.{
  ℕ, zero, suc, ◌+◌, ◌-◌, ◌*◌, ◌/◌, ◌%◌, ◌≤◌, ◌<◌, ◌≡◌, ◌≢◌, ◌↔◌, refl, ap, ap₂, subst, Bool, true,
  ◌&&◌, List, [], ◌∷◌, Option, none, some, leb, le→leb, ltb, if◌then◌else◌, Bool-cases, inl, inr,
  take, drop, length, length-append, length-take, length-drop, get_or, Bytes, arith, ◌∙◌,
}
use pico_deck_eddiscovery.NetUsb.{NetPlatform, Net, net_usb_prepare_identity}
use pico_deck_eddiscovery.Usb.Tusb.{Tusb, HasLengths, IsLittleEndian}
use pico_deck_eddiscovery.Usb.Descriptors.{
  ncm_configuration, configuration_descriptor, display_total_len, keyboard_total_len, strid_mac,
}
use pico_deck_eddiscovery.Usb.Strings.{
  hex_digit, mac_units, display_strings, keyboard_strings, string_units, headed, text_units,
  tud_descriptor_string_cb,
}
use pico_deck_eddiscovery.Usb.MsOs.{
  utf16, ms_os_20_descriptor, total_len, display_control_xfer_cb, keyboard_control_xfer_cb,
}

-- What a host makes of a digit, and of the text of an address.
abbrev pub digit_value : ℕ → Option ℕ
digit_value c =
    if leb 48 c && leb c 57
    then some (c - 48)
    else if leb 65 c && leb c 70
    then some (c - 55)
    else none

abbrev pub joined : Option ℕ → Option ℕ → Option Bytes → Option Bytes
joined (some a) (some b) (some bytes) = some ((a * 16 + b) ∷ bytes)
joined _ _ _ = none

unfoldable pub read_mac : List ℕ → Option Bytes
read_mac [] = some []
read_mac (c ∷ []) = none
read_mac (c ∷ d ∷ cs) = joined (digit_value c) (digit_value d) (read_mac cs)

abbrev pub all_bytes : Bytes → Bool
all_bytes [] = true
all_bytes (b ∷ bs) = ltb b 256 && all_bytes bs

digit_value-hex_digit : (n : ℕ) → n < 16 → digit_value (hex_digit n) ≡ some n
digit_value-hex_digit n h = ground (arith, h)

read_mac-mac_units : (mac : Bytes) → all_bytes mac ≡ true → read_mac (mac_units mac) ≡ some mac
unfolding read_mac mac_units
read_mac-mac_units [] h = refl
read_mac-mac_units (b ∷ bs) h =
    rw
      (
        digit_value-hex_digit (b / 16 % 16) (omega arith),
        digit_value-hex_digit (b % 16) (omega arith),
        read_mac-mac_units bs (ground (arith, h)),
      )
      (ap (λ c. some (c ∷ bs)) byte)
  where
    byte : b / 16 % 16 * 16 + b % 16 ≡ b
    byte = ground (arith, h)

answered :
    (mac : Bytes) (serial : List ℕ) (index : ℕ)
    → index < 6
    → (string_units display_strings mac serial index ≢ none)
      × (string_units keyboard_strings mac serial index ≢ none)
unfolding string_units
answered mac serial zero h = (λ e. ground (arith, e), λ e. ground (arith, e))
answered mac serial (suc zero) h = (λ e. ground (arith, e), λ e. ground (arith, e))
answered mac serial (suc (suc zero)) h = (λ e. ground (arith, e), λ e. ground (arith, e))
answered mac serial (suc (suc (suc zero))) h = (λ e. ground (arith, e), λ e. ground (arith, e))
answered mac serial (suc (suc (suc (suc zero)))) h =
    (λ e. ground (arith, e), λ e. ground (arith, e))
answered mac serial (suc (suc (suc (suc (suc zero))))) h =
    (λ e. ground (arith, e), λ e. ground (arith, e))
answered mac serial (suc (suc (suc (suc (suc (suc n)))))) h = absurd (omega (arith, h))

refused :
    (strings : List (Option Bytes)) (mac : Bytes) (serial : List ℕ) (index : ℕ)
    → length strings ≡ 5
    → 6 ≤ index
    → string_units strings mac serial index ≡ none
unfolding string_units
refused strings mac serial index l h = ground (arith, l, h)

headed-none : (t : Tusb) (o : Option (List ℕ)) → headed t o ≡ none → o ≡ none
headed-none t none h = refl
headed-none t (some units) h = absurd (ground (arith, h))

-- The string callbacks of both devices answer every index up to that of the hardware address, and refuse
-- every other.
pub string_cb_refuses :
    (t : Tusb) (mac : Bytes) (serial : List ℕ) (index : ℕ)
    → ((tud_descriptor_string_cb t display_strings mac serial index ≡ none) ↔ (6 ≤ index))
      × ((tud_descriptor_string_cb t keyboard_strings mac serial index ≡ none) ↔ (6 ≤ index))
unfolding tud_descriptor_string_cb
string_cb_refuses t mac serial index = elim (Bool-cases (leb 6 index)) [
  | inl e ↦ (
    (λ h. ground (arith, e), λ h. ap (headed t) (refused display_strings mac serial index refl h)),
    (λ h. ground (arith, e), λ h. ap (headed t) (refused keyboard_strings mac serial index refl h)),
  )
  | inr e ↦ (
    (
      λ h. absurd (
          (answered mac serial index (ground (arith, e))).0
            (headed-none t (string_units display_strings mac serial index) h)),
      λ h. absurd (ground (arith, e, h)),
    ),
    (
      λ h. absurd (
          (answered mac serial index (ground (arith, e))).1
            (headed-none t (string_units keyboard_strings mac serial index) h)),
      λ h. absurd (ground (arith, e, h)),
    ),
  )
]

length-mac_units : (mac : Bytes) → length (mac_units mac) ≡ 2 * length mac
unfolding mac_units
length-mac_units [] = refl
length-mac_units (b ∷ bs) = omega (arith, length-mac_units bs)

-- A full answer of the control endpoint: what the host is told of its length is its length.
pub IsString : Tusb → Option (List ℕ) → Type 0
IsString t none = ℕ
IsString t (some units) =
    (get_or units 0 0 ≡ t.desc_string * 256 + 2 * length units) × (length units ≤ 33)

-- The configurations have the lengths that they tell the host.
pub configuration_lengths :
    (t : Tusb)
    → HasLengths t
    → (length (ncm_configuration t) ≡ display_total_len t)
      × (length (configuration_descriptor t) ≡ keyboard_total_len t)
unfolding ncm_configuration configuration_descriptor
configuration_lengths t (c, h, n) = (
  simp length-append (
      ap₂ (λ a b. a + b) (c 1 2 0 (display_total_len t) 0 100)
        (n 0 4 5 0x81 64 0x02 0x82 t.net_endpoint_size t.net_mtu)),
  simp length-append (
      ap₂ (λ a b. a + b)
        (ap₂ (λ a b. a + b) (c 1 3 0 (keyboard_total_len t) t.att_remote_wakeup 250)
          (h 0 0 t.hid_itf_protocol_keyboard (length t.hid_report_desc_keyboard) 0x81 16 1))
        (n 1 4 5 0x82 64 0x03 0x83 t.net_endpoint_size t.net_mtu)),
)

abbrev fits_buffer : Option (List ℕ) → Bool
fits_buffer none = true
fits_buffer (some units) = leb (length units) 32

leb-take : (n : ℕ) (text : Bytes) → leb (length (take n text)) n ≡ true
leb-take n text = le→leb (length (take n text)) n (omega (arith, length-take n text))

text_fits : (o : Option Bytes) → fits_buffer (text_units o) ≡ true
text_fits none = refl
text_fits (some text) = leb-take 32 text

string_units_fits :
    (strings : List (Option Bytes)) (mac : Bytes) (serial : List ℕ) (index : ℕ)
    → length serial ≤ 32
    → length mac ≡ 6
    → fits_buffer (string_units strings mac serial index) ≡ true
unfolding string_units
string_units_fits strings mac serial index l m =
    ground (arith, l, m, length-mac_units mac, text_fits (get_or strings index none))

headed-length :
    (t : Tusb) (o : Option (List ℕ)) (answer : List ℕ)
    → t.desc_string < 256
    → fits_buffer o ≡ true
    → headed t o ≡ some answer
    → (get_or answer 0 0 ≡ t.desc_string * 256 + 2 * length answer) × (length answer ≤ 33)
headed-length t none answer d h e = absurd (ground (arith, e))
headed-length t (some units) answer d h e =
    subst (λ (a : List ℕ). (get_or a 0 0 ≡ t.desc_string * 256 + 2 * length a) × (length a ≤ 33))
      (ap (λ o. elim o [ none ↦ [] | some a ↦ a ]) e) (ground (arith, d, h), ground (arith, h))

-- What a device answers for a text fits its buffer of 33 units, and the first unit tells the host the
-- type and the length in bytes.
string_cb_length :
    (t : Tusb) (strings : List (Option Bytes)) (mac : Bytes) (serial : List ℕ) (index : ℕ)
    (answer : List ℕ)
    → t.desc_string < 256
    → length serial ≤ 32
    → length mac ≡ 6
    → tud_descriptor_string_cb t strings mac serial index ≡ some answer
    → (get_or answer 0 0 ≡ t.desc_string * 256 + 2 * length answer) × (length answer ≤ 33)
unfolding tud_descriptor_string_cb
string_cb_length t strings mac serial index answer d l m e =
    headed-length t (string_units strings mac serial index) answer d
      (string_units_fits strings mac serial index l m) e

-- What a host makes of a string descriptor: the text is as long as the first unit's low byte says.
abbrev pub text_of : Option (List ℕ) → List ℕ
text_of none = []
text_of (some []) = []
text_of (some (head ∷ units)) = take ((head % 256 - 2) / 2) units

take-length : (units : List ℕ) → take (length units) units ≡ units
take-length [] = refl
take-length (u ∷ us) = ap (◌∷◌ u) (take-length us)

text_of-headed :
    (t : Tusb) (units : List ℕ) (n : ℕ)
    → length units ≡ n
    → n ≤ 32
    → text_of (headed t (some units)) ≡ units
text_of-headed t units n l h = ap (λ k. take k units) (ground (arith, l, h)) ∙ take-length units

length-identity : (id : Bytes) → length id ≡ 8 → length (0x02 ∷ take 5 (drop 3 id)) ≡ 6
length-identity id h = omega (arith, h, length-take 5 (drop 3 id), length-drop 3 id)

all_bytes-take : (n : ℕ) (bs : Bytes) → all_bytes bs ≡ true → all_bytes (take n bs) ≡ true
all_bytes-take zero bs h = refl
all_bytes-take (suc n) [] h = refl
all_bytes-take (suc n) (b ∷ bs) h = ground (arith, all_bytes-take n bs)

all_bytes-drop : (n : ℕ) (bs : Bytes) → all_bytes bs ≡ true → all_bytes (drop n bs) ≡ true
all_bytes-drop zero bs h = h
all_bytes-drop (suc n) [] h = refl
all_bytes-drop (suc n) (b ∷ bs) h = ground (arith, all_bytes-drop n bs)

mac_text-read :
    (t : Tusb) (strings : List (Option Bytes)) (mac : Bytes) (serial : List ℕ)
    → length mac ≡ 6
    → all_bytes mac ≡ true
    → read_mac (text_of (tud_descriptor_string_cb t strings mac serial strid_mac)) ≡ some mac
unfolding tud_descriptor_string_cb string_units
mac_text-read t strings mac serial l h =
    ap read_mac
      (text_of-headed t (mac_units mac) 12 (omega (arith, l, length-mac_units mac)) (omega arith))
    ∙ read_mac-mac_units mac h

-- A host that asks a device for the string of the hardware address, and reads as many hexadecimal
-- digits as the answer says it has, gets the address that the device has made for it at its start: 02
-- and the last five of the eight bytes of its board's number. So it does of both devices.
pub host_reads_mac :
    (t : Tusb) {W : Type 0} (p : NetPlatform W) (n : Net W) (serial : List ℕ)
    → length (p.unique_board_id n.world) ≡ 8
    → all_bytes (p.unique_board_id n.world) ≡ true
    → let mac = (net_usb_prepare_identity p n).mac in
      let id = some (0x02 ∷ take 5 (drop 3 (p.unique_board_id n.world))) in
      (read_mac (text_of (tud_descriptor_string_cb t display_strings mac serial strid_mac)) ≡ id)
      × (read_mac (text_of (tud_descriptor_string_cb t keyboard_strings mac serial strid_mac)) ≡ id)
unfolding net_usb_prepare_identity
host_reads_mac t p n serial l h =
    let id = p.unique_board_id n.world in
    let bytes : all_bytes (0x02 ∷ take 5 (drop 3 id)) ≡ true =
      all_bytes-take 5 (drop 3 id) (all_bytes-drop 3 id h) in
    (
      mac_text-read t display_strings _ serial (length-identity id l) bytes,
      mac_text-read t keyboard_strings _ serial (length-identity id l) bytes,
    )

length-utf16 : (text : Bytes) → length (utf16 text) ≡ 2 * length text
unfolding utf16
length-utf16 [] = refl
length-utf16 (c ∷ cs) = omega (arith, length-utf16 cs)

length-ms_os_20_descriptor :
    (t : Tusb) (first_interface : ℕ) (guid : Bytes)
    → IsLittleEndian t
    → length guid ≡ 38
    → length (ms_os_20_descriptor t first_interface guid) ≡ 178
unfolding ms_os_20_descriptor
length-ms_os_20_descriptor t first_interface guid (h, k) l =
    simp (h, k, length-append, length-utf16, l) refl

total_len-ms_os_20_descriptor :
    (t : Tusb) (first_interface : ℕ) (guid : Bytes)
    → IsLittleEndian t
    → total_len (ms_os_20_descriptor t first_interface guid) ≡ 178
unfolding ms_os_20_descriptor
total_len-ms_os_20_descriptor t first_interface guid (h, k) = simp (h, k) refl

-- A device answers the vendor request with the whole of its Microsoft OS descriptor: the length that
-- the display reads from its bytes is the length that the keyboard takes of its array. Both stall the
-- same requests.
pub control_xfer_agrees :
    (t : Tusb) (first_interface : ℕ) (guid : Bytes) (setup vendor : Bool) (number index : ℕ)
    → IsLittleEndian t
    → length guid ≡ 38
    → let desc = ms_os_20_descriptor t first_interface guid in
      display_control_xfer_cb desc setup vendor number index
      ≡ keyboard_control_xfer_cb desc setup vendor number index
unfolding display_control_xfer_cb keyboard_control_xfer_cb
control_xfer_agrees t first_interface guid setup vendor number index h l = ground (
  arith,
  length-ms_os_20_descriptor t first_interface guid h l,
  total_len-ms_os_20_descriptor t first_interface guid h,
)
