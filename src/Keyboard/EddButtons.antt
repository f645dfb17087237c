-- ===== src/Keyboard/EddButtons.antt =====
-- PicoDeck-ED-Keyboard/src/edd_buttons.c: which buttons are lit, read from an indicator message.
use pico_deck_eddiscovery.Base.{
  ℕ, suc, ◌+◌, ◌^◌, bit_and, bit_or, bit_xor, Bool, false, ◌&&◌, ◌||◌, Option, none, some, List, [],
  ◌∷◌, ltb, leb, ◌==◌, ◌!=◌, if◌then◌else◌, length, get_or, take, drop, Bytes, codes, equal,
}
use pico_deck_eddiscovery.Keyboard.Buttons.{g_button_count}

abbrev pub is_white : ℕ → Bool
is_white c = c == b' ' || c == b'\t' || c == b'\r' || c == b'\n'

-- The two `while` loops over white space; the list is `json + p`.
unfoldable pub skip_white : Bytes → Bytes
skip_white [] = []
skip_white (c ∷ cs) = if is_white c then skip_white cs else c ∷ cs

-- Behind the closing quote: the value, or `continue` (`none`).
unfoldable pub after_colon : Bytes → Option Bytes
after_colon rest = elim (skip_white rest) [
  | [] ↦ none
  | c ∷ cs ↦ if c == b':' then some (skip_white cs) else none
]

-- `json[i] == '"' && key follows && '"' behind it`: the bytes behind that quote.
unfoldable pub quoted_key : Bytes → Bytes → Option Bytes
quoted_key key [] = none
quoted_key key (c ∷ cs) =
    if c == b'"' && equal (take (length key) cs) key && get_or cs (length key) 0 == b'"'
    then some (drop (suc (length key)) cs)
    else none

abbrev null_at_end : Bytes → Option Bytes
null_at_end [] = none
null_at_end (c ∷ cs) = some (c ∷ cs)

-- The loop of `find_value`: the list is `json + i`, and the loop's test `i + key_length + 2 < length`
-- says that the quoted key and one byte more fit in it. The result is the text from the value on.
unfoldable pub find_value : Bytes → Bytes → Option Bytes
find_value key [] = none
find_value key (c ∷ cs) =
    let rest = find_value key cs in
    if ltb (length key + 2) (suc (length cs))
    then elim (quoted_key key (c ∷ cs)) [
      | none ↦ rest
      | some behind ↦ elim (after_colon behind) [ none ↦ rest | some value ↦ null_at_end value ]
    ]
    else none

unfoldable pub json_bool : Bytes → Bytes → Bool
json_bool json key = elim (find_value key json) [
  | none ↦ false
  | some value ↦ get_or value 0 0 == b'1' || equal (take 4 value) (codes "true")
]

unfoldable pub json_string_is : Bytes → Bytes → Bytes → Bool
json_string_is json key expected = elim (find_value key json) [
  | none ↦ false
  | some value ↦
      get_or value 0 0 == b'"'
      && leb (length expected + 2) (length value)
      && equal (take (length expected) (drop 1 value)) expected
      && get_or value (suc (length expected)) 0 == b'"'
]

-- `set_bit`, with `1u << index`.
unfoldable pub set_bit : ℕ → Bool → ℕ → ℕ
set_bit index active mask =
    if leb g_button_count index then mask else if active then bit_or mask (2 ^ index) else mask

unfoldable pub is_indicator : Bytes → Bool
is_indicator json =
    json_string_is json (codes "responsetype") (codes "indicator")
    || json_string_is json (codes "responsetype") (codes "indicatorpush")

-- The calls of `set_bit`, in order: the button and its state.
unfoldable pub button_states : Bytes → List (ℕ × Bool)
button_states json =
    (0, json_bool json (codes "LandingGear"))
    ∷ (
      2,
      json_bool json (codes "Supercruise")
          || json_bool json (codes "FsdCharging")
          || json_bool json (codes "FsdJump"),
    )
    ∷ (3, json_bool json (codes "Lights"))
    ∷ (4, json_bool json (codes "SilentRunning"))
    ∷ (5, json_bool json (codes "NightVision"))
    ∷ (6, json_bool json (codes "HardpointsDeployed"))
    ∷ (10, json_bool json (codes "HUDInAnalysisMode"))
    ∷ (11, json_string_is json (codes "GUIFocus") (codes "FSSMode"))
    ∷ (16, json_bool json (codes "CargoScoopDeployed"))
    ∷ (18, json_string_is json (codes "GUIFocus") (codes "TargetPanel"))
    ∷ (19, json_string_is json (codes "GUIFocus") (codes "CommsPanel"))
    ∷ (20, json_string_is json (codes "GUIFocus") (codes "RolePanel"))
    ∷ (21, json_string_is json (codes "GUIFocus") (codes "SystemPanel"))
    ∷ (22, json_string_is json (codes "GUIFocus") (codes "GalaxyMap"))
    ∷ (23, json_string_is json (codes "GUIFocus") (codes "SystemMap"))
    ∷ []

unfoldable pub set_bits : List (ℕ × Bool) → ℕ → ℕ
set_bits [] mask = mask
set_bits ((index, active) ∷ rest) mask = set_bits rest (set_bit index active mask)

-- `edd_buttons_handle_json`: the changed buttons and the new `s_active_mask`. The pointer is not
-- NULL: the WebSocket client hands over its buffer.
unfoldable pub handle_json : Bytes → ℕ → ℕ × ℕ
handle_json json active_mask =
    let next = set_bits (button_states json) 0 in
    if is_indicator json then (bit_xor active_mask next, next) else (0, active_mask)

-- `edd_button_active`
unfoldable pub edd_button_active : ℕ → ℕ → Bool
edd_button_active active_mask index = ltb index 32 && (bit_and active_mask (2 ^ index)) != 0

-- `on_websocket_message` of main.c: the dirty buttons add up.
unfoldable pub on_websocket_message : Bytes → ℕ × ℕ → ℕ × ℕ
on_websocket_message json (dirty, active_mask) =
    let (changed, next) = handle_json json active_mask in (bit_or dirty changed, next)
