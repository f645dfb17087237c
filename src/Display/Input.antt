-- ===== src/Display/Input.antt =====
-- `debounced_input_t` of PicoDeck-ED-Display/src/main.c. A level is `true` for high; both inputs are
-- pulled up, so a press is low.
use pico_deck_eddiscovery.Base.{ℕ, Bool, true, false, not, ◌&&◌, leb, if◌then◌else◌}
use pico_deck_eddiscovery.Base.Bits.{sub64}

pub record DebouncedInput : Type 0 where
  pub raw_level : Bool
  pub stable_level : Bool
  pub changed_ms : ℕ

abbrev pub differs : Bool → Bool → Bool
differs true b = not b
differs false b = b

unfoldable pub debounced_input_init : Bool → ℕ → DebouncedInput
debounced_input_init level now = record {
  raw_level = level;
  stable_level = level;
  changed_ms = now;
}

-- The level is that of `gpio_get`.
unfoldable pub debounced_input_pressed : Bool → ℕ → DebouncedInput → Bool × DebouncedInput
debounced_input_pressed level now d =
    if differs level d.raw_level
    then (false, record d { raw_level = level; changed_ms = now })
    else if differs d.stable_level d.raw_level && leb 35 (sub64 now d.changed_ms)
    then (not d.raw_level, record d { stable_level = d.raw_level })
    else (false, d)
