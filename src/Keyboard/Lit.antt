-- ===== src/Keyboard/Lit.antt =====
-- What an indicator message does to the lit buttons of PicoDeck-ED-Keyboard/src/edd_buttons.c, and to
-- the buttons that main.c draws again.
use pico_deck_eddiscovery.Base.{
  ℕ, zero, suc, ◌*◌, ◌^◌, ◌<◌, ◌≡◌, refl, bit_xor, Bool, true, false, not, ◌&&◌, ◌||◌, List, [],
  ◌∷◌, ltb, ◌==◌, ◌!=◌, if◌then◌else◌, Bytes, arith, Bool-cases, inl, inr,
}
use pico_deck_eddiscovery.Base.Bits.{
  bit_at, bit_at-lt, bit_at-xor, bit_at-or, bit_at-zero, bit_at-pow, bit_and-pow,
}
use native.Mathlib.Nat.{pow-suc}
use pico_deck_eddiscovery.Keyboard.EddButtons.{
  set_bit, set_bits, button_states, is_indicator, handle_json, edd_button_active,
}

-- Some entry for button `i` says that it is lit.
abbrev pub lit_by : List (ℕ × Bool) → ℕ → Bool
lit_by [] i = false
lit_by ((index, active) ∷ rest) i = (index == i && active) || lit_by rest i

abbrev pub same_bool : Bool → Bool → Bool
same_bool true b = b
same_bool false b = not b

abbrev pub has_bit : ℕ → ℕ → Bool
has_bit i mask = bit_at i mask != 0

set_bit-at :
    (index : ℕ) (active : Bool) (mask i : ℕ)
    → has_bit i (set_bit index active mask)
      ≡ has_bit i mask || (ltb index 24 && index == i && active)
unfolding set_bit
set_bit-at index active mask i =
    ground (arith, bit_at-or i mask (2 ^ index), bit_at-pow i index, bit_at-lt i mask)

-- Every entry names one of the 24 buttons.
abbrev in_table : List (ℕ × Bool) → Bool
in_table [] = true
in_table ((index, active) ∷ rest) = ltb index 24 && in_table rest

in_table-button_states : (json : Bytes) → in_table (button_states json) ≡ true
unfolding button_states
in_table-button_states json = refl

set_bits-at :
    (states : List (ℕ × Bool)) (mask i : ℕ)
    → in_table states ≡ true
    → has_bit i (set_bits states mask) ≡ has_bit i mask || lit_by states i
unfolding set_bits
set_bits-at [] mask i h = ground arith
set_bits-at ((index, active) ∷ rest) mask i h =
    ground (arith, set_bits-at rest (set_bit index active mask) i, set_bit-at index active mask i)

pub pow_pos : (i : ℕ) → 0 < 2 ^ i
pow_pos zero = omega arith
pow_pos (suc i) = omega (arith, pow-suc 2 i, pow_pos i)

pub digit-times : (b t : ℕ) → b < 2 → 0 < t → (b * t != 0) ≡ (b != 0)
digit-times zero t h k = ground arith
digit-times (suc zero) t h k = ground arith
digit-times (suc (suc b)) t h k = absurd (omega arith)

pub edd_button_active-bit : (mask i : ℕ) → i < 32 → edd_button_active mask i ≡ has_bit i mask
unfolding edd_button_active
edd_button_active-bit mask i h =
    rw (bit_and-pow i mask)
      (ground (arith, digit-times (bit_at i mask) (2 ^ i) (bit_at-lt i mask) (pow_pos i)))

changed-bit : (i a b : ℕ) → has_bit i (bit_xor a b) ≡ not (same_bool (has_bit i b) (has_bit i a))
changed-bit i a b = ground (arith, bit_at-xor i a b, bit_at-lt i a, bit_at-lt i b)

changed-active :
    (i a b : ℕ)
    → i < 24
    → edd_button_active (bit_xor a b) i
      ≡ not (same_bool (edd_button_active b i) (edd_button_active a i))
changed-active i a b h = ground (
  arith,
  changed-bit i a b,
  edd_button_active-bit (bit_xor a b) i,
  edd_button_active-bit a i,
  edd_button_active-bit b i,
)

lit-active :
    (json : Bytes) (i : ℕ)
    → i < 24
    → edd_button_active (set_bits (button_states json) 0) i ≡ lit_by (button_states json) i
lit-active json i h = ground (
  arith,
  set_bits-at (button_states json) 0 i (in_table-button_states json),
  bit_at-zero i,
  edd_button_active-bit (set_bits (button_states json) 0) i,
)

nothing-changed :
    (a i : ℕ)
    → i < 24
    → edd_button_active 0 i ≡ not (same_bool (edd_button_active a i) (edd_button_active a i))
nothing-changed a i h = ground (arith, edd_button_active-bit 0 i, bit_at-zero i)

-- After an indicator message exactly the buttons are lit that the message says are on; each of them
-- and each that went out is reported as changed, and no other is; a message of another kind changes
-- nothing.
pub handle_json-active :
    (json : Bytes) (active_mask i : ℕ)
    → i < 24
    → let r = handle_json json active_mask in
      (edd_button_active r.1 i ≡ (
        if is_indicator json
        then lit_by (button_states json) i
        else edd_button_active active_mask i))
      × (edd_button_active r.0 i
          ≡ not (same_bool (edd_button_active r.1 i) (edd_button_active active_mask i)))
unfolding handle_json
handle_json-active json active_mask i h = elim (Bool-cases (is_indicator json)) [
  | inl e ↦
      rw (e) (lit-active json i h, changed-active i active_mask (set_bits (button_states json) 0) h)
  | inr e ↦ rw (e) (refl, nothing-changed active_mask i h)
]
