-- ===== src/Keyboard/Redraw.antt =====
-- The redraw in the main loop of PicoDeck-ED-Keyboard/src/main.c.
use pico_deck_eddiscovery.Base.{
  ℕ, zero, suc, ◌+◌, ◌*◌, ◌^◌, ◌≤◌, ◌<◌, ◌≡◌, refl, ap, ◌/◌, bit_and, Bool, true, false, not, ◌||◌,
  Option, none, some, arith, ◌==◌, ◌!=◌, if◌then◌else◌, inl, inr, Bool-cases,
}
use pico_deck_eddiscovery.Base.Bits.{bit_at, bit_at-lt, bit_and-pow}
use native.Mathlib.Nat.{pow-suc}
use pico_deck_eddiscovery.Keyboard.EddButtons.{edd_button_active}
use pico_deck_eddiscovery.Keyboard.Main.{clear_bit, render_from, render_one_dirty_button}
use pico_deck_eddiscovery.Keyboard.Lit.{pow_pos, has_bit, digit-times}

bit_and-dirty : (dirty i : ℕ) → ((bit_and dirty (2 ^ i)) == 0) ≡ not (has_bit i dirty)
bit_and-dirty dirty i =
    rw (bit_and-pow i dirty)
      (ground (arith, digit-times (bit_at i dirty) (2 ^ i) (bit_at-lt i dirty) (pow_pos i)))

-- What a redraw does: it draws the lowest dirty button and takes that one away, or there is none.
abbrev pub lowest_from : ℕ → ℕ → ℕ → Option ℕ
lowest_from dirty zero i = none
lowest_from dirty (suc n) i = if has_bit i dirty then some i else lowest_from dirty n (suc i)

abbrev pub Drawn : ℕ → ℕ → Option ℕ → Option ℕ → Option (ℕ × Bool) × ℕ → Type 0
Drawn active_mask dirty touched_button none r = r ≡ (none, dirty)
Drawn active_mask dirty touched_button (some i) r =
    (has_bit i dirty ≡ true)
    × (r.1 + 2 ^ i ≡ dirty)
    × (r.0
        ≡ some (
          i,
          edd_button_active active_mask i || elim touched_button [ none ↦ false | some b ↦ b == i ],
        ))

bit_at-le : (i m : ℕ) → bit_at i m * 2 ^ i ≤ m
bit_at-le zero m = omega arith
bit_at-le (suc i) m =
    omega
      (arith, bit_at-le i (m / 2), pow-suc 2 i, ap (λ (t : ℕ). bit_at i (m / 2) * t) (pow-suc 2 i))

digit-le : (b t m : ℕ) → b < 2 → (b != 0) ≡ true → b * t ≤ m → t ≤ m
digit-le zero t m h k l = absurd (ground arith)
digit-le (suc zero) t m h k l = omega arith
digit-le (suc (suc b)) t m h k l = absurd (omega arith)

clear_bit-add : (i dirty : ℕ) → has_bit i dirty ≡ true → clear_bit dirty i + 2 ^ i ≡ dirty
clear_bit-add i dirty h =
    omega (arith, digit-le (bit_at i dirty) (2 ^ i) dirty (bit_at-lt i dirty) h (bit_at-le i dirty))

render_from-Drawn :
    (active_mask dirty n i : ℕ) (touched_button : Option ℕ)
    → Drawn active_mask dirty touched_button
        (lowest_from dirty n i)
        (render_from active_mask dirty n i touched_button)
unfolding render_from
render_from-Drawn active_mask dirty zero i touched_button = refl
render_from-Drawn active_mask dirty (suc n) i touched_button = elim (Bool-cases (has_bit i dirty)) [
  | inl e ↦ rw (bit_and-dirty dirty i, e) (e, clear_bit-add i dirty e, refl)
  | inr e ↦
      rw (bit_and-dirty dirty i, e) (render_from-Drawn active_mask dirty n (suc i) touched_button)
]

not_zero : (n : ℕ) → (suc n == 0) ≡ false
not_zero n = ground arith

-- A call draws the lowest dirty button, lit where EDDiscovery says so or where it is being touched, and
-- takes that button and no other off the dirty ones; with none of the 24 dirty it draws nothing.
pub render_one_dirty_button_lem :
    (active_mask dirty : ℕ) (touched_button : Option ℕ)
    → Drawn active_mask dirty touched_button
        (lowest_from dirty 24 0)
        (render_one_dirty_button active_mask dirty touched_button)
unfolding render_one_dirty_button
render_one_dirty_button_lem active_mask zero touched_button = refl
render_one_dirty_button_lem active_mask (suc dirty) touched_button =
    rw (not_zero dirty) (render_from-Drawn active_mask (suc dirty) 24 0 touched_button)
