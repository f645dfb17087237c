-- ===== src/Display/Scroll.antt =====
-- The scrolling texts of PicoDeck-ED-Display/src/dashboard.c.
use pico_deck_eddiscovery.Base.{
  ℕ, ◌+◌, ◌-◌, ◌*◌, ◌%◌, ◌≤◌, ◌<◌, ◌≡◌, Bytes, refl, sym, ◌∙◌, arith, Bool-cases, inl, inr, leb,
  leb→le, ltb, if◌then◌else◌,
}
use native.Mathlib.Nat.{zero-mod, mod-lt, mod-eq_of_lt, mod-eq-sub-mod, mod-add-mod}
use pico_deck_eddiscovery.Display.Dashboard.{
  text_width, scroll_phase, scroll_offset, scroll_hold_ms, scroll_pixel_ms,
}

-- Half a cycle: the hold at one end and the way to the other.
abbrev pub half_cycle : Bytes → ℕ → ℕ → ℕ
half_cycle text scale width = scroll_hold_ms + (text_width text scale - width) * scroll_pixel_ms

-- `d + e` wraps at most once.
wrap_once :
    (d e cycle : ℕ)
    → d < cycle
    → e < cycle
    → (d + e) % cycle ≡ (if ltb (d + e) cycle then d + e else d + e - cycle)
wrap_once d e cycle h k = elim (Bool-cases (ltb (d + e) cycle)) [
  | inl l ↦ rw l (mod-eq_of_lt (ground arith))
  | inr l ↦ rw l (mod-eq-sub-mod (ground arith) ∙ mod-eq_of_lt (ground arith))
]

later_phase :
    (t e cycle : ℕ)
    → e < cycle
    → (t + e) % cycle ≡ (if ltb (t % cycle + e) cycle then t % cycle + e else t % cycle + e - cycle)
later_phase t e cycle k =
    sym (mod-add-mod t cycle e) ∙ wrap_once (t % cycle) e cycle (mod-lt t (omega arith)) k

phase_halves :
    (overflow t : ℕ)
    → scroll_phase overflow t
        + scroll_phase overflow (t + (scroll_hold_ms + overflow * scroll_pixel_ms))
      ≡ overflow
unfolding scroll_phase
phase_halves overflow t = ground (
  arith,
  later_phase t (scroll_hold_ms + overflow * scroll_pixel_ms)
      (2 * (scroll_hold_ms + overflow * scroll_pixel_ms)),
)

phase_step :
    (overflow t : ℕ)
    → (scroll_phase overflow (t + 1) ≤ scroll_phase overflow t + 1)
      × (scroll_phase overflow t ≤ scroll_phase overflow (t + 1) + 1)
unfolding scroll_phase
phase_step overflow t =
    ground (arith, later_phase t 1 (2 * (scroll_hold_ms + overflow * scroll_pixel_ms)))

phase_start : (overflow : ℕ) → scroll_phase overflow 0 ≡ 0
unfolding scroll_phase
phase_start overflow = rw (zero-mod (2 * (scroll_hold_ms + overflow * scroll_pixel_ms))) refl

-- The text is in its place at the time 0, it moves by at most a pixel in a millisecond, and half a
-- cycle later it is as far from one end as it is now from the other: the two offsets add up to what
-- does not fit. So the offset is never more than that, half a cycle on the end of the text is at the
-- right edge, and a text that fits stays in its place.
pub scroll_offset_swings :
    (text : Bytes) (scale width render_ms : ℕ)
    → let offset = scroll_offset text scale width in
      (offset 0 ≡ 0)
      × (offset render_ms + offset (render_ms + half_cycle text scale width)
          ≡ text_width text scale - width)
      × (offset (render_ms + 1) ≤ offset render_ms + 1)
      × (offset render_ms ≤ offset (render_ms + 1) + 1)
unfolding scroll_offset
scroll_offset_swings text scale width render_ms =
    let overflow = text_width text scale - width in
    elim (Bool-cases (leb (text_width text scale) width)) [
      | inl fits ↦
          rw fits (
            refl,
            omega (arith, leb→le (text_width text scale) width fits),
            omega arith,
            omega arith,
          )
      | inr wide ↦ rw wide (
        phase_start overflow,
        phase_halves overflow render_ms,
        (phase_step overflow render_ms).0,
        (phase_step overflow render_ms).1,
      )
    ]
