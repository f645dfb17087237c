-- ===== src/Keyboard/Pixels.antt =====
-- What one pixel of the keyboard's panel shows behind the drawing of PicoDeck-ED-Keyboard/src/main.c.
use pico_deck_eddiscovery.Base.{
  ℕ, zero, suc, ◌+◌, ◌<◌, ◌≡◌, refl, sym, ap, ◌∙◌, Bool, true, false, ◌&&◌, Option, none, some,
  List, [], ◌∷◌, leb, ltb, ◌==◌, if◌then◌else◌, Bool-cases, inl, inr, Bytes, arith,
}
use pico_deck_eddiscovery.Keyboard.EddButtons.{edd_button_active}
use pico_deck_eddiscovery.Keyboard.Press.{Effect}
use pico_deck_eddiscovery.Keyboard.Fresh.{current, same_number, seen_effects, seen_dirty}
use pico_deck_eddiscovery.Keyboard.Ui.Screen.{ui_render_button, after_blits}
use pico_deck_eddiscovery.Keyboard.Ui.Shows.{
  tile_at, button_color, after_blits-append, one_more, no_more, all_of_them, ui_render_button_shows,
}
use pico_deck_eddiscovery.Keyboard.Device.{keyboard_from, render_keyboard, draw_effects, draw_dirty}
use Effect.{render_pressed, render_idle, key_down, key_up, reset_usb_boot}

pub tile_bound : (x y : ℕ) → x < 480 → y < 320 → tile_at x y < 24
tile_bound x y h k = omega (arith, h, k)

module _ (icons : ℕ → Bool → Bytes) (x y : ℕ) (h : x < 480) (k : y < 320) where
  abbrev shade : Bool → ℕ
  shade active = button_color icons active x y

  one_button :
      (i : ℕ) (active : Bool) (panel : ℕ → ℕ → ℕ)
      → after_blits (ui_render_button icons i active) panel x y
        ≡ (if tile_at x y == i then shade active else panel x y)
  unfolding ui_render_button
  one_button i active panel = elim (Bool-cases (leb 24 i)) [
    | inl e ↦ rw (e, elsewhere (ground (arith, e, tile_bound x y h k))) refl
    | inr e ↦ ui_render_button_shows x y h k icons active i panel (ground (arith, e))
  ]
    where
      elsewhere : tile_at x y < i → (tile_at x y == i) ≡ false
      elsewhere l = ground (arith, l)

  pub draw_effects-seen :
      (active_mask : ℕ) (es : List Effect) (panel : ℕ → ℕ → ℕ)
      → draw_effects icons active_mask es panel x y
        ≡ seen_effects shade active_mask (tile_at x y) es (panel x y)
  unfolding draw_effects
  draw_effects-seen active_mask [] panel = refl
  draw_effects-seen active_mask (render_pressed b ∷ es) panel =
      draw_effects-seen active_mask es (after_blits (ui_render_button icons b true) panel)
      ∙ ap (seen_effects shade active_mask (tile_at x y) es) (one_button b true panel)
  draw_effects-seen active_mask (render_idle b ∷ es) panel =
      draw_effects-seen active_mask es
        (after_blits (ui_render_button icons b (edd_button_active active_mask b)) panel)
      ∙ ap (seen_effects shade active_mask (tile_at x y) es)
          (one_button b (edd_button_active active_mask b) panel)
  draw_effects-seen active_mask (key_down u ∷ es) panel = draw_effects-seen active_mask es panel
  draw_effects-seen active_mask (key_up ∷ es) panel = draw_effects-seen active_mask es panel
  draw_effects-seen active_mask (reset_usb_boot ∷ es) panel = draw_effects-seen active_mask es panel

  pub draw_dirty-seen :
      (o : Option (ℕ × Bool)) (panel : ℕ → ℕ → ℕ)
      → draw_dirty icons o panel x y ≡ seen_dirty shade 0 (tile_at x y) o (panel x y)
  draw_dirty-seen none panel = refl
  draw_dirty-seen (some (i, active)) panel = one_button i active panel

  keyboard_from-seen :
      (active_mask n i : ℕ) (panel : ℕ → ℕ → ℕ)
      → after_blits (keyboard_from icons active_mask n i) panel x y ≡ (
          if leb i (tile_at x y) && ltb (tile_at x y) (i + n)
          then shade (edd_button_active active_mask (tile_at x y))
          else panel x y)
  unfolding keyboard_from
  keyboard_from-seen active_mask zero i panel =
      no_more i (tile_at x y) (shade (edd_button_active active_mask (tile_at x y))) (panel x y)
  keyboard_from-seen active_mask (suc n) i panel =
      one_more i n (tile_at x y) (shade (edd_button_active active_mask (tile_at x y))) (panel x y)
        (after_blits (keyboard_from icons active_mask (suc n) i) panel x y)
        (ap (λ q. q x y)
            (after_blits-append (ui_render_button icons i (edd_button_active active_mask i))
              (keyboard_from icons active_mask n (suc i)) panel)
          ∙ keyboard_from-seen active_mask n (suc i)
              (after_blits (ui_render_button icons i (edd_button_active active_mask i)) panel)
          ∙ ap
              (λ c.
                if leb (suc i) (tile_at x y) && ltb (tile_at x y) (suc i + n)
                then shade (edd_button_active active_mask (tile_at x y))
                else c)
              (one_button i (edd_button_active active_mask i) panel ∙ own))
    where
      own : (if tile_at x y == i then shade (edd_button_active active_mask i) else panel x y) ≡ (
          if tile_at x y == i
          then shade (edd_button_active active_mask (tile_at x y))
          else panel x y)
      own = elim (Bool-cases (tile_at x y == i)) [
        | inl e ↦ rw e (
            ap (λ j. shade (edd_button_active active_mask j)) (sym (same_number (tile_at x y) i e)))
        | inr e ↦ rw e refl
      ]

  pub render_keyboard-seen :
      (active_mask : ℕ) (panel : ℕ → ℕ → ℕ)
      → after_blits (render_keyboard icons active_mask) panel x y
        ≡ shade (current active_mask none (tile_at x y))
  render_keyboard-seen active_mask panel =
      keyboard_from-seen active_mask 24 0 panel
      ∙ all_of_them (tile_at x y) (shade (edd_button_active active_mask (tile_at x y))) (panel x y)
          (tile_bound x y h k)
      ∙ ap shade (ground arith)
