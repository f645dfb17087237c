-- ===== src/Keyboard/Ui/Shows.antt =====
-- What the panel shows after the drawing of the buttons by PicoDeck-ED-Keyboard/src/ui.c.
use pico_deck_eddiscovery.Base.{
  ℕ, zero, suc, ◌+◌, ◌-◌, ◌*◌, ◌/◌, ◌%◌, ◌≤◌, ◌<◌, ◌≡◌, refl, ap, ◌∙◌, subst, Bool, true, false,
  ◌&&◌, List, [], ◌∷◌, ◌++◌, append-nil, leb, ltb, ◌==◌, if◌then◌else◌, some, Bool-cases, inl, inr,
  length, Bytes, arith,
}
use pico_deck_eddiscovery.Base.Pixels.{color_at}
use pico_deck_eddiscovery.Display.Lcd.{Bus, lcd_blit_rgb565_be}
use pico_deck_eddiscovery.Display.Window.{Panel, sees_all, lcd_blit_rgb565_be_lem}
use pico_deck_eddiscovery.Keyboard.Buttons.{ButtonDefinition, g_buttons, button_at}
use pico_deck_eddiscovery.Keyboard.Ui.{tile_x, tile_y}
use pico_deck_eddiscovery.Keyboard.Ui.Tile.{tile}
use pico_deck_eddiscovery.Keyboard.Ui.Picture.{length-tile, tile_color, tile_shows}
use pico_deck_eddiscovery.Keyboard.Ui.Screen.{
  Blit, foreground, ui_render_button, buttons_from, ui_render_all, after_blit, after_blits,
  blit_bus,
}

-- Every label has at most six characters: a line fits the tile.
abbrev labels_fit : List ButtonDefinition → Bool
labels_fit [] = true
labels_fit (b ∷ bs) = leb (length b.label_top) 6 && leb (length b.label_bottom) 6 && labels_fit bs

label_fits :
    (bs : List ButtonDefinition) (i : ℕ)
    → labels_fit bs ≡ true
    → (length (button_at i bs).label_top ≤ 6) × (length (button_at i bs).label_bottom ≤ 6)
label_fits [] i h = (omega arith, omega arith)
label_fits (b ∷ bs) zero h = (ground arith, ground arith)
label_fits (b ∷ bs) (suc i) h = label_fits bs i (ground arith)

-- The button whose tile holds the point.
abbrev pub tile_at : ℕ → ℕ → ℕ
tile_at x y = y / 80 * 6 + x / 80

-- What the tile at the point shows of its button.
unfoldable pub button_color : (ℕ → Bool → Bytes) → Bool → ℕ → ℕ → ℕ
button_color icons active x y =
    let i = tile_at x y in
    tile_color (button_at i g_buttons) (icons i active) (foreground active) (x % 80) (y % 80)

pub after_blits-append :
    (bs cs : List Blit) (panel : ℕ → ℕ → ℕ)
    → after_blits (bs ++ cs) panel ≡ after_blits cs (after_blits bs panel)
after_blits-append [] cs panel = refl
after_blits-append (b ∷ bs) cs panel = after_blits-append bs cs (after_blit b panel)

-- One more button at the front of a range.
pub one_more :
    (i n t a b r : ℕ)
    → r ≡ (if leb (suc i) t && ltb t (suc i + n) then a else (if t == i then a else b))
    → r ≡ (if leb i t && ltb t (i + suc n) then a else b)
one_more i n t a b r h = ground (arith, h)

pub no_more : (i t a b : ℕ) → b ≡ (if leb i t && ltb t (i + 0) then a else b)
no_more i t a b = ground arith

pub all_of_them : (t a b : ℕ) → t < 24 → (if leb 0 t && ltb t 24 then a else b) ≡ a
all_of_them t a b h = ground arith

module _ (x y : ℕ) (h : x < 480) (k : y < 320) where
  in_tile :
      (i : ℕ)
      → i < 24
      → (leb (tile_x i) x && ltb x (tile_x i + 80) && leb (tile_y i) y && ltb y (tile_y i + 80))
        ≡ (tile_at x y == i)
  unfolding tile_x tile_y
  in_tile i l = ground arith

  offset_in_tile :
      (y - tile_y (tile_at x y)) * 80 + (x - tile_x (tile_at x y)) ≡ y % 80 * 80 + x % 80
  unfolding tile_x tile_y
  offset_in_tile = omega (arith, h, k)

  -- A button that is drawn shows in its own tile, and every other tile stays as it was.
  pub ui_render_button_shows :
      (icons : ℕ → Bool → Bytes) (active : Bool) (i : ℕ) (panel : ℕ → ℕ → ℕ)
      → i < 24
      → after_blits (ui_render_button icons i active) panel x y
        ≡ (if tile_at x y == i then button_color icons active x y else panel x y)
  unfolding ui_render_button after_blit button_color
  ui_render_button_shows icons active i panel l = elim (Bool-cases (tile_at x y == i)) [
    | inl e ↦ rw (in_table, in_tile i l, e) (subst Own (ground (arith, e)) own)
    | inr e ↦ rw (in_table, in_tile i l, e) refl
  ]
    where
      Own : ℕ → Type 0
      Own j =
          color_at ((y - tile_y j) * 80 + (x - tile_x j))
            (tile (button_at j g_buttons) (icons j active) (foreground active))
          ≡ button_color icons active x y

      own : Own (tile_at x y)
      own =
          ap
            (λ o. color_at o (
              tile (button_at (tile_at x y) g_buttons) (icons (tile_at x y) active)
                (foreground active)))
            offset_in_tile
          ∙ tile_shows (button_at (tile_at x y) g_buttons) (icons (tile_at x y) active)
              (foreground active) (x % 80) (y % 80) (label_fits g_buttons (tile_at x y) refl).0
              (label_fits g_buttons (tile_at x y) refl).1 (omega arith) (omega arith)

      in_table : leb 24 i ≡ false
      in_table = ground (arith, l)

  shows_from :
      (icons : ℕ → Bool → Bytes) (n i : ℕ) (panel : ℕ → ℕ → ℕ)
      → i + n ≤ 24
      → after_blits (buttons_from icons n i) panel x y ≡ (
          if leb i (tile_at x y) && ltb (tile_at x y) (i + n)
          then button_color icons false x y
          else panel x y)
  unfolding buttons_from
  shows_from icons zero i panel l =
      no_more i (tile_at x y) (button_color icons false x y) (panel x y)
  shows_from icons (suc n) i panel l =
      one_more i n (tile_at x y) (button_color icons false x y) (panel x y)
        (after_blits (buttons_from icons (suc n) i) panel x y)
        (ap (λ p. p x y)
            (after_blits-append (ui_render_button icons i false) (buttons_from icons n (suc i))
              panel)
          ∙ shows_from icons n (suc i) (after_blits (ui_render_button icons i false) panel)
              (omega (arith, l))
          ∙ ap
              (λ c.
                if leb (suc i) (tile_at x y) && ltb (tile_at x y) (suc i + n)
                then button_color icons false x y
                else c)
              (ui_render_button_shows icons false i panel (omega (arith, l))))

  -- All buttons drawn cover the panel: each pixel shows the button whose tile it is in, not lit.
  pub ui_render_all_shows :
      (icons : ℕ → Bool → Bytes) (panel : ℕ → ℕ → ℕ)
      → after_blits (ui_render_all icons) panel x y ≡ button_color icons false x y
  unfolding ui_render_all
  ui_render_all_shows icons panel =
      shows_from icons 24 0 panel (omega arith)
      ∙ all_of_them (tile_at x y) (button_color icons false x y) (panel x y) (omega (arith, h, k))

tile_x_fits : (i : ℕ) → i < 24 → tile_x i + 80 ≤ 480
unfolding tile_x
tile_x_fits i h = omega (arith, h)

tile_y_fits : (i : ℕ) → i < 24 → tile_y i + 80 ≤ 320
unfolding tile_y
tile_y_fits i h = omega (arith, h)

-- On the bus, a button's drawing opens the window of its tile on the panel and sends two bytes for each
-- of the tile's pixels, in any state of the controller.
ui_render_button_window :
    (icons : ℕ → Bool → Bytes) (baud i : ℕ) (active : Bool) (s : Panel)
    → i < 24
    → let r = sees_all (blit_bus baud (ui_render_button icons i active)) s in
      (r.columns ≡ (tile_x i, tile_x i + 79))
      × (r.rows ≡ (tile_y i, tile_y i + 79))
      × (r.pixel_bytes ≡ 2 * (80 * 80))
unfolding ui_render_button
ui_render_button_window icons baud i active s h =
    rw (in_table, append-nil sent)
      (
        sent_lem.0 ∙ ap (λ n. (tile_x i, n)) (last (tile_x i)),
        sent_lem.1 ∙ ap (λ n. (tile_y i, n)) (last (tile_y i)),
        sent_lem.2 ∙ length-tile (button_at i g_buttons) (icons i active) (foreground active),
      )
  where
    in_table : leb 24 i ≡ false
    in_table = ground (arith, h)

    last : (n : ℕ) → n + 80 - 1 ≡ n + 79
    last n = omega arith

    sent : List Bus
    sent =
        lcd_blit_rgb565_be baud (tile_x i) (tile_y i) 80 80
          (some (tile (button_at i g_buttons) (icons i active) (foreground active)))

    sent_lem :
        ((sees_all sent s).columns ≡ (tile_x i, tile_x i + 80 - 1))
        × ((sees_all sent s).rows ≡ (tile_y i, tile_y i + 80 - 1))
        × ((sees_all sent s).pixel_bytes
            ≡ length (tile (button_at i g_buttons) (icons i active) (foreground active)))
    sent_lem =
        lcd_blit_rgb565_be_lem baud (tile_x i) (tile_y i) 80 80
          (tile (button_at i g_buttons) (icons i active) (foreground active)) s (omega arith)
          (tile_x_fits i h) (omega arith) (tile_y_fits i h)
