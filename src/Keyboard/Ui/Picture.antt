-- ===== src/Keyboard/Ui/Picture.antt =====
-- What a tile of PicoDeck-ED-Keyboard/src/ui.c shows, pixel by pixel.
use pico_deck_eddiscovery.Base.{
  ℕ, zero, suc, ◌+◌, ◌-◌, ◌*◌, ◌/◌, ◌≤◌, ◌<◌, ◌≡◌, refl, ap, ◌∙◌, Bool, true, ◌&&◌, ◌||◌, List, [],
  ◌∷◌, ◌++◌, leb, if◌then◌else◌, length, get_or, Bytes, arith,
}
use pico_deck_eddiscovery.Base.Int.{pos, sub_ℕ}
use pico_deck_eddiscovery.Base.Bits.{u16}
use pico_deck_eddiscovery.Base.Pixels.{color_at, in_view, index, HasRoom}
use pico_deck_eddiscovery.Base.Plots.{
  Plot, colored, colored-append, length-plot_all, color_at-plot_all,
}
use pico_deck_eddiscovery.Keyboard.Buttons.{ButtonDefinition}
use pico_deck_eddiscovery.Keyboard.Ui.Tile.{
  tile_view, set_pixel, clear_from, clear_tile, draw_border, draw_icon, half, text_from,
  draw_text_line, draw_label, tile,
}
use pico_deck_eddiscovery.Keyboard.Ui.Ink.{inked, seen_text}
use pico_deck_eddiscovery.Keyboard.Ui.Shapes.{
  on_border, with_icon, seen_draw_border, seen_draw_icon,
}

-- A text that is centered in the tile, from row `y0` down, at scale 2: whether the pixel is in it.
abbrev pub lit : Bytes → ℕ → ℕ → ℕ → Bool
lit text y0 x y =
    let left = 41 - 6 * length text in
    leb left x && leb y0 y && inked text ((x - left) / 2) ((y - y0) / 2)

seen_draw_text_line :
    (text : Bytes) (y0 color x y old : ℕ)
    → length text ≤ 6
    → colored (draw_text_line text y0 color) x y old ≡ (if lit text y0 x y then u16 color else old)
unfolding draw_text_line colored
seen_draw_text_line [] y0 color x y old h = ground arith
seen_draw_text_line (c ∷ cs) y0 color x y old h =
    ap (λ z. colored (text_from z y0 (c ∷ cs) 2 color) x y old)
      (place (length cs) (omega (arith, h)))
    ∙ seen_text (41 - 6 * suc (length cs)) y0 (c ∷ cs) 2 color x y old (omega arith)
  where
    place : (n : ℕ) → n ≤ 5 → half (sub_ℕ 80 (suc n * 6 * 2 - 2)) ≡ pos (41 - 6 * suc n)
    place n k = ground arith

-- The label of a button: two lines, or one.
abbrev pub label_lit : Bytes → Bytes → ℕ → ℕ → Bool
label_lit [] bottom x y = lit bottom 57 x y
label_lit (c ∷ top) [] x y = lit (c ∷ top) 57 x y
label_lit (c ∷ top) (b ∷ bottom) x y = lit (c ∷ top) 49 x y || lit (b ∷ bottom) 64 x y

seen_draw_label :
    (top bottom : Bytes) (color x y old : ℕ)
    → length top ≤ 6
    → length bottom ≤ 6
    → colored (draw_label top bottom color) x y old
      ≡ (if label_lit top bottom x y then u16 color else old)
unfolding draw_label
seen_draw_label [] bottom color x y old h k = seen_draw_text_line bottom 57 color x y old k
seen_draw_label (c ∷ top) [] color x y old h k = seen_draw_text_line (c ∷ top) 57 color x y old h
seen_draw_label (c ∷ top) (b ∷ bottom) color x y old h k =
    colored-append (draw_text_line (c ∷ top) 49 color) (draw_text_line (b ∷ bottom) 64 color) x y
      old
    ∙ seen_draw_text_line (b ∷ bottom) 64 color x y
        (colored (draw_text_line (c ∷ top) 49 color) x y old) k
    ∙ ground (arith, seen_draw_text_line (c ∷ top) 49 color x y old h)

length-clear_from : (color n : ℕ) → length (clear_from color n) ≡ n * 2
unfolding clear_from
length-clear_from color zero = refl
length-clear_from color (suc n) = omega (arith, length-clear_from color n)

color_at-clear_from : (color n i : ℕ) → i < n → color_at i (clear_from color n) ≡ u16 color
unfolding clear_from color_at
color_at-clear_from color zero i h = absurd (omega (arith, h))
color_at-clear_from color (suc n) zero h = omega arith
color_at-clear_from color (suc n) (suc i) h =
    ap (λ j. get_or pixels j 0 * 256 + get_or pixels (j + 1) 0) even
    ∙ ap (λ j. get_or (clear_from color n) (i * 2) 0 * 256 + get_or pixels j 0) odd
    ∙ color_at-clear_from color n i (omega (arith, h))
  where
    pixels : Bytes
    pixels = clear_from color (suc n)

    even : suc i * 2 ≡ suc (suc (i * 2))
    even = omega arith

    odd : suc (suc (i * 2)) + 1 ≡ suc (suc (i * 2 + 1))
    odd = omega arith

pub length-tile :
    (b : ButtonDefinition) (icon : Bytes) (foreground : ℕ) → length (tile b icon foreground) ≡ 12800
unfolding tile set_pixel
length-tile b icon foreground =
    length-plot_all tile_view
      (draw_border foreground
        ++ draw_icon icon foreground
        ++ draw_label b.label_top b.label_bottom foreground)
      (clear_tile 0)
    ∙ length-clear_from 0 6400

-- What a tile is meant to show: the label over the icon over the border, on black.
unfoldable pub tile_color : ButtonDefinition → Bytes → ℕ → ℕ → ℕ → ℕ
tile_color b icon foreground x y =
    if label_lit b.label_top b.label_bottom x y
    then u16 foreground
    else with_icon icon foreground x y (if on_border x y then u16 foreground else 0)

-- Every pixel of the tile has the color that the label, the icon and the border give it, one over the
-- other.
pub tile_shows :
    (b : ButtonDefinition) (icon : Bytes) (foreground x y : ℕ)
    → length b.label_top ≤ 6
    → length b.label_bottom ≤ 6
    → x < 80
    → y < 80
    → color_at (y * 80 + x) (tile b icon foreground) ≡ tile_color b icon foreground x y
unfolding tile set_pixel tile_color
tile_shows b icon foreground x y h k a c =
    ap (λ i. color_at i (tile b icon foreground)) place
    ∙ color_at-plot_all tile_view (draw_border foreground ++ draw_icon icon foreground ++ label) x y
        (clear_tile 0) room seen
    ∙ colored-append (draw_border foreground ++ draw_icon icon foreground) label x y black
    ∙ seen_draw_label b.label_top b.label_bottom foreground x y
        (colored (draw_border foreground ++ draw_icon icon foreground) x y black) h k
    ∙ ap (λ old. if label_lit b.label_top b.label_bottom x y then u16 foreground else old)
        (colored-append (draw_border foreground) (draw_icon icon foreground) x y black
          ∙ seen_draw_icon icon foreground x y (colored (draw_border foreground) x y black)
          ∙ ap (with_icon icon foreground x y) (
              seen_draw_border foreground x y black a c
              ∙ ap (λ old. if on_border x y then u16 foreground else old)
                  (color_at-clear_from 0 6400 (index tile_view x y) (omega (arith, a, c)))))
  where
    label : List Plot
    label = draw_label b.label_top b.label_bottom foreground

    black : ℕ
    black = color_at (index tile_view x y) (clear_tile 0)

    place : y * 80 + x ≡ index tile_view x y
    place = omega arith

    seen : in_view tile_view x y ≡ true
    seen = ground (arith, a, c)

    room : HasRoom tile_view (clear_tile 0)
    room = omega (arith, length-clear_from 0 6400)
