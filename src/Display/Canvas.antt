-- ===== src/Display/Canvas.antt =====
-- The drawing primitives of PicoDeck-ED-Display/src/dashboard.c. `rect` fills the part of a rectangle that
-- lies in the stripe; the functions above it are the calls of `rect` that they make, in order. A
-- horizontal position may be negative, where a text scrolls; no caller gives a negative row.
use pico_deck_eddiscovery.Base.{
  ℕ, zero, suc, ◌+◌, ◌-◌, ◌*◌, ◌/◌, min, max, List, [], ◌∷◌, ◌++◌, map, if◌then◌else◌, Bytes,
}
use pico_deck_eddiscovery.Base.Int.{ℤ, pos, negsuc, pos_part, sub_ℕ, ◌+ℤ◌, ltb_ℤ, leb_ℤ}
use pico_deck_eddiscovery.Base.Pixels.{View, plot, glyph_cells}
use pico_deck_eddiscovery.Display.Font.{font5x7_glyph}
use pico_deck_eddiscovery.Display.Dashboard.{text_width, lcd_width, lcd_height, stripe_height}

-- A call of `rect`.
pub record Fill : Type 0 where
  pub x : ℤ
  pub y : ℕ
  pub width : ℕ
  pub height : ℕ
  pub color : ℕ

-- What `s_pixels` shows of the page where `s_stripe_y` is `stripe`.
abbrev pub stripe_view : ℕ → View
stripe_view stripe = record {
  width = lcd_width;
  first = stripe;
  rows = stripe_height;
  limit = lcd_height;
}

unfoldable pub pixel : ℕ → ℕ → ℕ → ℕ → Bytes → Bytes
pixel stripe x y color pixels = plot (stripe_view stripe) x y color pixels

-- The inner loop of `rect`: the `n` pixels of row `py` from `px` on; then the rows.
unfoldable pub rect_row : ℕ → ℕ → ℕ → ℕ → ℕ → Bytes → Bytes
rect_row stripe color py zero px pixels = pixels
rect_row stripe color py (suc n) px pixels =
    rect_row stripe color py n (suc px) (pixel stripe px py color pixels)

unfoldable pub rect_rows : ℕ → ℕ → ℕ → ℕ → ℕ → ℕ → Bytes → Bytes
rect_rows stripe color left width zero py pixels = pixels
rect_rows stripe color left width (suc n) py pixels =
    rect_rows stripe color left width n (suc py) (rect_row stripe color py width left pixels)

-- A negative right end is 0 here: the left end is not negative, and nothing lies between them.
unfoldable pub rect : ℕ → Fill → Bytes → Bytes
rect stripe f pixels =
    let left = pos_part f.x in
    let right = min (pos_part (f.x +ℤ pos f.width)) lcd_width in
    let top = max f.y stripe in
    let bottom = min (min (f.y + f.height) (stripe + stripe_height)) lcd_height in
    rect_rows stripe f.color left (right - left) (bottom - top) top pixels

-- The call of `rect` that `clipped_rect` makes, if any.
unfoldable pub clipped_rect : ℤ → ℕ → ℕ → ℕ → ℕ → ℕ → ℕ → List Fill
clipped_rect x y width height clip_x clip_width color =
    let left = if ltb_ℤ (pos clip_x) x then x else pos clip_x in
    let right =
      if ltb_ℤ (x +ℤ pos width) (pos (clip_x + clip_width))
      then x +ℤ pos width
      else pos (clip_x + clip_width) in
    if ltb_ℤ left right
    then record {
      x = left;
      y = y;
      width = pos_part right - pos_part left;
      height = height;
      color = color;
    }
      ∷ []
    else []

unfoldable pub outline : ℕ → ℕ → ℕ → ℕ → ℕ → List Fill
outline x y width height color =
    record { x = pos x; y = y; width = width; height = 1; color = color }
    ∷ record { x = pos x; y = y + height - 1; width = width; height = 1; color = color }
    ∷ record { x = pos x; y = y; width = 1; height = height; color = color }
    ∷ record { x = pos (x + width - 1); y = y; width = 1; height = height; color = color }
    ∷ []

-- One cell of a glyph.
abbrev pub cell : ℤ → ℕ → ℕ → ℕ → ℕ × ℕ → Fill
cell x y scale color (column, row) = record {
  x = x +ℤ pos (column * scale);
  y = y + row * scale;
  width = scale;
  height = scale;
  color = color;
}

unfoldable pub text_at : ℤ → ℕ → Bytes → ℕ → ℕ → List Fill
text_at x y [] scale color = []
text_at x y (c ∷ cs) scale color =
    let next = x +ℤ pos (6 * scale) in
    let rest = text_at next y cs scale color in
    map (cell x y scale color) (glyph_cells 0 (font5x7_glyph c))
    ++ (if leb_ℤ (pos lcd_width) next then [] else rest)

unfoldable pub clipped_cells : ℤ → ℕ → ℕ → ℕ → ℕ → ℕ → List (ℕ × ℕ) → List Fill
clipped_cells x y scale color clip_x clip_width [] = []
clipped_cells x y scale color clip_x clip_width ((column, row) ∷ cells) =
    clipped_rect (x +ℤ pos (column * scale)) (y + row * scale) scale scale clip_x clip_width color
    ++ clipped_cells x y scale color clip_x clip_width cells

-- The loop of `text_at_clipped`.
unfoldable pub clipped_text : ℤ → ℕ → Bytes → ℕ → ℕ → ℕ → ℕ → List Fill
clipped_text x y [] scale color clip_x clip_width = []
clipped_text x y (c ∷ cs) scale color clip_x clip_width =
    let next = x +ℤ pos (6 * scale) in
    let rest = clipped_text next y cs scale color clip_x clip_width in
    clipped_cells x y scale color clip_x clip_width (glyph_cells 0 (font5x7_glyph c))
    ++ (if leb_ℤ (pos (clip_x + clip_width)) next then [] else rest)

unfoldable pub text_at_clipped : ℤ → ℕ → Bytes → ℕ → ℕ → ℕ → ℕ → List Fill
text_at_clipped x y text scale color clip_x zero = []
text_at_clipped x y text scale color clip_x (suc clip_width) =
    clipped_text x y text scale color clip_x (suc clip_width)

-- `/ 2` on an `int`: towards 0.
abbrev pub half : ℤ → ℤ
half (pos n) = pos (n / 2)
half (negsuc n) = sub_ℕ 0 (suc n / 2)

unfoldable pub centered : ℕ → Bytes → ℕ → ℕ → List Fill
centered y text scale color =
    let x = half (sub_ℕ lcd_width (text_width text scale)) in
    text_at (if ltb_ℤ x (pos 4) then pos 4 else x) y text scale color
