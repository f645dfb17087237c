-- ===== src/Keyboard/Ui/Tile.antt =====
-- The drawing of one tile in PicoDeck-ED-Keyboard/src/ui.c, as its calls of `set_pixel` in order.
use pico_deck_eddiscovery.Base.{
  ℕ, zero, suc, ◌+◌, ◌-◌, ◌*◌, ◌/◌, ◌%◌, ◌^◌, List, [], ◌∷◌, ◌++◌, leb, ◌==◌, if◌then◌else◌, get_or,
  length, Bytes,
}
use pico_deck_eddiscovery.Base.Bits.{u8, u16}
use pico_deck_eddiscovery.Base.Int.{ℤ, pos, negsuc, sub_ℕ, ◌+ℤ◌}
use pico_deck_eddiscovery.Base.Pixels.{View, glyph_cells}
use pico_deck_eddiscovery.Base.Plots.{Plot, plot_all}
use pico_deck_eddiscovery.Keyboard.Board.{ui_tile_width, ui_tile_height, color_black}
use pico_deck_eddiscovery.Keyboard.Buttons.{ButtonDefinition}
use pico_deck_eddiscovery.Keyboard.Font.{font5x7_glyph}

abbrev pub icon_width : ℕ
icon_width = 56

abbrev pub icon_height : ℕ
icon_height = 44

abbrev pub icon_offset_x : ℕ
icon_offset_x = 12

abbrev pub icon_offset_y : ℕ
icon_offset_y = 2

-- `ICON_BYTES`: two bits for each pixel.
abbrev pub icon_bytes : ℕ
icon_bytes = (icon_width * icon_height * 2 + 7) / 8

-- What `set_pixel` writes into `tile_buffer`.
abbrev pub tile_view : View
tile_view = record {
  width = ui_tile_width;
  first = 0;
  rows = ui_tile_height;
  limit = ui_tile_height;
}

unfoldable pub set_pixel : List Plot → Bytes → Bytes
set_pixel ps pixels = plot_all tile_view ps pixels

-- The `n` pixels that the loop of `clear_tile` writes: the buffer has no others.
unfoldable pub clear_from : ℕ → ℕ → Bytes
clear_from color zero = []
clear_from color (suc n) = u8 (color / 256) ∷ u8 color ∷ clear_from color n

abbrev pub clear_tile : ℕ → Bytes
clear_tile color = clear_from color 6400

-- The two loops of `draw_border` at one inset, from `x` and from `y` on.
unfoldable pub border_rows : ℕ → ℕ → ℕ → ℕ → List Plot
border_rows color inset zero x = []
border_rows color inset (suc n) x =
    record { x = pos x; y = inset; color = color }
    ∷ record { x = pos x; y = ui_tile_height - 1 - inset; color = color }
    ∷ border_rows color inset n (suc x)

unfoldable pub border_columns : ℕ → ℕ → ℕ → ℕ → List Plot
border_columns color inset zero y = []
border_columns color inset (suc n) y =
    record { x = pos inset; y = y; color = color }
    ∷ record { x = pos (ui_tile_width - 1 - inset); y = y; color = color }
    ∷ border_columns color inset n (suc y)

abbrev pub border_at : ℕ → ℕ → List Plot
border_at color inset =
    border_rows color inset (ui_tile_width - inset - inset) inset
    ++ border_columns color inset (ui_tile_height - inset - inset) inset

unfoldable pub draw_border : ℕ → List Plot
draw_border color = border_at color 1 ++ border_at color 2

-- Each of the three channels by a third of the coverage. The shifted channels do not overlap: `|` is `+`.
unfoldable pub color_with_coverage : ℕ → ℕ → ℕ
color_with_coverage color coverage =
    let red = color / 2048 % 32 * coverage / 3 in
    let green = color / 32 % 64 * coverage / 3 in
    let blue = color % 32 * coverage / 3 in
    if leb 3 coverage then color else u16 (red * 2048 + green * 32 + blue)

-- The two bits of a pixel in the mask.
unfoldable pub coverage_at : Bytes → ℕ → ℕ
coverage_at mask pixel_index = get_or mask (pixel_index / 4) 0 / 2 ^ (6 - pixel_index % 4 * 2) % 4

-- The loops of `draw_icon`: the `n` pixels of row `y` from `x` on; then the rows.
unfoldable pub icon_row : Bytes → ℕ → ℕ → ℕ → ℕ → List Plot
icon_row mask color y zero x = []
icon_row mask color y (suc n) x =
    let coverage = coverage_at mask (y * icon_width + x) in
    let rest = icon_row mask color y n (suc x) in
    if coverage == 0
    then rest
    else record {
      x = pos (icon_offset_x + x);
      y = icon_offset_y + y;
      color = color_with_coverage color coverage;
    }
      ∷ rest

unfoldable pub icon_rows : Bytes → ℕ → ℕ → ℕ → List Plot
icon_rows mask color zero y = []
icon_rows mask color (suc n) y =
    icon_row mask color y icon_width 0 ++ icon_rows mask color n (suc y)

unfoldable pub draw_icon : Bytes → ℕ → List Plot
draw_icon mask color = icon_rows mask color icon_height 0

-- One cell of a glyph: `scale` rows of `scale` pixels.
unfoldable pub square_row : ℤ → ℕ → ℕ → ℕ → ℕ → List Plot
square_row x y color zero dx = []
square_row x y color (suc n) dx =
    record { x = x +ℤ pos dx; y = y; color = color } ∷ square_row x y color n (suc dx)

unfoldable pub square : ℤ → ℕ → ℕ → ℕ → ℕ → ℕ → List Plot
square x y color width zero dy = []
square x y color width (suc n) dy =
    square_row x (y + dy) color width 0 ++ square x y color width n (suc dy)

unfoldable pub squares : ℤ → ℕ → ℕ → ℕ → List (ℕ × ℕ) → List Plot
squares x y scale color [] = []
squares x y scale color ((column, row) ∷ cells) =
    square (x +ℤ pos (column * scale)) (y + row * scale) color scale scale 0
    ++ squares x y scale color cells

-- The loop over a text, of `draw_text_line` and of `setup_text`.
unfoldable pub text_from : ℤ → ℕ → Bytes → ℕ → ℕ → List Plot
text_from x y [] scale color = []
text_from x y (c ∷ cs) scale color =
    squares x y scale color (glyph_cells 0 (font5x7_glyph c))
    ++ text_from (x +ℤ pos (6 * scale)) y cs scale color

abbrev pub font_scale : ℕ
font_scale = 2

-- `/ 2` on an `int`: towards 0.
abbrev pub half : ℤ → ℤ
half (pos n) = pos (n / 2)
half (negsuc n) = sub_ℕ 0 (suc n / 2)

-- The width of the empty text, -2, is not used.
abbrev pub text_width : Bytes → ℕ
text_width text = length text * 6 * font_scale - font_scale

unfoldable pub draw_text_line : Bytes → ℕ → ℕ → List Plot
draw_text_line [] y color = []
draw_text_line (c ∷ cs) y color =
    text_from (half (sub_ℕ ui_tile_width (text_width (c ∷ cs)))) y (c ∷ cs) font_scale color

-- The lines of text in `ui_render_button`.
unfoldable pub draw_label : Bytes → Bytes → ℕ → List Plot
draw_label [] bottom color = draw_text_line bottom 57 color
draw_label (c ∷ top) [] color = draw_text_line (c ∷ top) 57 color
draw_label (c ∷ top) (b ∷ bottom) color =
    draw_text_line (c ∷ top) 49 color ++ draw_text_line (b ∷ bottom) 64 color

-- What `ui_render_button` leaves in `tile_buffer` for a button and its mask.
unfoldable pub tile : ButtonDefinition → Bytes → ℕ → Bytes
tile b icon foreground =
    set_pixel
      (draw_border foreground
        ++ draw_icon icon foreground
        ++ draw_label b.label_top b.label_bottom foreground)
      (clear_tile color_black)
