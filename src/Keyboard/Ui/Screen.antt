-- ===== src/Keyboard/Ui/Screen.antt =====
-- The calls of `lcd_blit_rgb565_be` that PicoDeck-ED-Keyboard/src/ui.c makes for the buttons. The icons are
-- generated data: `icons` gives the mask of a button, normal or active.
use pico_deck_eddiscovery.Base.{
  ℕ, zero, suc, ◌+◌, ◌-◌, ◌*◌, Bool, false, ◌&&◌, List, [], ◌∷◌, ◌++◌, leb, ltb, if◌then◌else◌,
  some, Bytes,
}
use pico_deck_eddiscovery.Base.Pixels.{color_at}
use pico_deck_eddiscovery.Display.Lcd.{Bus}
use pico_deck_eddiscovery.Keyboard.Board.{
  ui_tile_width, ui_tile_height, color_black, color_white, color_orange,
}
use pico_deck_eddiscovery.Keyboard.Lcd.{lcd_fill, lcd_blit_rgb565_be}
use pico_deck_eddiscovery.Keyboard.Buttons.{g_buttons, g_button_count, button_at}
use pico_deck_eddiscovery.Keyboard.Ui.{tile_x, tile_y}
use pico_deck_eddiscovery.Keyboard.Ui.Tile.{tile}

-- A call. The panel takes as many bytes as the window has pixels, two for each.
pub record Blit : Type 0 where
  pub x : ℕ
  pub y : ℕ
  pub width : ℕ
  pub height : ℕ
  pub pixels : Bytes

abbrev pub ui_init : ℕ → List Bus
ui_init baud = lcd_fill baud color_black

abbrev pub foreground : Bool → ℕ
foreground active = if active then color_white else color_orange

unfoldable pub ui_render_button : (ℕ → Bool → Bytes) → ℕ → Bool → List Blit
ui_render_button icons index active =
    if leb g_button_count index
    then []
    else record {
      x = tile_x index;
      y = tile_y index;
      width = ui_tile_width;
      height = ui_tile_height;
      pixels = tile (button_at index g_buttons) (icons index active) (foreground active);
    }
      ∷ []

-- The loop of `ui_render_all` from index `i`, with `n` buttons left.
unfoldable pub buttons_from : (ℕ → Bool → Bytes) → ℕ → ℕ → List Blit
buttons_from icons zero i = []
buttons_from icons (suc n) i = ui_render_button icons i false ++ buttons_from icons n (suc i)

unfoldable pub ui_render_all : (ℕ → Bool → Bytes) → List Blit
ui_render_all icons = buttons_from icons g_button_count 0

-- The colors on the panel, by column and row, after a call and after several.
unfoldable pub after_blit : Blit → (ℕ → ℕ → ℕ) → ℕ → ℕ → ℕ
after_blit b panel x y =
    if leb b.x x && ltb x (b.x + b.width) && leb b.y y && ltb y (b.y + b.height)
    then color_at ((y - b.y) * b.width + (x - b.x)) b.pixels
    else panel x y

abbrev pub after_blits : List Blit → (ℕ → ℕ → ℕ) → ℕ → ℕ → ℕ
after_blits [] panel = panel
after_blits (b ∷ bs) panel = after_blits bs (after_blit b panel)

-- The bytes on the bus.
abbrev pub blit_bus : ℕ → List Blit → List Bus
blit_bus baud [] = []
blit_bus baud (b ∷ bs) =
    lcd_blit_rgb565_be baud b.x b.y b.width b.height (some b.pixels) ++ blit_bus baud bs
