-- ===== src/Keyboard/Ui.antt =====
-- PicoDeck-ED-Keyboard/src/ui.c: where the tile of a button stands.
pub mod Tile
pub mod Cells
pub mod Ink
pub mod Shapes
pub mod Picture
pub mod Screen
pub mod Startup
pub mod Shows
pub mod Begun
pub mod Coverage
use pico_deck_eddiscovery.Base.{ℕ, ◌*◌, ◌/◌, ◌%◌}
use pico_deck_eddiscovery.Base.Bits.{u16}
use pico_deck_eddiscovery.Keyboard.Board.{ui_columns, ui_tile_width, ui_tile_height}

-- The corner of the tile that `ui_render_button` blits.
unfoldable pub tile_x : ℕ → ℕ
tile_x index = u16 (index % ui_columns * ui_tile_width)

unfoldable pub tile_y : ℕ → ℕ
tile_y index = u16 (index / ui_columns * ui_tile_height)
