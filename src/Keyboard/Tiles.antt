-- ===== src/Keyboard/Tiles.antt =====
-- Where a touch lands: the mapped points of PicoDeck-ED-Keyboard/src/touch.c against the tiles of ui.c.
use pico_deck_eddiscovery.Base.{ℕ, ◌+◌, ◌≤◌, ◌<◌, ◌≡◌, some, arith, ◌↔◌}
use pico_deck_eddiscovery.Keyboard.Board.{ui_tile_width, ui_tile_height}
use pico_deck_eddiscovery.Keyboard.Press.{ui_button_at}
use pico_deck_eddiscovery.Keyboard.Ui.{tile_x, tile_y}

-- A point belongs to the button whose tile, as `ui_render_button` places it, contains the point, and
-- to no other.
pub ui_button_at_tile :
    (x y i : ℕ)
    → i < 24
    → (ui_button_at x y ≡ some i) ↔ (
        (tile_x i ≤ x)
        × (x < tile_x i + ui_tile_width)
        × (tile_y i ≤ y)
        × (y < tile_y i + ui_tile_height))
unfolding ui_button_at tile_x tile_y
ui_button_at_tile x y i h = ground arith
