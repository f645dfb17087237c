-- ===== src/Keyboard/Board.antt =====
-- PicoDeck-ED-Keyboard/src/board.h: the panel, the grid of buttons, the colours and the calibration.
use pico_deck_eddiscovery.Base.{ℕ, ◌+◌, ◌*◌, ◌/◌}

abbrev pub lcd_width : ℕ
lcd_width = 480

abbrev pub lcd_height : ℕ
lcd_height = 320

abbrev pub ui_columns : ℕ
ui_columns = 6

abbrev pub ui_rows : ℕ
ui_rows = 4

abbrev pub ui_tile_width : ℕ
ui_tile_width = 80

abbrev pub ui_tile_height : ℕ
ui_tile_height = 80

-- `RGB565`: the top 5, 6 and 5 bits of the three channels.
abbrev pub rgb565 : ℕ → ℕ → ℕ → ℕ
rgb565 r g b = r / 8 * 2048 + g / 4 * 32 + b / 8

-- -TOUCH_X_FROM_RAW_Y_Q16, TOUCH_X_OFFSET, TOUCH_Y_FROM_RAW_X_Q16 and -TOUCH_Y_OFFSET
abbrev pub touch_x_slope : ℕ
touch_x_slope = 8709

abbrev pub touch_x_offset : ℕ
touch_x_offset = 517

abbrev pub touch_y_slope : ℕ
touch_y_slope = 5765

abbrev pub touch_y_offset : ℕ
touch_y_offset = 20

abbrev pub color_black : ℕ
color_black = rgb565 0 0 0

abbrev pub color_orange : ℕ
color_orange = rgb565 255 127 0

abbrev pub color_white : ℕ
color_white = rgb565 240 240 240

abbrev pub color_green : ℕ
color_green = rgb565 42 210 96

abbrev pub color_mid_gray : ℕ
color_mid_gray = rgb565 80 84 90
