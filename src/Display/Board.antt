-- ===== src/Display/Board.antt =====
-- PicoDeck-ED-Display/src/board.h: the panel and the colors.
use pico_deck_eddiscovery.Base.{ℕ, ◌+◌, ◌*◌, ◌/◌}

-- `RGB565`: the top 5, 6 and 5 bits of the three channels.
abbrev rgb565 : ℕ → ℕ → ℕ → ℕ
rgb565 r g b = r / 8 * 2048 + g / 4 * 32 + b / 8

abbrev pub color_black : ℕ
color_black = rgb565 0 0 0

abbrev pub color_orange : ℕ
color_orange = rgb565 255 127 0

abbrev pub color_white : ℕ
color_white = rgb565 240 240 240

abbrev pub color_green : ℕ
color_green = rgb565 42 210 96

abbrev pub color_red : ℕ
color_red = rgb565 235 48 48

abbrev pub color_cyan : ℕ
color_cyan = rgb565 40 190 220

abbrev pub color_dark_gray : ℕ
color_dark_gray = rgb565 28 30 34

abbrev pub color_mid_gray : ℕ
color_mid_gray = rgb565 80 84 90
