-- ===== src/Keyboard/Lcd.antt =====
-- PicoDeck-ED-Keyboard/src/lcd.c. Its commands, windows and transfers are those of the display's lcd.c,
-- statement by statement; the pins, the first speed and the backlight differ.
use pico_deck_eddiscovery.Base.{ℕ, Option, List, [], ◌∷◌, ◌++◌, false, Bytes}
use pico_deck_eddiscovery.Display.Lcd
use pico_deck_eddiscovery.Display.Lcd.{Bus, configure, reset_panel}
use Bus.{select, gpio_put, baudrate}

abbrev pub lcd_init_baud_hz : ℕ
lcd_init_baud_hz = 4000000

abbrev pub lcd_baud_hz : ℕ
lcd_baud_hz = 15000000

abbrev pub lcd_write_command : ℕ → ℕ → Bytes → List Bus
lcd_write_command baud command parameters = Lcd.lcd_write_command baud command parameters

abbrev pub lcd_read_id : ℕ → List Bus
lcd_read_id baud = Lcd.lcd_read_id baud

abbrev pub lcd_set_window : ℕ → ℕ → ℕ → ℕ → ℕ → List Bus
lcd_set_window baud x y width height = Lcd.lcd_set_window baud x y width height

-- The backlight is a plain output, on before and after.
unfoldable pub lcd_init : List Bus
lcd_init =
    (select false ∷ gpio_put 16 1 ∷ gpio_put 22 1 ∷ gpio_put 13 1 ∷ baudrate lcd_init_baud_hz ∷ [])
    ++ reset_panel
    ++ configure lcd_init_baud_hz
    ++ baudrate lcd_baud_hz ∷ gpio_put 13 1 ∷ []

abbrev pub lcd_blit_rgb565_be : ℕ → ℕ → ℕ → ℕ → ℕ → Option Bytes → List Bus
lcd_blit_rgb565_be baud x y width height pixels =
    Lcd.lcd_blit_rgb565_be baud x y width height pixels

abbrev pub lcd_fill : ℕ → ℕ → List Bus
lcd_fill baud color = Lcd.lcd_fill baud color
