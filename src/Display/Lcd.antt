-- ===== src/Display/Lcd.antt =====
-- PicoDeck-ED-Display/src/lcd.c: what goes over the SPI bus and the pins to the panel's controller.
use pico_deck_eddiscovery.Base.{
  ℕ, zero, suc, ◌+◌, ◌*◌, ◌/◌, Bool, true, false, ◌||◌, Option, none, some, List, [], ◌∷◌, ◌++◌,
  ltb, ◌==◌, if◌then◌else◌, replicate, Bytes,
}
use pico_deck_eddiscovery.Base.Bits.{u8, u16}

-- One call of the SDK: `gpio_put` on the chip select, on the data/command line, on the reset line and
-- on another pin,
-- the bus speed, a blocking write, a write and a read of one byte, a wait, and the backlight's level.
pub data Bus : Type 0 where
  select : Bool → Bus
  data_line : ℕ → Bus
  reset_line : ℕ → Bus
  gpio_put : ℕ → ℕ → Bus
  baudrate : ℕ → Bus
  write : Bytes → Bus
  write_read : Bytes → Bus
  sleep_ms : ℕ → Bus
  backlight_level : ℕ → Bus

abbrev pub lcd_init_baud_hz : ℕ
lcd_init_baud_hz = 5000000

abbrev pub lcd_baud_hz : ℕ
lcd_baud_hz = 15000000

-- The loop over the parameters: each goes as a 16-bit word of its own.
unfoldable pub write_parameters : Bytes → List Bus
write_parameters [] = []
write_parameters (b ∷ bs) =
    select true ∷ data_line 1 ∷ write (0 ∷ b ∷ []) ∷ select false ∷ write_parameters bs

-- The first argument is `s_lcd_baud_hz`.
unfoldable pub lcd_write_command : ℕ → ℕ → Bytes → List Bus
lcd_write_command baud command parameters =
    baudrate baud
    ∷ select true
    ∷ data_line 0
    ∷ write (command ∷ [])
    ∷ select false
    ∷ write_parameters parameters

unfoldable pub lcd_read_id : ℕ → List Bus
lcd_read_id baud =
    baudrate baud
    ∷ select true
    ∷ data_line 0
    ∷ write (0xdc ∷ [])
    ∷ write_read (0 ∷ [])
    ∷ select false
    ∷ []

-- A 16-bit value as its two bytes.
abbrev pub word_bytes : ℕ → Bytes
word_bytes n = u8 (n / 256) ∷ u8 n ∷ []

unfoldable pub window_bytes : ℕ → ℕ → Bytes
window_bytes first count = word_bytes first ++ word_bytes (u16 (first + count + 65535))

unfoldable pub lcd_set_window : ℕ → ℕ → ℕ → ℕ → ℕ → List Bus
lcd_set_window baud x y width height =
    lcd_write_command baud 0x2a (window_bytes x width)
    ++ lcd_write_command baud 0x2b (window_bytes y height)
    ++ lcd_write_command baud 0x2c []

-- The commands of `lcd_init`, from the read of the identity to the last wait.
unfoldable pub configure : ℕ → List Bus
configure baud =
    lcd_read_id baud
    ++ lcd_write_command baud 0x21 []
    ++ lcd_write_command baud 0xc2 (0x33 ∷ [])
    ++ lcd_write_command baud 0xc5 (0x00 ∷ 0x1e ∷ 0x80 ∷ [])
    ++ lcd_write_command baud 0xb1 (0xb0 ∷ [])
    ++ lcd_write_command baud 0xe0 (
        0x00 ∷ 0x13 ∷ 0x18 ∷ 0x04 ∷ 0x0f ∷ 0x06 ∷ 0x3a ∷ 0x56 ∷ 0x4d ∷ 0x03 ∷ 0x0a ∷ 0x06 ∷ 0x30
        ∷ 0x3e ∷ 0x0f ∷ [])
    ++ lcd_write_command baud 0xe1 (
        0x00 ∷ 0x13 ∷ 0x18 ∷ 0x01 ∷ 0x11 ∷ 0x06 ∷ 0x38 ∷ 0x34 ∷ 0x4d ∷ 0x06 ∷ 0x0d ∷ 0x0b ∷ 0x31
        ∷ 0x37 ∷ 0x0f ∷ [])
    ++ lcd_write_command baud 0x3a (0x55 ∷ [])
    ++ lcd_write_command baud 0x11 []
    ++ sleep_ms 120
      ∷ (lcd_write_command baud 0x29 []
          ++ lcd_write_command baud 0xb6 (0x00 ∷ 0x62 ∷ [])
          ++ lcd_write_command baud 0x36 (0x28 ∷ [])
          ++ sleep_ms 200 ∷ [])

-- The pulse on the reset line.
unfoldable pub reset_panel : List Bus
reset_panel =
    reset_line 1 ∷ sleep_ms 500 ∷ reset_line 0 ∷ sleep_ms 500 ∷ reset_line 1 ∷ sleep_ms 500 ∷ []

-- The pins' directions and functions are set first; `spi_init` sets the speed.
unfoldable pub lcd_init : List Bus
lcd_init =
    (select false
      ∷ gpio_put 16 1
      ∷ gpio_put 22 1
      ∷ backlight_level 0
      ∷ baudrate lcd_init_baud_hz
      ∷ [])
    ++ reset_panel
    ++ configure lcd_init_baud_hz
    ++ baudrate lcd_baud_hz ∷ backlight_level 10000 ∷ []

-- `lcd_set_backlight`: thousandths of the full level.
unfoldable pub lcd_set_backlight : ℕ → List Bus
lcd_set_backlight permille =
    backlight_level (u16 ((if ltb 1000 permille then 1000 else permille) * 10)) ∷ []

-- A transfer of pixels into the window; the pixels are as many bytes as the count says.
unfoldable pub lcd_blit_rgb565_be : ℕ → ℕ → ℕ → ℕ → ℕ → Option Bytes → List Bus
lcd_blit_rgb565_be baud x y width height none = []
lcd_blit_rgb565_be baud x y width height (some pixels) =
    if width == 0 || height == 0
    then []
    else lcd_set_window baud x y width height
      ++ baudrate baud ∷ select true ∷ data_line 1 ∷ write pixels ∷ select false ∷ []

-- The row of `lcd_fill`, and the rows below one another.
unfoldable pub fill_row : ℕ → ℕ → Bytes
fill_row zero color = []
fill_row (suc n) color = u8 (color / 256) ∷ u8 color ∷ fill_row n color

unfoldable pub lcd_fill : ℕ → ℕ → List Bus
lcd_fill baud color =
    lcd_set_window baud 0 0 480 320
    ++ baudrate baud
      ∷ select true
      ∷ data_line 1
      ∷ (replicate 320 (write (fill_row 480 color)) ++ select false ∷ [])
