-- ===== src/Keyboard/Font.antt =====
-- PicoDeck-ED-Keyboard/src/font5x7.c: the glyphs of the keyboard.
use pico_deck_eddiscovery.Base.{
  ℕ, ◌-◌, ◌&&◌, List, [], ◌∷◌, leb, ◌==◌, if◌then◌else◌, get_or, Bytes,
}

-- The five columns of a glyph; bit `r` of a column is the pixel in row `r`.
abbrev pub glyph_space : Bytes
glyph_space = 0x00 ∷ 0x00 ∷ 0x00 ∷ 0x00 ∷ 0x00 ∷ []

abbrev pub glyph_percent : Bytes
glyph_percent = 0x62 ∷ 0x64 ∷ 0x08 ∷ 0x13 ∷ 0x23 ∷ []

abbrev pub glyph_digits : List Bytes
glyph_digits =
    (0x3e ∷ 0x51 ∷ 0x49 ∷ 0x45 ∷ 0x3e ∷ [])
    ∷ (0x00 ∷ 0x42 ∷ 0x7f ∷ 0x40 ∷ 0x00 ∷ [])
    ∷ (0x42 ∷ 0x61 ∷ 0x51 ∷ 0x49 ∷ 0x46 ∷ [])
    ∷ (0x21 ∷ 0x41 ∷ 0x45 ∷ 0x4b ∷ 0x31 ∷ [])
    ∷ (0x18 ∷ 0x14 ∷ 0x12 ∷ 0x7f ∷ 0x10 ∷ [])
    ∷ (0x27 ∷ 0x45 ∷ 0x45 ∷ 0x45 ∷ 0x39 ∷ [])
    ∷ (0x3c ∷ 0x4a ∷ 0x49 ∷ 0x49 ∷ 0x30 ∷ [])
    ∷ (0x01 ∷ 0x71 ∷ 0x09 ∷ 0x05 ∷ 0x03 ∷ [])
    ∷ (0x36 ∷ 0x49 ∷ 0x49 ∷ 0x49 ∷ 0x36 ∷ [])
    ∷ (0x06 ∷ 0x49 ∷ 0x49 ∷ 0x29 ∷ 0x1e ∷ [])
    ∷ []

abbrev pub glyph_letters : List Bytes
glyph_letters =
    (0x7e ∷ 0x11 ∷ 0x11 ∷ 0x11 ∷ 0x7e ∷ [])
    ∷ (0x7f ∷ 0x49 ∷ 0x49 ∷ 0x49 ∷ 0x36 ∷ [])
    ∷ (0x3e ∷ 0x41 ∷ 0x41 ∷ 0x41 ∷ 0x22 ∷ [])
    ∷ (0x7f ∷ 0x41 ∷ 0x41 ∷ 0x22 ∷ 0x1c ∷ [])
    ∷ (0x7f ∷ 0x49 ∷ 0x49 ∷ 0x49 ∷ 0x41 ∷ [])
    ∷ (0x7f ∷ 0x09 ∷ 0x09 ∷ 0x09 ∷ 0x01 ∷ [])
    ∷ (0x3e ∷ 0x41 ∷ 0x49 ∷ 0x49 ∷ 0x7a ∷ [])
    ∷ (0x7f ∷ 0x08 ∷ 0x08 ∷ 0x08 ∷ 0x7f ∷ [])
    ∷ (0x00 ∷ 0x41 ∷ 0x7f ∷ 0x41 ∷ 0x00 ∷ [])
    ∷ (0x20 ∷ 0x40 ∷ 0x41 ∷ 0x3f ∷ 0x01 ∷ [])
    ∷ (0x7f ∷ 0x08 ∷ 0x14 ∷ 0x22 ∷ 0x41 ∷ [])
    ∷ (0x7f ∷ 0x40 ∷ 0x40 ∷ 0x40 ∷ 0x40 ∷ [])
    ∷ (0x7f ∷ 0x02 ∷ 0x0c ∷ 0x02 ∷ 0x7f ∷ [])
    ∷ (0x7f ∷ 0x04 ∷ 0x08 ∷ 0x10 ∷ 0x7f ∷ [])
    ∷ (0x3e ∷ 0x41 ∷ 0x41 ∷ 0x41 ∷ 0x3e ∷ [])
    ∷ (0x7f ∷ 0x09 ∷ 0x09 ∷ 0x09 ∷ 0x06 ∷ [])
    ∷ (0x3e ∷ 0x41 ∷ 0x51 ∷ 0x21 ∷ 0x5e ∷ [])
    ∷ (0x7f ∷ 0x09 ∷ 0x19 ∷ 0x29 ∷ 0x46 ∷ [])
    ∷ (0x46 ∷ 0x49 ∷ 0x49 ∷ 0x49 ∷ 0x31 ∷ [])
    ∷ (0x01 ∷ 0x01 ∷ 0x7f ∷ 0x01 ∷ 0x01 ∷ [])
    ∷ (0x3f ∷ 0x40 ∷ 0x40 ∷ 0x40 ∷ 0x3f ∷ [])
    ∷ (0x1f ∷ 0x20 ∷ 0x40 ∷ 0x20 ∷ 0x1f ∷ [])
    ∷ (0x3f ∷ 0x40 ∷ 0x38 ∷ 0x40 ∷ 0x3f ∷ [])
    ∷ (0x63 ∷ 0x14 ∷ 0x08 ∷ 0x14 ∷ 0x63 ∷ [])
    ∷ (0x07 ∷ 0x08 ∷ 0x70 ∷ 0x08 ∷ 0x07 ∷ [])
    ∷ (0x61 ∷ 0x51 ∷ 0x49 ∷ 0x45 ∷ 0x43 ∷ [])
    ∷ []

-- A `char` is its code.
unfoldable pub font5x7_glyph : ℕ → Bytes
font5x7_glyph c =
    if leb b'A' c && leb c b'Z'
    then get_or glyph_letters (c - b'A') glyph_space
    else if leb b'0' c && leb c b'9'
    then get_or glyph_digits (c - b'0') glyph_space
    else if c == b'%'
    then glyph_percent
    else glyph_space
