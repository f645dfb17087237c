-- ===== src/Display/Font.antt =====
-- PicoDeck-ED-Display/src/font5x7.c: the glyphs of the display.
use pico_deck_eddiscovery.Base.{
  ℕ, ◌-◌, ◌&&◌, List, [], ◌∷◌, leb, ◌==◌, if◌then◌else◌, get_or, Bytes,
}

-- The five columns of a glyph; bit `r` of a column is the pixel in row `r`.
abbrev pub glyph_space : Bytes
glyph_space = 0x00 ∷ 0x00 ∷ 0x00 ∷ 0x00 ∷ 0x00 ∷ []

abbrev pub glyph_percent : Bytes
glyph_percent = 0x62 ∷ 0x64 ∷ 0x08 ∷ 0x13 ∷ 0x23 ∷ []

abbrev pub glyph_dot : Bytes
glyph_dot = 0x00 ∷ 0x60 ∷ 0x60 ∷ 0x00 ∷ 0x00 ∷ []

abbrev pub glyph_comma : Bytes
glyph_comma = 0x00 ∷ 0x80 ∷ 0x60 ∷ 0x00 ∷ 0x00 ∷ []

abbrev pub glyph_colon : Bytes
glyph_colon = 0x00 ∷ 0x36 ∷ 0x36 ∷ 0x00 ∷ 0x00 ∷ []

abbrev pub glyph_minus : Bytes
glyph_minus = 0x08 ∷ 0x08 ∷ 0x08 ∷ 0x08 ∷ 0x08 ∷ []

abbrev pub glyph_slash : Bytes
glyph_slash = 0x20 ∷ 0x10 ∷ 0x08 ∷ 0x04 ∷ 0x02 ∷ []

abbrev pub glyph_question : Bytes
glyph_question = 0x02 ∷ 0x01 ∷ 0x51 ∷ 0x09 ∷ 0x06 ∷ []

abbrev pub glyph_plus : Bytes
glyph_plus = 0x08 ∷ 0x08 ∷ 0x3e ∷ 0x08 ∷ 0x08 ∷ []

abbrev pub glyph_digits : List Bytes
glyph_digits =
    (0x3e ∷ 0x51 ∷ 0x49 ∷ 0x45 ∷ 0x3e ∷ [])
    ∷ (0x00 ∷ 0x42 ∷ 0x7f ∷ 0x40 ∷ 0x00 ∷ [])
    ∷ (0x42 ∷ 0x61 ∷ 0x51 ∷ 0x49 ∷ 0x46 ∷ [])
    ∷ (0x21 ∷ 0x41 ∷ 0x45 ∷ 0x4b ∷ 0x31 ∷ [])
    ∷ (0x18 ∷ 0x14 ∷ 0x12 ∷ 0x7f ∷ 0x10 ∷ [])
    ∷ (0x27 ∷ 0x45 ∷ 0x45 ∷ 0x45 ∷ 0x39 ∷ [])
    ∷ (0x3c ∷ 0x4a ∷ 0x49 ∷ 0x49 ∷ 0x30 ∷ [])
    ∷ (0x01 ∷ 0x71 ∷ 0x09 ∷ 0x05 ∷ 0x03 ∷ [])
    ∷ (0x36 ∷ 0x49 ∷ 0x49 ∷ 0x49 ∷ 0x36 ∷ [])
    ∷ (0x06 ∷ 0x49 ∷ 0x49 ∷ 0x29 ∷ 0x1e ∷ [])
    ∷ []

abbrev pub glyph_letters : List Bytes
glyph_letters =
    (0x7e ∷ 0x11 ∷ 0x11 ∷ 0x11 ∷ 0x7e ∷ [])
    ∷ (0x7f ∷ 0x49 ∷ 0x49 ∷ 0x49 ∷ 0x36 ∷ [])
    ∷ (0x3e ∷ 0x41 ∷ 0x41 ∷ 0x41 ∷ 0x22 ∷ [])
    ∷ (0x7f ∷ 0x41 ∷ 0x41 ∷ 0x22 ∷ 0x1c ∷ [])
    ∷ (0x7f ∷ 0x49 ∷ 0x49 ∷ 0x49 ∷ 0x41 ∷ [])
    ∷ (0x7f ∷ 0x09 ∷ 0x09 ∷ 0x09 ∷ 0x01 ∷ [])
    ∷ (0x3e ∷ 0x41 ∷ 0x49 ∷ 0x49 ∷ 0x7a ∷ [])
    ∷ (0x7f ∷ 0x08 ∷ 0x08 ∷ 0x08 ∷ 0x7f ∷ [])
    ∷ (0x00 ∷ 0x41 ∷ 0x7f ∷ 0x41 ∷ 0x00 ∷ [])
    ∷ (0x20 ∷ 0x40 ∷ 0x41 ∷ 0x3f ∷ 0x01 ∷ [])
    ∷ (0x7f ∷ 0x08 ∷ 0x14 ∷ 0x22 ∷ 0x41 ∷ [])
    ∷ (0x7f ∷ 0x40 ∷ 0x40 ∷ 0x40 ∷ 0x40 ∷ [])
    ∷ (0x7f ∷ 0x02 ∷ 0x0c ∷ 0x02 ∷ 0x7f ∷ [])
    ∷ (0x7f ∷ 0x04 ∷ 0x08 ∷ 0x10 ∷ 0x7f ∷ [])
    ∷ (0x3e ∷ 0x41 ∷ 0x41 ∷ 0x41 ∷ 0x3e ∷ [])
    ∷ (0x7f ∷ 0x09 ∷ 0x09 ∷ 0x09 ∷ 0x06 ∷ [])
    ∷ (0x3e ∷ 0x41 ∷ 0x51 ∷ 0x21 ∷ 0x5e ∷ [])
    ∷ (0x7f ∷ 0x09 ∷ 0x19 ∷ 0x29 ∷ 0x46 ∷ [])
    ∷ (0x46 ∷ 0x49 ∷ 0x49 ∷ 0x49 ∷ 0x31 ∷ [])
    ∷ (0x01 ∷ 0x01 ∷ 0x7f ∷ 0x01 ∷ 0x01 ∷ [])
    ∷ (0x3f ∷ 0x40 ∷ 0x40 ∷ 0x40 ∷ 0x3f ∷ [])
    ∷ (0x1f ∷ 0x20 ∷ 0x40 ∷ 0x20 ∷ 0x1f ∷ [])
    ∷ (0x3f ∷ 0x40 ∷ 0x38 ∷ 0x40 ∷ 0x3f ∷ [])
    ∷ (0x63 ∷ 0x14 ∷ 0x08 ∷ 0x14 ∷ 0x63 ∷ [])
    ∷ (0x07 ∷ 0x08 ∷ 0x70 ∷ 0x08 ∷ 0x07 ∷ [])
    ∷ (0x61 ∷ 0x51 ∷ 0x49 ∷ 0x45 ∷ 0x43 ∷ [])
    ∷ []

-- `character -= 'a' - 'A'` for a small letter.
abbrev pub to_upper : ℕ → ℕ
to_upper c = if leb b'a' c && leb c b'z' then c - 32 else c

-- The signs behind the letters and digits.
glyph_sign : ℕ → Bytes
glyph_sign c =
    if c == b'%'
    then glyph_percent
    else if c == b'.'
    then glyph_dot
    else if c == b','
    then glyph_comma
    else if c == b':'
    then glyph_colon
    else if c == b'-'
    then glyph_minus
    else if c == b'/'
    then glyph_slash
    else if c == b'?'
    then glyph_question
    else if c == b'+'
    then glyph_plus
    else glyph_space

-- A `char` is its code.
unfoldable pub font5x7_glyph : ℕ → Bytes
unfolding glyph_sign
font5x7_glyph character =
    let c = to_upper character in
    if leb b'A' c && leb c b'Z'
    then get_or glyph_letters (c - b'A') glyph_space
    else if leb b'0' c && leb c b'9'
    then get_or glyph_digits (c - b'0') glyph_space
    else glyph_sign c
