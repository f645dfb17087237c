-- ===== src/Display/Window.antt =====
-- What the panel's controller makes of the bytes that PicoDeck-ED-Display/src/lcd.c sends.
use pico_deck_eddiscovery.Base.{
  ℕ, zero, suc, ◌+◌, ◌-◌, ◌*◌, ◌≤◌, ◌<◌, ◌≡◌, ◌∙◌, refl, sym, subst, ap₂, Bool, true, false, ◌||◌,
  Option, none, some, List, [], ◌∷◌, ◌++◌, ◌==◌, if◌then◌else◌, length, replicate, Bytes, arith,
}
use pico_deck_eddiscovery.Display.Lcd.{
  Bus, write_parameters, lcd_write_command, window_bytes, lcd_set_window, lcd_blit_rgb565_be,
  fill_row, lcd_fill,
}
use Bus.{select, data_line, baudrate, write}

-- The controller: whether it is selected, whether bytes are data, the command, its parameters, the
-- window it holds (columns and rows, first and last), and how many bytes of pixels it got.
pub record Panel : Type 0 where
  pub selected : Bool
  pub is_data : Bool
  pub command : ℕ
  pub parameters : Bytes
  pub columns : ℕ × ℕ
  pub rows : ℕ × ℕ
  pub pixel_bytes : ℕ

-- Four parameters are two numbers, high byte first.
abbrev span : Bytes → Option (ℕ × ℕ)
span (a ∷ b ∷ c ∷ d ∷ []) = some (a * 256 + b, c * 256 + d)
span _ = none

abbrev span_or : Bytes → ℕ × ℕ → ℕ × ℕ
span_or bytes old = elim (span bytes) [ none ↦ old | some s ↦ s ]

abbrev last_byte : Bytes → ℕ
last_byte [] = 0
last_byte (b ∷ []) = b
last_byte (b ∷ c ∷ bs) = last_byte (c ∷ bs)

-- Data go to the command: a parameter is the low byte of its word; after the memory write they are
-- pixels.
abbrev take_data : Bytes → Panel → Panel
take_data bytes s =
    if s.command == 0x2c
    then record s { pixel_bytes = s.pixel_bytes + length bytes }
    else if s.command == 0x2a
    then record s {
      parameters = s.parameters ++ last_byte bytes ∷ [];
      columns = span_or (s.parameters ++ last_byte bytes ∷ []) s.columns;
    }
    else if s.command == 0x2b
    then record s {
      parameters = s.parameters ++ last_byte bytes ∷ [];
      rows = span_or (s.parameters ++ last_byte bytes ∷ []) s.rows;
    }
    else s

-- `select true` pulls the chip select low.
abbrev pub sees : Bus → Panel → Panel
sees (select b) s = record s { selected = b }
sees (data_line n) s = record s { is_data = n == 1 }
sees (write bytes) s =
    if s.selected
    then (if s.is_data
        then take_data bytes s
        else record s { command = last_byte bytes; parameters = []; pixel_bytes = 0 })
    else s
sees _ s = s

abbrev pub sees_all : List Bus → Panel → Panel
sees_all [] s = s
sees_all (b ∷ bs) s = sees_all bs (sees b s)

both : {a b c d : ℕ} → a ≡ b → c ≡ d → ◌≡◌ {A = ℕ × ℕ} (a, c) (b, d)
both e f = ap₂ (λ x y. (x, y)) e f

-- A window on the panel, set in any state, is the window that the controller holds; it then waits for
-- pixels and has none.
pub lcd_set_window_lem :
    (baud x y width height : ℕ) (s : Panel)
    → 0 < width
    → x + width ≤ 480
    → 0 < height
    → y + height ≤ 320
    → let r = sees_all (lcd_set_window baud x y width height) s in
      (r.columns ≡ (x, x + width - 1))
      × (r.rows ≡ (y, y + height - 1))
      × (r.command ≡ 0x2c)
      × (r.pixel_bytes ≡ 0)
unfolding lcd_set_window lcd_write_command write_parameters window_bytes
lcd_set_window_lem baud x y width height s h k l m =
    (both (omega arith) (omega arith), both (omega arith) (omega arith), refl, refl)

length-fill_row : (n color : ℕ) → length (fill_row n color) ≡ 2 * n
unfolding fill_row
length-fill_row zero color = refl
length-fill_row (suc n) color = omega (arith, length-fill_row n color)

sees_all-append :
    (xs ys : List Bus) (s : Panel) → sees_all (xs ++ ys) s ≡ sees_all ys (sees_all xs s)
sees_all-append [] ys s = refl
sees_all-append (x ∷ xs) ys s = sees_all-append xs ys (sees x s)

abbrev row_writes : ℕ → Bytes → List Bus
row_writes n row = replicate n (write row) ++ select false ∷ []

abbrev writing : ℕ → Panel → Panel
writing command s = record s { selected = true; is_data = true; command = command }

-- Writes of pixels add up, and leave the window alone.
abbrev Filled : ℕ → Panel → Panel → Type 0
Filled count s r =
    (r.columns ≡ s.columns) × (r.rows ≡ s.rows) × (r.pixel_bytes ≡ s.pixel_bytes + count)

rows_written :
    (n : ℕ) (row : Bytes) (s : Panel)
    → Filled (n * length row) s (sees_all (row_writes n row) (writing 0x2c s))
rows_written zero row s = (refl, refl, omega arith)
rows_written (suc n) row s =
    let (h, k, l) = rows_written n row (record s { pixel_bytes = s.pixel_bytes + length row }) in
    (h, k, l ∙ sum (n * length row) (length row) (times n (length row)))
  where
    times : (n m : ℕ) → suc n * m ≡ n * m + m
    times n m = omega arith

    sum : (a b : ℕ) {c : ℕ} → c ≡ a + b → s.pixel_bytes + b + a ≡ s.pixel_bytes + c
    sum a b e = omega (arith, e)

fill_rows :
    (n : ℕ) (row : Bytes) (s : Panel)
    → s.command ≡ 0x2c
    → Filled (n * length row) s (sees_all (select true ∷ data_line 1 ∷ row_writes n row) s)
fill_rows n row s e =
    subst (λ k. Filled (n * length row) s (sees_all (row_writes n row) (writing k s))) (sym e)
      (rows_written n row s)

-- Writes of pixels into a window on the panel.
fill_window :
    (baud x y width height n : ℕ) (row : Bytes) (s : Panel)
    → 0 < width
    → x + width ≤ 480
    → 0 < height
    → y + height ≤ 320
    → let r =
        sees_all
          (lcd_set_window baud x y width height
            ++ baudrate baud ∷ select true ∷ data_line 1 ∷ row_writes n row)
          s in
      (r.columns ≡ (x, x + width - 1))
      × (r.rows ≡ (y, y + height - 1))
      × (r.pixel_bytes ≡ n * length row)
fill_window baud x y width height n row s h k l m =
    rw
      (sees_all-append (lcd_set_window baud x y width height)
        (baudrate baud ∷ select true ∷ data_line 1 ∷ row_writes n row) s)
      (filled.0 ∙ set.0, filled.1 ∙ set.1, filled.2 ∙ omega (arith, set.3))
  where
    opened : Panel
    opened = sees_all (lcd_set_window baud x y width height) s

    set :
        (opened.columns ≡ (x, x + width - 1))
        × (opened.rows ≡ (y, y + height - 1))
        × (opened.command ≡ 0x2c)
        × (opened.pixel_bytes ≡ 0)
    set = lcd_set_window_lem baud x y width height s h k l m

    filled :
        Filled
          (n * length row)
          opened
          (sees_all (select true ∷ data_line 1 ∷ row_writes n row) opened)
    filled = fill_rows n row opened set.2

-- A transfer of pixels to a window on the panel, in any state of the controller: the controller holds
-- that window, and got exactly the bytes of the pixels.
pub lcd_blit_rgb565_be_lem :
    (baud x y width height : ℕ) (pixels : Bytes) (s : Panel)
    → 0 < width
    → x + width ≤ 480
    → 0 < height
    → y + height ≤ 320
    → let r = sees_all (lcd_blit_rgb565_be baud x y width height (some pixels)) s in
      (r.columns ≡ (x, x + width - 1))
      × (r.rows ≡ (y, y + height - 1))
      × (r.pixel_bytes ≡ length pixels)
unfolding lcd_blit_rgb565_be
lcd_blit_rgb565_be_lem baud x y width height pixels s h k l m =
    rw some_pixels (window.0, window.1, window.2 ∙ once (length pixels))
  where
    some_pixels : (width == 0 || height == 0) ≡ false
    some_pixels = ground (arith, h, l)

    once : (n : ℕ) → 1 * n ≡ n
    once n = omega arith

    window :
        let r =
          sees_all
            (lcd_set_window baud x y width height
              ++ baudrate baud ∷ select true ∷ data_line 1 ∷ row_writes 1 pixels)
            s in
        (r.columns ≡ (x, x + width - 1))
        × (r.rows ≡ (y, y + height - 1))
        × (r.pixel_bytes ≡ 1 * length pixels)
    window = fill_window baud x y width height 1 pixels s h k l m

-- `lcd_fill` opens the whole panel as the window and sends two bytes for each of its pixels, in any
-- state of the controller.
lcd_fill_lem :
    (baud color : ℕ) (s : Panel)
    → let r = sees_all (lcd_fill baud color) s in
      (r.columns ≡ (0, 479)) × (r.rows ≡ (0, 319)) × (r.pixel_bytes ≡ 2 * (480 * 320))
unfolding lcd_fill
lcd_fill_lem baud color s =
    let (h, k, l) =
      fill_window baud 0 0 480 320 320 (fill_row 480 color) s (omega arith) (omega arith)
        (omega arith) (omega arith) in
    (h, k, l ∙ omega (arith, length-fill_row 480 color))
