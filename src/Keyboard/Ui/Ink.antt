-- ===== src/Keyboard/Ui/Ink.antt =====
-- Where the texts of PicoDeck-ED-Keyboard/src/ui.c put their color.
use native.Mathlib.Nat.{mod-lt}
use pico_deck_eddiscovery.Base.{
  ℕ, zero, suc, ◌+◌, ◌-◌, ◌*◌, ◌/◌, ◌%◌, ◌≤◌, ◌<◌, ◌≡◌, refl, ap, ◌∙◌, Bool, true, false, ◌&&◌, inl,
  inr, List, [], ◌∷◌, leb, ltb, ◌==◌, if◌then◌else◌, Bool-cases, length, get_or, Bytes, arith,
}
use pico_deck_eddiscovery.Base.Int.{ℤ, pos, ◌+ℤ◌}
use pico_deck_eddiscovery.Base.Bits.{u16, bit_at}
use pico_deck_eddiscovery.Base.Pixels.{row-lt, glyph_cells}
use pico_deck_eddiscovery.Base.Plots.{Plot, colored, colored-append}
use pico_deck_eddiscovery.Keyboard.Font.{glyph_space, glyph_digits, glyph_letters, font5x7_glyph}
use pico_deck_eddiscovery.Keyboard.Ui.Tile.{squares, text_from}
use pico_deck_eddiscovery.Keyboard.Ui.Cells.{
  glyph_has, has_cell-glyph_cells, bit_at-zero, moved_ℕ, RightOf, seen_squares, squares-outside,
  is_outside,
}

-- A text in units of its scale: six columns for each character.
abbrev pub inked : Bytes → ℕ → ℕ → Bool
inked [] column row = false
inked (c ∷ cs) column row =
    if ltb column 6 then glyph_has (font5x7_glyph c) column row else inked cs (column - 6) row

-- A text colors nothing above its first row or to the left of its first column.
pub text_from-outside :
    (z : ℤ) (y0 : ℕ) (text : Bytes) (s color x y old : ℕ)
    → is_outside z y0 x y ≡ true
    → colored (text_from z y0 text s color) x y old ≡ old
unfolding text_from colored
text_from-outside z y0 [] s color x y old h = refl
text_from-outside z y0 (c ∷ cs) s color x y old h =
    colored-append cells (text_from (z +ℤ pos (6 * s)) y0 cs s color) x y old
    ∙ text_from-outside (z +ℤ pos (6 * s)) y0 cs s color x y (colored cells x y old)
        (ground (arith, moved_ℕ z (6 * s) x))
    ∙ squares-outside z y0 s color (glyph_cells 0 (font5x7_glyph c)) x y old h
  where
    cells : List Plot
    cells = squares z y0 s color (glyph_cells 0 (font5x7_glyph c))

-- Every glyph has five columns.
abbrev all_five : List Bytes → Bool
all_five [] = true
all_five (g ∷ gs) = length g == 5 && all_five gs

get_or-five : (gs : List Bytes) (i : ℕ) → all_five gs ≡ true → length (get_or gs i glyph_space) ≡ 5
get_or-five [] i h = refl
get_or-five (g ∷ gs) zero h = ground arith
get_or-five (g ∷ gs) (suc i) h = get_or-five gs i (ground arith)

length-font5x7_glyph : (c : ℕ) → length (font5x7_glyph c) ≡ 5
unfolding font5x7_glyph
length-font5x7_glyph c = elim (Bool-cases (leb b'A' c && leb c b'Z')) [
  | inl e ↦ rw e (get_or-five glyph_letters (c - b'A') refl)
  | inr e ↦ elim (Bool-cases (leb b'0' c && leb c b'9')) [
    | inl e' ↦ rw (e, e') (get_or-five glyph_digits (c - b'0') refl)
    | inr e' ↦ elim (Bool-cases (c == b'%')) [
      | inl e2 ↦ rw (e, e', e2) refl
      | inr e2 ↦ rw (e, e', e2) refl
    ]
  ]
]

get_or-beyond : (xs : Bytes) (i : ℕ) → length xs ≤ i → get_or xs i 0 ≡ 0
get_or-beyond [] i h = refl
get_or-beyond (x ∷ xs) zero h = absurd (omega (arith, h))
get_or-beyond (x ∷ xs) (suc i) h = get_or-beyond xs i (omega (arith, h))

beyond_glyph : (c column row : ℕ) → 5 ≤ column → glyph_has (font5x7_glyph c) column row ≡ false
beyond_glyph c column row h = ground (
  arith,
  length-font5x7_glyph c,
  get_or-beyond (font5x7_glyph c) column,
  bit_at-zero row,
  ap (bit_at row) (get_or-beyond (font5x7_glyph c) column (ground (arith, length-font5x7_glyph c))),
)

next_character : (u s : ℕ) → 6 ≤ u → (u - 6) * s + 6 * s ≡ u * s
next_character u s h = add (u - 6) ∙ ap (λ t. t * s) back
  where
    add : (k : ℕ) → k * s + 6 * s ≡ (k + 6) * s
    add k = grind arith

    back : u - 6 + 6 ≡ u
    back = omega arith

pub seen_text_from :
    (z : ℤ) (y0 : ℕ) (text : Bytes) (s color u r dx dy x old : ℕ)
    → dx < s
    → dy < s
    → RightOf z (u * s + dx) x
    → colored (text_from z y0 text s color) x (y0 + (r * s + dy)) old
      ≡ (if inked text u r then u16 color else old)
unfolding text_from colored
seen_text_from z y0 [] s color u r dx dy x old h k e = refl
seen_text_from z y0 (c ∷ cs) s color u r dx dy x old h k e =
    colored-append cells (text_from (z +ℤ pos (6 * s)) y0 cs s color) x (y0 + (r * s + dy)) old
    ∙ elim (Bool-cases (ltb u 6)) [
      | inl e' ↦
          text_from-outside (z +ℤ pos (6 * s)) y0 cs s color x (y0 + (r * s + dy))
            (colored cells x (y0 + (r * s + dy)) old)
            (ground (arith, moved_ℕ z (6 * s) x, row-lt s u 6 dx))
          ∙ ground (
            arith,
            seen_squares z y0 s color (glyph_cells 0 (font5x7_glyph c)) u r dx dy x old h k e,
            has_cell-glyph_cells 0 (font5x7_glyph c) u r,
          )
      | inr e' ↦
          seen_text_from (z +ℤ pos (6 * s)) y0 cs s color (u - 6) r dx dy x
            (colored cells x (y0 + (r * s + dy)) old) h k
            (ground (arith, moved_ℕ z (6 * s) x, next_character u s))
          ∙ ground (
            arith,
            seen_squares z y0 s color (glyph_cells 0 (font5x7_glyph c)) u r dx dy x old h k e,
            has_cell-glyph_cells 0 (font5x7_glyph c) u r,
            beyond_glyph c u r,
          )
    ]
  where
    cells : List Plot
    cells = squares z y0 s color (glyph_cells 0 (font5x7_glyph c))

-- A text from column `left` and row `y0` on, at a scale: the cell of the pixel decides.
pub seen_text :
    (left y0 : ℕ) (text : Bytes) (s color x y old : ℕ)
    → 0 < s
    → colored (text_from (pos left) y0 text s color) x y old ≡ (
        if leb left x && leb y0 y && inked text ((x - left) / s) ((y - y0) / s)
        then u16 color
        else old)
seen_text left y0 text s color x y old h = elim (Bool-cases (leb left x && leb y0 y)) [
  | inl e ↦
      ap (λ b. colored (text_from (pos left) y0 text s color) x b old) (row (ground (arith, e)))
      ∙ seen_text_from (pos left) y0 text s color ((x - left) / s) ((y - y0) / s) ((x - left) % s)
          ((y - y0) % s) x old (mod-lt (x - left) h) (mod-lt (y - y0) h)
          (column (ground (arith, e)))
      ∙ ground (arith, e)
  | inr e ↦
      text_from-outside (pos left) y0 text s color x y old (ground (arith, e)) ∙ ground (arith, e)
]
  where
    row : y0 ≤ y → y ≡ y0 + ((y - y0) / s * s + (y - y0) % s)
    row k = omega (arith, k)

    column : left ≤ x → left + ((x - left) / s * s + (x - left) % s) ≡ x + 0
    column k = omega (arith, k)
