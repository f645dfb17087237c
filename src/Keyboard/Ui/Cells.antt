-- ===== src/Keyboard/Ui/Cells.antt =====
-- Where the cells of a glyph in PicoDeck-ED-Keyboard/src/ui.c put their color.
use pico_deck_eddiscovery.Base.{
  ℕ, zero, suc, ◌+◌, ◌-◌, ◌*◌, ◌≤◌, ◌<◌, ◌≡◌, refl, ap, ◌∙◌, Bool, true, false, ◌&&◌, ◌||◌, List,
  [], ◌∷◌, ◌++◌, leb, ltb, ◌==◌, ◌!=◌, if◌then◌else◌, get_or, Bytes, arith,
}
use pico_deck_eddiscovery.Base.Int.{ℤ, pos, pos_part, neg_part, eqb_ℤ, ◌+ℤ◌}
use pico_deck_eddiscovery.Base.Bits.{u16, bit_at}
use pico_deck_eddiscovery.Base.Pixels.{row-lt, column_cells, glyph_cells}
use pico_deck_eddiscovery.Base.Plots.{Plot, colored, colored-append}
use pico_deck_eddiscovery.Keyboard.Ui.Tile.{square_row, square, squares}

-- The cell of a glyph is set.
abbrev pub glyph_has : Bytes → ℕ → ℕ → Bool
glyph_has glyph column row = ltb row 7 && bit_at row (get_or glyph column 0) != 0

abbrev pub has_cell : List (ℕ × ℕ) → ℕ → ℕ → Bool
has_cell [] column row = false
has_cell ((c, r) ∷ cells) column row = (c == column && r == row) || has_cell cells column row

pub bit_at-zero : (i : ℕ) → bit_at i 0 ≡ 0
bit_at-zero zero = refl
bit_at-zero (suc i) = bit_at-zero i

has_cell-append :
    (xs ys : List (ℕ × ℕ)) (column row : ℕ)
    → has_cell (xs ++ ys) column row ≡ (has_cell xs column row || has_cell ys column row)
has_cell-append [] ys column row = refl
has_cell-append ((c, r) ∷ xs) ys column row = ground (arith, has_cell-append xs ys column row)

has_cell-column_cells :
    (c bits r n column row : ℕ)
    → has_cell (column_cells c bits r n) column row
      ≡ (c == column && leb r row && ltb row (r + n) && bit_at row bits != 0)
unfolding column_cells
has_cell-column_cells c bits r zero column row = ground arith
has_cell-column_cells c bits r (suc n) column row =
    ground (arith, has_cell-column_cells c bits (suc r) n column row, ap (λ i. bit_at i bits))

get_or-next :
    (bits : ℕ) (glyph : Bytes) (c column : ℕ)
    → suc c ≤ column
    → get_or (bits ∷ glyph) (column - c) 0 ≡ get_or glyph (column - suc c) 0
get_or-next bits glyph c column h = ap (λ i. get_or (bits ∷ glyph) i 0) next
  where
    next : column - c ≡ suc (column - suc c)
    next = omega arith

pub has_cell-glyph_cells :
    (c : ℕ) (glyph : Bytes) (column row : ℕ)
    → has_cell (glyph_cells c glyph) column row ≡ (leb c column && glyph_has glyph (column - c) row)
unfolding glyph_cells
has_cell-glyph_cells c [] column row = ground (arith, bit_at-zero row)
has_cell-glyph_cells c (bits ∷ glyph) column row = ground (
  arith,
  has_cell-append (column_cells c bits 0 7) (glyph_cells (suc c) glyph) column row,
  has_cell-column_cells c bits 0 7 column row,
  has_cell-glyph_cells (suc c) glyph column row,
  get_or-next bits glyph c column,
)

-- `z + a` is left of x, or at x, or at its right, without the sign.
meets_ℕ : (z : ℤ) (a x : ℕ) → eqb_ℤ (z +ℤ pos a) (pos x) ≡ ((pos_part z + a) == (x + neg_part z))
meets_ℕ z a x = ground arith

pub moved_ℕ :
    (z : ℤ) (a x : ℕ) → pos_part z + a + neg_part (z +ℤ pos a) ≡ pos_part (z +ℤ pos a) + neg_part z
moved_ℕ z a x = ground arith

-- The pixel lies in the `n` columns behind the first `a` from `z` on.
abbrev pub within : ℤ → ℕ → ℕ → ℕ → Bool
within z a n x = leb (pos_part z + a) (x + neg_part z) && ltb (x + neg_part z) (pos_part z + a + n)

seen_square_row :
    (z : ℤ) (y0 color n dx x y old : ℕ)
    → colored (square_row z y0 color n dx) x y old
      ≡ (if y0 == y && within z dx n x then u16 color else old)
unfolding square_row colored
seen_square_row z y0 color zero dx x y old = ground arith
seen_square_row z y0 color (suc n) dx x y old =
    seen_square_row z y0 color n (suc dx) x y
      (if eqb_ℤ (z +ℤ pos dx) (pos x) && y0 == y then u16 color else old)
    ∙ ground (arith, meets_ℕ z dx x)

seen_square :
    (z : ℤ) (y0 color width n dy x y old : ℕ)
    → colored (square z y0 color width n dy) x y old
      ≡ (if leb (y0 + dy) y && ltb y (y0 + dy + n) && within z 0 width x then u16 color else old)
unfolding square colored
seen_square z y0 color width zero dy x y old = ground arith
seen_square z y0 color width (suc n) dy x y old =
    colored-append (square_row z (y0 + dy) color width 0) (square z y0 color width n (suc dy)) x y
      old
    ∙ seen_square z y0 color width n (suc dy) x y
        (colored (square_row z (y0 + dy) color width 0) x y old)
    ∙ ground (arith, seen_square_row z (y0 + dy) color width 0 x y old)

-- The pixel is `d` columns to the right of `z`.
abbrev pub RightOf : ℤ → ℕ → ℕ → Type 0
RightOf z d x = pos_part z + d ≡ x + neg_part z

-- One column or row of cells holds the point.
later_cell : (s c u dx : ℕ) → c < u → c * s + s ≤ u * s + dx
later_cell s c u dx h = grind arith

same_cell :
    (s c u dx : ℕ) → dx < s → (leb (c * s) (u * s + dx) && ltb (u * s + dx) (c * s + s)) ≡ (c == u)
same_cell s c u dx h = ground (arith, row-lt s u c dx, later_cell s c u dx)

within_cell :
    (z : ℤ) (s c u dx x : ℕ)
    → dx < s
    → RightOf z (u * s + dx) x
    → within (z +ℤ pos (c * s)) 0 s x ≡ (c == u)
within_cell z s c u dx x h e = ground (arith, moved_ℕ z (c * s) x, same_cell s c u dx h)

pub seen_squares :
    (z : ℤ) (y0 s color : ℕ) (cells : List (ℕ × ℕ)) (u r dx dy x old : ℕ)
    → dx < s
    → dy < s
    → RightOf z (u * s + dx) x
    → colored (squares z y0 s color cells) x (y0 + (r * s + dy)) old
      ≡ (if has_cell cells u r then u16 color else old)
unfolding squares colored
seen_squares z y0 s color [] u r dx dy x old h k e = ground arith
seen_squares z y0 s color ((c, r') ∷ cells) u r dx dy x old h k e =
    colored-append cell (squares z y0 s color cells) x (y0 + (r * s + dy)) old
    ∙ seen_squares z y0 s color cells u r dx dy x (colored cell x (y0 + (r * s + dy)) old) h k e
    ∙ ground (
      arith,
      seen_square (z +ℤ pos (c * s)) (y0 + r' * s) color s s 0 x (y0 + (r * s + dy)) old,
      within_cell z s c u dx x h e,
      same_cell s r' r dy k,
    )
  where
    cell : List Plot
    cell = square (z +ℤ pos (c * s)) (y0 + r' * s) color s s 0

-- The pixel is above `y0`, or to the left of `z`.
abbrev pub is_outside : ℤ → ℕ → ℕ → ℕ → Bool
is_outside z y0 x y = ltb y y0 || ltb (x + neg_part z) (pos_part z)

pub squares-outside :
    (z : ℤ) (y0 s color : ℕ) (cells : List (ℕ × ℕ)) (x y old : ℕ)
    → is_outside z y0 x y ≡ true
    → colored (squares z y0 s color cells) x y old ≡ old
unfolding squares colored
squares-outside z y0 s color [] x y old h = refl
squares-outside z y0 s color ((c, r) ∷ cells) x y old h =
    colored-append (square (z +ℤ pos (c * s)) (y0 + r * s) color s s 0) (squares z y0 s color cells)
      x y old
    ∙ squares-outside z y0 s color cells x y
        (colored (square (z +ℤ pos (c * s)) (y0 + r * s) color s s 0) x y old) h
    ∙ ground (
      arith,
      seen_square (z +ℤ pos (c * s)) (y0 + r * s) color s s 0 x y old,
      moved_ℕ z (c * s) x,
    )
