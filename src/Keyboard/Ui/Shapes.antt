-- ===== src/Keyboard/Ui/Shapes.antt =====
-- The border and the icon of a tile in PicoDeck-ED-Keyboard/src/ui.c, pixel by pixel.
use pico_deck_eddiscovery.Base.{
  ℕ, zero, suc, ◌+◌, ◌-◌, ◌*◌, ◌≤◌, ◌<◌, min, ◌≡◌, refl, ap₂, ◌∙◌, Bool, true, ◌&&◌, ◌||◌, leb, ltb,
  ◌==◌, ◌!=◌, if◌then◌else◌, Bool-cases, inl, inr, Bytes, arith,
}
use pico_deck_eddiscovery.Base.Int.{pos, eqb_ℤ}
use pico_deck_eddiscovery.Base.Bits.{u16}
use pico_deck_eddiscovery.Base.Plots.{colored, colored-append}
use pico_deck_eddiscovery.Keyboard.Ui.Tile.{
  border_rows, border_columns, border_at, draw_border, color_with_coverage, coverage_at, icon_row,
  icon_rows, draw_icon,
}

-- The distance to the nearest edge of the tile.
abbrev pub edge_distance : ℕ → ℕ → ℕ
edge_distance x y = min (min x (79 - x)) (min y (79 - y))

abbrev pub on_border : ℕ → ℕ → Bool
on_border x y = edge_distance x y == 1 || edge_distance x y == 2

seen_border_rows :
    (color inset n x0 x y old : ℕ)
    → colored (border_rows color inset n x0) x y old
      ≡ (if (inset == y || (79 - inset) == y) && leb x0 x && ltb x (x0 + n) then u16 color else old)
unfolding border_rows colored
seen_border_rows color inset zero x0 x y old = ground arith
seen_border_rows color inset (suc n) x0 x y old =
    seen_border_rows color inset n (suc x0) x y (
      if eqb_ℤ (pos x0) (pos x) && (79 - inset) == y
      then u16 color
      else if eqb_ℤ (pos x0) (pos x) && inset == y
      then u16 color
      else old)
    ∙ ground arith

seen_border_columns :
    (color inset n y0 x y old : ℕ)
    → colored (border_columns color inset n y0) x y old
      ≡ (if (inset == x || (79 - inset) == x) && leb y0 y && ltb y (y0 + n) then u16 color else old)
unfolding border_columns colored
seen_border_columns color inset zero y0 x y old = ground arith
seen_border_columns color inset (suc n) y0 x y old =
    seen_border_columns color inset n (suc y0) x y (
      if eqb_ℤ (pos (79 - inset)) (pos x) && y0 == y
      then u16 color
      else if eqb_ℤ (pos inset) (pos x) && y0 == y
      then u16 color
      else old)
    ∙ ground arith

seen_border_at :
    (color inset x y old : ℕ)
    → inset ≤ 2
    → x < 80
    → y < 80
    → colored (border_at color inset) x y old
      ≡ (if edge_distance x y == inset then u16 color else old)
seen_border_at color inset x y old h a b =
    colored-append (border_rows color inset (80 - inset - inset) inset)
      (border_columns color inset (80 - inset - inset) inset) x y old
    ∙ seen_border_columns color inset (80 - inset - inset) inset x y
        (colored (border_rows color inset (80 - inset - inset) inset) x y old)
    ∙ ground (arith, seen_border_rows color inset (80 - inset - inset) inset x y old)

pub seen_draw_border :
    (color x y old : ℕ)
    → x < 80
    → y < 80
    → colored (draw_border color) x y old ≡ (if on_border x y then u16 color else old)
unfolding draw_border
seen_draw_border color x y old a b =
    colored-append (border_at color 1) (border_at color 2) x y old
    ∙ seen_border_at color 2 x y (colored (border_at color 1) x y old) (omega arith) a b
    ∙ ground (arith, seen_border_at color 1 x y old (omega arith) a b)

-- The mask's two bits over a pixel of the tile: the icon's corner is (12, 2).
abbrev pub coverage_over : Bytes → ℕ → ℕ → ℕ
coverage_over mask x y =
    if leb 12 x && ltb x 68 && leb 2 y && ltb y 46
    then coverage_at mask ((y - 2) * 56 + (x - 12))
    else 0

-- The icon over a color.
abbrev pub with_icon : Bytes → ℕ → ℕ → ℕ → ℕ → ℕ
with_icon mask color x y old =
    if coverage_over mask x y == 0
    then old
    else u16 (color_with_coverage color (coverage_over mask x y))

seen_icon_row :
    (mask : Bytes) (color y0 n x0 x y old : ℕ)
    → colored (icon_row mask color y0 n x0) (12 + x) (2 + y) old ≡ (
        if y0 == y && leb x0 x && ltb x (x0 + n) && coverage_at mask (y * 56 + x) != 0
        then u16 (color_with_coverage color (coverage_at mask (y * 56 + x)))
        else old)
unfolding icon_row colored
seen_icon_row mask color y0 zero x0 x y old = ground arith
seen_icon_row mask color y0 (suc n) x0 x y old =
    elim (Bool-cases (coverage_at mask (y0 * 56 + x0) == 0)) [
      | inl e ↦ rw e (seen_icon_row mask color y0 n (suc x0) x y old ∙ ground (arith, e))
      | inr e ↦ rw e (
          seen_icon_row mask color y0 n (suc x0) x y (
            if eqb_ℤ (pos (12 + x0)) (pos (12 + x)) && (2 + y0) == (2 + y)
            then u16 (color_with_coverage color (coverage_at mask (y0 * 56 + x0)))
            else old)
          ∙ ground (arith, e))
    ]

seen_icon_rows :
    (mask : Bytes) (color n y0 x y old : ℕ)
    → x < 56
    → colored (icon_rows mask color n y0) (12 + x) (2 + y) old ≡ (
        if leb y0 y && ltb y (y0 + n) && coverage_at mask (y * 56 + x) != 0
        then u16 (color_with_coverage color (coverage_at mask (y * 56 + x)))
        else old)
unfolding icon_rows colored
seen_icon_rows mask color zero y0 x y old h = ground arith
seen_icon_rows mask color (suc n) y0 x y old h =
    colored-append (icon_row mask color y0 56 0) (icon_rows mask color n (suc y0)) (12 + x) (2 + y)
      old
    ∙ seen_icon_rows mask color n (suc y0) x y
        (colored (icon_row mask color y0 56 0) (12 + x) (2 + y) old) h
    ∙ ground (arith, seen_icon_row mask color y0 56 0 x y old)

-- A row or column outside of the icon's keeps its color.
icon_row-outside :
    (mask : Bytes) (color y0 n x0 x y old : ℕ)
    → (ltb y (2 + y0) || ltb (2 + y0) y || ltb x (12 + x0) || leb (12 + x0 + n) x) ≡ true
    → colored (icon_row mask color y0 n x0) x y old ≡ old
unfolding icon_row colored
icon_row-outside mask color y0 zero x0 x y old h = refl
icon_row-outside mask color y0 (suc n) x0 x y old h =
    elim (Bool-cases (coverage_at mask (y0 * 56 + x0) == 0)) [
      | inl e ↦ rw e (icon_row-outside mask color y0 n (suc x0) x y old (ground arith))
      | inr e ↦ rw e (
          icon_row-outside mask color y0 n (suc x0) x y
            (if eqb_ℤ (pos (12 + x0)) (pos x) && (2 + y0) == y
              then u16 (color_with_coverage color (coverage_at mask (y0 * 56 + x0)))
              else old)
            (ground arith)
          ∙ ground arith)
    ]

icon_rows-outside :
    (mask : Bytes) (color n y0 x y old : ℕ)
    → (ltb y (2 + y0) || leb (2 + y0 + n) y || ltb x 12 || leb 68 x) ≡ true
    → colored (icon_rows mask color n y0) x y old ≡ old
unfolding icon_rows colored
icon_rows-outside mask color zero y0 x y old h = refl
icon_rows-outside mask color (suc n) y0 x y old h =
    colored-append (icon_row mask color y0 56 0) (icon_rows mask color n (suc y0)) x y old
    ∙ icon_rows-outside mask color n (suc y0) x y (colored (icon_row mask color y0 56 0) x y old)
        (ground arith)
    ∙ icon_row-outside mask color y0 56 0 x y old (ground arith)

icon_inside :
    (mask : Bytes) (color x y old : ℕ)
    → x < 56
    → y < 44
    → colored (draw_icon mask color) (12 + x) (2 + y) old ≡ (
        if coverage_at mask (y * 56 + x) == 0
        then old
        else u16 (color_with_coverage color (coverage_at mask (y * 56 + x))))
unfolding draw_icon
icon_inside mask color x y old h k = seen_icon_rows mask color 44 0 x y old h ∙ ground arith

pub seen_draw_icon :
    (mask : Bytes) (color x y old : ℕ)
    → colored (draw_icon mask color) x y old ≡ with_icon mask color x y old
unfolding draw_icon
seen_draw_icon mask color x y old =
    elim (Bool-cases (leb 12 x && ltb x 68 && leb 2 y && ltb y 46)) [
      | inl e ↦ rw e (
          ap₂ (λ a b. colored (icon_rows mask color 44 0) a b old) (ground (arith, e))
            (ground (arith, e))
          ∙ icon_inside mask color (x - 12) (y - 2) old (ground (arith, e)) (ground (arith, e)))
      | inr e ↦ rw e (icon_rows-outside mask color 44 0 x y old (ground (arith, e)))
    ]
