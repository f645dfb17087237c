-- ===== src/Base/Pixels.antt =====
-- Buffers of 16-bit pixels, high byte first: what dashboard.c of the display and ui.c of the keyboard
-- draw into. A buffer shows some rows of a picture.
use Prim.Native.Nat.{ℕ, zero, suc, ◌+◌, ◌-◌, ◌*◌, ◌/◌, ◌≤◌, ◌<◌}
use mathlib.Core.Path.{◌≡◌, refl, ap, ap₂, ◌∙◌}
use mathlib.Core.Logic.{inl, inr}
use mathlib.Core.Bool.{Bool, true, ◌&&◌}
use mathlib.Core.List.{List, [], ◌∷◌, ◌++◌}
use native.Mathlib.Omega.{arith}
use pico_deck_eddiscovery.Base.Tests.{ltb, leb, ◌==◌, if◌then◌else◌, Bool-cases}
use pico_deck_eddiscovery.Base.Lists.{length, get_or, set, length-set, replicate, Bytes}
use pico_deck_eddiscovery.Base.Bits.{u8, u16, bit_at}

module _ {ℓ} {A : Type ℓ} where
  get_or-set :
      (xs : List A) (i j : ℕ) (v d : A)
      → i < length xs
      → get_or (set xs i v) j d ≡ (if i == j then v else get_or xs j d)
  get_or-set [] i j v d h = absurd (omega arith)
  get_or-set (x ∷ xs) zero zero v d h = refl
  get_or-set (x ∷ xs) zero (suc j) v d h = ground arith
  get_or-set (x ∷ xs) (suc i) zero v d h = ground arith
  get_or-set (x ∷ xs) (suc i) (suc j) v d h = ground (arith, get_or-set xs i j v d)

-- `pixels[offset] = color >> 8; pixels[offset + 1] = color;`
abbrev pub put_pixel : ℕ → ℕ → Bytes → Bytes
put_pixel offset color pixels = set (set pixels offset (u8 (color / 256))) (offset + 1) (u8 color)

-- The pixel with that number.
unfoldable pub color_at : ℕ → Bytes → ℕ
color_at i pixels = get_or pixels (i * 2) 0 * 256 + get_or pixels (i * 2 + 1) 0

get_or-replicate : (n i z : ℕ) → get_or (replicate n z) i z ≡ z
get_or-replicate zero i z = refl
get_or-replicate (suc n) zero z = refl
get_or-replicate (suc n) (suc i) z = get_or-replicate n i z

-- A cleared buffer is black.
pub color_at-replicate : (n i : ℕ) → color_at i (replicate n 0) ≡ 0
unfolding color_at
color_at-replicate n i =
    ap₂ (λ a b. a * 256 + b) (get_or-replicate n (i * 2) 0) (get_or-replicate n (i * 2 + 1) 0)

color_at-put_pixel :
    (i j color : ℕ) (pixels : Bytes)
    → i * 2 + 1 < length pixels
    → color_at j (put_pixel (i * 2) color pixels)
      ≡ (if i == j then u16 color else color_at j pixels)
unfolding color_at
color_at-put_pixel i j color pixels h = ground (
  arith,
  length-set pixels (i * 2) (u8 (color / 256)),
  get_or-set (set pixels (i * 2) (u8 (color / 256))) (i * 2 + 1) (j * 2) (u8 color) 0,
  get_or-set (set pixels (i * 2) (u8 (color / 256))) (i * 2 + 1) (j * 2 + 1) (u8 color) 0,
  get_or-set pixels (i * 2) (j * 2) (u8 (color / 256)) 0,
  get_or-set pixels (i * 2) (j * 2 + 1) (u8 (color / 256)) 0,
)

-- A window on a picture: its width, its first row, the number of rows in the buffer, and the number of
-- rows of the picture.
pub record View : Type 0 where
  pub width : ℕ
  pub first : ℕ
  pub rows : ℕ
  pub limit : ℕ

abbrev pub in_view : View → ℕ → ℕ → Bool
in_view v x y = ltb x v.width && leb v.first y && ltb y (v.first + v.rows) && ltb y v.limit

abbrev pub index : View → ℕ → ℕ → ℕ
index v x y = (y - v.first) * v.width + x

-- A test on both coordinates, then the two bytes.
unfoldable pub plot : View → ℕ → ℕ → ℕ → Bytes → Bytes
plot v x y color pixels = if in_view v x y then put_pixel (index v x y * 2) color pixels else pixels

pub length-plot :
    (v : View) (x y color : ℕ) (pixels : Bytes) → length (plot v x y color pixels) ≡ length pixels
unfolding plot
length-plot v x y color pixels = ground (
  arith,
  length-set pixels (index v x y * 2) (u8 (color / 256)),
  length-set (set pixels (index v x y * 2) (u8 (color / 256))) (index v x y * 2 + 1) (u8 color),
)

pub row-lt : (w a b x : ℕ) → x < w → a < b → a * w + x < b * w
row-lt w a b x h k = grind arith

index-lt : (w x y x' y' : ℕ) → x < w → y < y' → y * w + x < y' * w + x'
index-lt w x y x' y' h k = grind arith

index_same :
    (w x y x' y' : ℕ) → x < w → x' < w → ((y * w + x) == (y' * w + x')) ≡ (x == x' && y == y')
index_same w x y x' y' h k = ground (arith, index-lt w x y x' y', index-lt w x' y' x y)

-- The buffer has room for all of the view's rows.
abbrev pub HasRoom : View → Bytes → Type 0
HasRoom v pixels = v.rows * v.width * 2 ≤ length pixels

in_range :
    (v : View) (x y : ℕ) (pixels : Bytes)
    → HasRoom v pixels
    → in_view v x y ≡ true
    → index v x y * 2 + 1 < length pixels
in_range v x y pixels room h =
    omega (arith, row-lt v.width (y - v.first) v.rows x (ground arith) (ground arith))

same_pixel :
    (v : View) (x y x' y' : ℕ)
    → in_view v x y ≡ true
    → in_view v x' y' ≡ true
    → (index v x y == index v x' y') ≡ (x == x' && y == y')
same_pixel v x y x' y' h k = ground (arith, index_same v.width x (y - v.first) x' (y' - v.first))

-- A pixel in view gets its color, and every other keeps what it had.
pub color_at-plot :
    (v : View) (x y color x' y' : ℕ) (pixels : Bytes)
    → HasRoom v pixels
    → in_view v x' y' ≡ true
    → color_at (index v x' y') (plot v x y color pixels)
      ≡ (if x == x' && y == y' then u16 color else color_at (index v x' y') pixels)
unfolding plot
color_at-plot v x y color x' y' pixels room h = elim (Bool-cases (in_view v x y)) [
  | inl e ↦ rw e (
      color_at-put_pixel (index v x y) (index v x' y') color pixels (in_range v x y pixels room e)
      ∙ ap (λ b. if b then u16 color else color_at (index v x' y') pixels)
          (same_pixel v x y x' y' e h))
  | inr e ↦ ground (arith, e)
]

-- The cells of a glyph that are set, in the order of the two loops over columns and rows: `row` and the
-- `n` rows behind it of one column, then the columns.
unfoldable pub column_cells : ℕ → ℕ → ℕ → ℕ → List (ℕ × ℕ)
column_cells column bits row zero = []
column_cells column bits row (suc n) =
    let rest = column_cells column bits (suc row) n in
    if bit_at row bits == 0 then rest else (column, row) ∷ rest

unfoldable pub glyph_cells : ℕ → Bytes → List (ℕ × ℕ)
glyph_cells column [] = []
glyph_cells column (bits ∷ glyph) = column_cells column bits 0 7 ++ glyph_cells (suc column) glyph
