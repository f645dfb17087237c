-- ===== src/Keyboard/Touch.antt =====
-- PicoDeck-ED-Keyboard/src/touch.c: one reading of the touch panel. The converter's answers and the
-- interrupt line come from outside.
use pico_deck_eddiscovery.Base.{
  ℕ, ◌+◌, ◌-◌, ◌*◌, ◌/◌, Bool, not, ◌&&◌, ◌||◌, Option, none, some, List, [], ◌∷◌, ltb,
  if◌then◌else◌, take, drop,
}
use pico_deck_eddiscovery.Base.Bits.{u16}
use pico_deck_eddiscovery.Base.Int.{ℤ, pos, negsuc, sub_ℕ}
use pico_deck_eddiscovery.Keyboard.Board.{
  lcd_width, lcd_height, touch_x_slope, touch_x_offset, touch_y_slope, touch_y_offset,
}

abbrev pub touch_samples : ℕ
touch_samples = 5

abbrev pub touch_discard_samples : ℕ
touch_discard_samples = 1

abbrev pub touch_pair_max_delta : ℕ
touch_pair_max_delta = 50

-- `touch_read_adc`: the two bytes of the answer, shifted right by 3.
unfoldable pub adc_value : ℕ → ℕ → ℕ
adc_value high low = (high * 256 + low) / 8

-- The `while` loop of `sort_samples` moves what is greater than `value` one place up: here the sorted
-- part is a list, and `value` goes in behind the last element that is not greater.
unfoldable pub insert : ℕ → List ℕ → List ℕ
insert value [] = value ∷ []
insert value (x ∷ xs) = if ltb value x then value ∷ x ∷ xs else x ∷ insert value xs

-- The `for` loop: the values before `i` are sorted.
unfoldable pub insert_all : List ℕ → List ℕ → List ℕ
insert_all sorted [] = sorted
insert_all sorted (x ∷ xs) = insert_all (insert x sorted) xs

unfoldable pub sort_samples : List ℕ → List ℕ
sort_samples values = insert_all [] values

abbrev pub sum : List ℕ → ℕ
sum [] = 0
sum (x ∷ xs) = x + sum xs

-- `touch_read_filtered` on its five readings: the mean of the middle ones.
unfoldable pub filtered : List ℕ → ℕ
filtered values = u16 (
    sum (
      take (touch_samples - 2 * touch_discard_samples)
        (drop touch_discard_samples (sort_samples values)))
    / (touch_samples - 2 * touch_discard_samples))

-- `abs(a - b) > TOUCH_PAIR_MAX_DELTA`
abbrev pub far_apart : ℕ → ℕ → Bool
far_apart a b = ltb touch_pair_max_delta (a - b) || ltb touch_pair_max_delta (b - a)

-- `touch_read_stable_pair` on its four filtered readings, in the order read.
unfoldable pub stable_pair : ℕ → ℕ → ℕ → ℕ → Option (ℕ × ℕ)
stable_pair x1 y1 x2 y2 =
    if far_apart x1 x2 || far_apart y1 y2
    then none
    else some (u16 ((x1 + x2) / 2), u16 ((y1 + y2) / 2))

-- `(-slope * raw) >> 16` and `(slope * raw) >> 16`: the arithmetic shift rounds down.
unfoldable pub mapped_x_raw : ℕ → ℤ
mapped_x_raw raw_y = sub_ℕ touch_x_offset ((touch_x_slope * raw_y + 65535) / 65536)

unfoldable pub mapped_y_raw : ℕ → ℤ
mapped_y_raw raw_x = sub_ℕ (touch_y_slope * raw_x / 65536) touch_y_offset

-- The two tests that keep a coordinate on a panel of that size.
unfoldable pub clamp : ℕ → ℤ → ℕ
clamp size (negsuc n) = 0
clamp size (pos n) = if ltb n size then n else size - 1

-- Both axes are flipped.
unfoldable pub map_point : ℕ → ℕ → ℕ × ℕ
map_point raw_x raw_y = (
  u16 (lcd_width - 1 - clamp lcd_width (mapped_x_raw raw_y)),
  u16 (lcd_height - 1 - clamp lcd_height (mapped_y_raw raw_x)),
)

abbrev pub in_range : ℕ → Bool
in_range raw = not (ltb raw 100 || ltb 4000 raw)

-- What one poll meets: the line before and after (`true` is high, no touch) and the four runs of
-- five readings.
pub record Reading : Type 0 where
  pub line_before : Bool
  pub x1 : List ℕ
  pub y1 : List ℕ
  pub x2 : List ℕ
  pub y2 : List ℕ
  pub line_after : Bool

unfoldable pub touch_poll : Reading → Option (ℕ × ℕ)
touch_poll r =
    if r.line_before
    then none
    else elim (stable_pair (filtered r.x1) (filtered r.y1) (filtered r.x2) (filtered r.y2)) [
      | none ↦ none
      | some (raw_x, raw_y) ↦
          if r.line_after
          then none
          else if in_range raw_x && in_range raw_y
          then some (map_point raw_x raw_y)
          else none
    ]
