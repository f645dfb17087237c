-- ===== src/Display/Picture.antt =====
-- What the drawing of PicoDeck-ED-Display/src/dashboard.c leaves in the stripe's buffer.
use pico_deck_eddiscovery.Base.{
  ℕ, zero, suc, ◌+◌, ◌-◌, ◌*◌, ◌≤◌, min, max, ◌≡◌, refl, ap, ◌∙◌, sym, subst, Bool, true, ◌&&◌,
  List, [], ◌∷◌, leb, ltb, ◌==◌, if◌then◌else◌, length, Bytes, arith,
}
use pico_deck_eddiscovery.Base.Int.{pos, pos_part, leb_ℤ, ltb_ℤ, ◌+ℤ◌}
use pico_deck_eddiscovery.Base.Bits.{u16}
use pico_deck_eddiscovery.Base.Pixels.{
  color_at, in_view, index, HasRoom, length-plot, color_at-plot,
}
use pico_deck_eddiscovery.Display.Canvas.{Fill, stripe_view, pixel, rect_row, rect_rows, rect}
use pico_deck_eddiscovery.Display.Pages.{fill_all}

-- The pixel (x, y) of the page lies in the rectangle.
abbrev pub covers : Fill → ℕ → ℕ → Bool
covers f x y =
    leb_ℤ f.x (pos x) && ltb_ℤ (pos x) (f.x +ℤ pos f.width) && leb f.y y && ltb y (f.y + f.height)

-- The color of the pixel (x, y) of a page on which the rectangles are painted, each over those before it.
unfoldable pub painted : List Fill → ℕ → ℕ → ℕ → ℕ
painted [] x y color = color
painted (f ∷ fs) x y color = painted fs x y (if covers f x y then u16 f.color else color)

abbrev Room : ℕ → Bytes → Type 0
Room stripe pixels = HasRoom (stripe_view stripe) pixels

length-pixel :
    (stripe x y color : ℕ) (pixels : Bytes) → length (pixel stripe x y color pixels) ≡ length pixels
unfolding pixel
length-pixel stripe x y color pixels = length-plot (stripe_view stripe) x y color pixels

length-rect_row :
    (stripe color py n px : ℕ) (pixels : Bytes)
    → length (rect_row stripe color py n px pixels) ≡ length pixels
unfolding rect_row
length-rect_row stripe color py zero px pixels = refl
length-rect_row stripe color py (suc n) px pixels =
    length-rect_row stripe color py n (suc px) (pixel stripe px py color pixels)
    ∙ length-pixel stripe px py color pixels

length-rect_rows :
    (stripe color left width n py : ℕ) (pixels : Bytes)
    → length (rect_rows stripe color left width n py pixels) ≡ length pixels
unfolding rect_rows
length-rect_rows stripe color left width zero py pixels = refl
length-rect_rows stripe color left width (suc n) py pixels =
    length-rect_rows stripe color left width n (suc py) (rect_row stripe color py width left pixels)
    ∙ length-rect_row stripe color py width left pixels

pub length-rect :
    (stripe : ℕ) (f : Fill) (pixels : Bytes) → length (rect stripe f pixels) ≡ length pixels
unfolding rect
length-rect stripe f pixels =
    length-rect_rows stripe f.color (pos_part f.x)
      (min (pos_part (f.x +ℤ pos f.width)) 480 - pos_part f.x)
      (min (min (f.y + f.height) (stripe + 24)) 320 - max f.y stripe) (max f.y stripe) pixels

-- The pixel (x, y) that a lemma is about, in the stripe.
module _ (stripe x y : ℕ) (h : in_view (stripe_view stripe) x y ≡ true) where
  abbrev seen : Bytes → ℕ
  seen pixels = color_at (index (stripe_view stripe) x y) pixels

  seen-pixel :
      (px py color : ℕ) (pixels : Bytes)
      → Room stripe pixels
      → seen (pixel stripe px py color pixels)
        ≡ (if px == x && py == y then u16 color else seen pixels)
  unfolding pixel
  seen-pixel px py color pixels room =
      color_at-plot (stripe_view stripe) px py color x y pixels room h

  seen_row :
      (color py n px : ℕ) (pixels : Bytes)
      → Room stripe pixels
      → seen (rect_row stripe color py n px pixels)
        ≡ (if py == y && leb px x && ltb x (px + n) then u16 color else seen pixels)
  unfolding rect_row
  seen_row color py zero px pixels room = ground arith
  seen_row color py (suc n) px pixels room = ground (
    arith,
    seen_row color py n (suc px) (pixel stripe px py color pixels),
    length-pixel stripe px py color pixels,
    seen-pixel px py color pixels,
  )

  seen_rows :
      (color left width n py : ℕ) (pixels : Bytes)
      → Room stripe pixels
      → seen (rect_rows stripe color left width n py pixels) ≡ (
          if leb py y && ltb y (py + n) && leb left x && ltb x (left + width)
          then u16 color
          else seen pixels)
  unfolding rect_rows
  seen_rows color left width zero py pixels room = ground arith
  seen_rows color left width (suc n) py pixels room = ground (
    arith,
    seen_rows color left width n (suc py) (rect_row stripe color py width left pixels),
    length-rect_row stripe color py width left pixels,
    seen_row color py width left pixels,
  )

  -- Cutting a rectangle to the panel and the stripe takes away no pixel that is in view.
  cut :
      (f : Fill)
      → let left = pos_part f.x in
        let right = min (pos_part (f.x +ℤ pos f.width)) 480 in
        let top = max f.y stripe in
        let bottom = min (min (f.y + f.height) (stripe + 24)) 320 in
        (leb top y && ltb y (top + (bottom - top)) && leb left x && ltb x (left + (right - left)))
        ≡ covers f x y
  cut f = ground (arith, h)

  pub seen-rect :
      (f : Fill) (pixels : Bytes)
      → Room stripe pixels
      → seen (rect stripe f pixels) ≡ (if covers f x y then u16 f.color else seen pixels)
  unfolding rect
  seen-rect f pixels room =
      seen_rows f.color (pos_part f.x) (min (pos_part (f.x +ℤ pos f.width)) 480 - pos_part f.x)
        (min (min (f.y + f.height) (stripe + 24)) 320 - max f.y stripe) (max f.y stripe) pixels room
      ∙ ap (λ b. if b then u16 f.color else seen pixels) (cut f)

  -- Drawing into the stripe paints the page's pixels that lie in it.
  pub seen-fill_all :
      (fs : List Fill) (pixels : Bytes)
      → Room stripe pixels
      → seen (fill_all stripe fs pixels) ≡ painted fs x y (seen pixels)
  unfolding fill_all painted
  seen-fill_all [] pixels room = refl
  seen-fill_all (f ∷ fs) pixels room =
      seen-fill_all fs (rect stripe f pixels)
        (subst (λ n. 24 * 480 * 2 ≤ n) (sym (length-rect stripe f pixels)) room)
      ∙ ap (painted fs x y) (seen-rect f pixels room)
