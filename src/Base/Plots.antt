-- ===== src/Base/Plots.antt =====
-- Calls that each write one pixel of a buffer, in the order in which they are made: what ui.c of the
-- keyboard draws with. A column may be negative, where a text is wider than its place.
use Prim.Native.Nat.{ℕ, ◌*◌, ◌≤◌}
use mathlib.Core.Path.{◌≡◌, refl, ap, ◌∙◌, sym, subst}
use mathlib.Core.Bool.{Bool, true, ◌&&◌}
use mathlib.Core.List.{List, [], ◌∷◌, ◌++◌}
use native.Mathlib.Omega.{arith}
use pico_deck_eddiscovery.Base.Tests.{◌==◌, if◌then◌else◌}
use pico_deck_eddiscovery.Base.Lists.{length, Bytes}
use pico_deck_eddiscovery.Base.Int.{ℤ, pos, negsuc, eqb_ℤ}
use pico_deck_eddiscovery.Base.Bits.{u16}
use pico_deck_eddiscovery.Base.Pixels.{
  View, in_view, index, HasRoom, plot, length-plot, color_at, color_at-plot,
}

pub record Plot : Type 0 where
  pub x : ℤ
  pub y : ℕ
  pub color : ℕ

unfoldable pub plot_at : View → ℤ → ℕ → ℕ → Bytes → Bytes
plot_at v (pos x) y color pixels = plot v x y color pixels
plot_at v (negsuc n) y color pixels = pixels

unfoldable pub plot_all : View → List Plot → Bytes → Bytes
plot_all v [] pixels = pixels
plot_all v (p ∷ ps) pixels = plot_all v ps (plot_at v p.x p.y p.color pixels)

abbrev pub meets : Plot → ℕ → ℕ → Bool
meets p x y = eqb_ℤ p.x (pos x) && p.y == y

-- The color of the pixel (x, y) when each call has painted over those before it.
unfoldable pub colored : List Plot → ℕ → ℕ → ℕ → ℕ
colored [] x y color = color
colored (p ∷ ps) x y color = colored ps x y (if meets p x y then u16 p.color else color)

pub colored-append :
    (ps qs : List Plot) (x y color : ℕ)
    → colored (ps ++ qs) x y color ≡ colored qs x y (colored ps x y color)
unfolding colored
colored-append [] qs x y color = refl
colored-append (p ∷ ps) qs x y color =
    colored-append ps qs x y (if meets p x y then u16 p.color else color)

length-plot_at :
    (v : View) (z : ℤ) (y color : ℕ) (pixels : Bytes)
    → length (plot_at v z y color pixels) ≡ length pixels
unfolding plot_at
length-plot_at v (pos x) y color pixels = length-plot v x y color pixels
length-plot_at v (negsuc n) y color pixels = refl

pub length-plot_all :
    (v : View) (ps : List Plot) (pixels : Bytes) → length (plot_all v ps pixels) ≡ length pixels
unfolding plot_all
length-plot_all v [] pixels = refl
length-plot_all v (p ∷ ps) pixels =
    length-plot_all v ps (plot_at v p.x p.y p.color pixels)
    ∙ length-plot_at v p.x p.y p.color pixels

color_at-plot_at :
    (v : View) (p : Plot) (z : ℤ) (x y : ℕ) (pixels : Bytes)
    → z ≡ p.x
    → HasRoom v pixels
    → in_view v x y ≡ true
    → color_at (index v x y) (plot_at v z p.y p.color pixels)
      ≡ (if eqb_ℤ z (pos x) && p.y == y then u16 p.color else color_at (index v x y) pixels)
unfolding plot_at
color_at-plot_at v p (pos x') x y pixels e room h =
    color_at-plot v x' p.y p.color x y pixels room h ∙ ground arith
color_at-plot_at v p (negsuc n) x y pixels e room h = ground arith

-- What the buffer shows of a pixel in view.
pub color_at-plot_all :
    (v : View) (ps : List Plot) (x y : ℕ) (pixels : Bytes)
    → HasRoom v pixels
    → in_view v x y ≡ true
    → color_at (index v x y) (plot_all v ps pixels) ≡ colored ps x y (color_at (index v x y) pixels)
unfolding plot_all colored
color_at-plot_all v [] x y pixels room h = refl
color_at-plot_all v (p ∷ ps) x y pixels room h =
    color_at-plot_all v ps x y (plot_at v p.x p.y p.color pixels)
      (subst (λ n. v.rows * v.width * 2 ≤ n) (sym (length-plot_at v p.x p.y p.color pixels)) room) h
    ∙ ap (colored ps x y) (color_at-plot_at v p p.x x y pixels refl room h)
