-- ===== src/Keyboard/Ui/Begun.antt =====
-- What the panel shows after `ui_render_startup` of PicoDeck-ED-Keyboard/src/ui.c.
use pico_deck_eddiscovery.Base.{
  ℕ, zero, suc, ◌+◌, ◌-◌, ◌*◌, ◌/◌, ◌≤◌, ◌<◌, ◌≡◌, refl, ap, ◌∙◌, sym, subst, Bool, true, ◌&&◌,
  List, [], ◌∷◌, leb, ltb, if◌then◌else◌, Option, Bool-cases, inl, inr, replicate, length-replicate,
  Bytes, arith,
}
use pico_deck_eddiscovery.Base.Int.{ℤ, pos, negsuc, pos_part, leb_ℤ}
use pico_deck_eddiscovery.Base.Bits.{u16}
use pico_deck_eddiscovery.Base.Pixels.{color_at, color_at-replicate, in_view, HasRoom}
use pico_deck_eddiscovery.Base.Plots.{Plot, colored, colored-append, color_at-plot_all}
use pico_deck_eddiscovery.Keyboard.Ui.Tile.{text_from}
use pico_deck_eddiscovery.Keyboard.Ui.Ink.{inked, seen_text}
use pico_deck_eddiscovery.Keyboard.Ui.Screen.{after_blit, after_blits}
use pico_deck_eddiscovery.Keyboard.Ui.Startup.{
  setup_view, setup_pixel, Line, startup_lines, line_plots, startup_stripe, startup_from,
  tile_bytes, ui_render_startup,
}

-- A line of text colors the pixel.
abbrev pub line_lit : Line → ℕ → ℕ → Bool
line_lit l x y =
    leb (pos_part l.x) x
    && leb l.y y
    && inked l.text ((x - pos_part l.x) / l.scale) ((y - l.y) / l.scale)

-- The color of a pixel behind these lines, each over those before it.
abbrev pub written : List Line → ℕ → ℕ → ℕ → ℕ
written [] x y color = color
written (l ∷ ls) x y color = written ls x y (if line_lit l x y then u16 l.color else color)

-- The lines start on the panel, and have a scale.
abbrev all_on_panel : List Line → Bool
all_on_panel [] = true
all_on_panel (l ∷ ls) = leb_ℤ (pos 0) l.x && ltb 0 l.scale && all_on_panel ls

is_pos : (z : ℤ) → leb_ℤ (pos 0) z ≡ true → z ≡ pos (pos_part z)
is_pos (pos n) h = refl
is_pos (negsuc n) h = absurd (ground (arith, h))

seen_lines :
    (ls : List Line) (x y color : ℕ)
    → all_on_panel ls ≡ true
    → colored (line_plots ls) x y color ≡ written ls x y color
unfolding line_plots colored
seen_lines [] x y color h = refl
seen_lines (l ∷ ls) x y color h =
    colored-append (text_from l.x l.y l.text l.scale l.color) (line_plots ls) x y color
    ∙ ap (λ c. colored (line_plots ls) x y c)
        (ap (λ z. colored (text_from z l.y l.text l.scale l.color) x y color)
            (is_pos l.x (ground (arith, h)))
          ∙ seen_text (pos_part l.x) l.y l.text l.scale l.color x y color (ground (arith, h)))
    ∙ seen_lines ls x y (if line_lit l x y then u16 l.color else color) (ground (arith, h))

seen_stripe :
    (ps : List Plot) (stripe x y : ℕ)
    → x < 480
    → stripe ≤ y
    → y < stripe + 12
    → y < 320
    → color_at ((y - stripe) * 480 + x) (setup_pixel stripe ps (replicate tile_bytes 0))
      ≡ colored ps x y 0
unfolding setup_pixel
seen_stripe ps stripe x y a b c e =
    color_at-plot_all (setup_view stripe) ps x y (replicate tile_bytes 0) room seen
    ∙ ap (colored ps x y) (color_at-replicate tile_bytes ((y - stripe) * 480 + x))
  where
    seen : in_view (setup_view stripe) x y ≡ true
    seen = ground arith

    room : HasRoom (setup_view stripe) (replicate tile_bytes 0)
    room = subst (λ n. 11520 ≤ n) (sym (length-replicate {A = ℕ} tile_bytes 0)) (omega arith)

stripe_shows :
    (ps : List Plot) (stripe x y : ℕ) (panel : ℕ → ℕ → ℕ)
    → x < 480
    → y < 320
    → stripe < 320
    → after_blit (startup_stripe ps stripe) panel x y
      ≡ (if leb stripe y && ltb y (stripe + 12) then colored ps x y 0 else panel x y)
unfolding after_blit
stripe_shows ps stripe x y panel a b c = ground (arith, seen_stripe ps stripe x y)

stripes_show :
    (ps : List Plot) (n stripe x y : ℕ) (panel : ℕ → ℕ → ℕ)
    → x < 480
    → y < 320
    → 320 ≤ stripe + n * 12
    → after_blits (startup_from ps n stripe) panel x y
      ≡ (if leb stripe y then colored ps x y 0 else panel x y)
unfolding startup_from
stripes_show ps zero stripe x y panel a b h = ground arith
stripes_show ps (suc n) stripe x y panel a b h = elim (Bool-cases (leb 320 stripe)) [
  | inl e ↦ rw e (ground (arith, e))
  | inr e ↦ rw e (
      stripes_show ps n (stripe + 12) x y (after_blit (startup_stripe ps stripe) panel) a b
        (omega (arith, h))
      ∙ ground (arith, e, stripe_shows ps stripe x y panel))
]

-- The start-up screen covers the panel: every pixel has the color of the last of its lines of text that
-- is there, or black, whatever the panel showed before.
pub ui_render_startup_shows :
    (keyboard_ready network_ready : Bool) (status : Option Bytes) (panel : ℕ → ℕ → ℕ) (x y : ℕ)
    → x < 480
    → y < 320
    → after_blits (ui_render_startup keyboard_ready network_ready status) panel x y
      ≡ written (startup_lines keyboard_ready network_ready status) x y 0
unfolding ui_render_startup
ui_render_startup_shows keyboard_ready network_ready status panel x y a b =
    stripes_show (line_plots (startup_lines keyboard_ready network_ready status)) 28 0 x y panel a b
      (omega arith)
    ∙ ground arith
    ∙ seen_lines (startup_lines keyboard_ready network_ready status) x y 0 refl
