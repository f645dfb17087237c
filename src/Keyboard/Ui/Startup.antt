-- ===== src/Keyboard/Ui/Startup.antt =====
-- The start-up screen of PicoDeck-ED-Keyboard/src/ui.c: twelve rows at a time, drawn into the buffer of the
-- tiles.
use pico_deck_eddiscovery.Base.{
  ℕ, zero, suc, ◌+◌, ◌-◌, ◌*◌, Bool, true, false, ◌&&◌, List, [], ◌∷◌, ◌++◌, leb, ltb, ◌==◌,
  if◌then◌else◌, Option, none, some, length, replicate, Bytes, codes,
}
use pico_deck_eddiscovery.Base.Int.{ℤ, pos, sub_ℕ}
use pico_deck_eddiscovery.Base.Pixels.{View}
use pico_deck_eddiscovery.Base.Plots.{Plot, plot_all}
use pico_deck_eddiscovery.Keyboard.Board.{
  lcd_width, lcd_height, color_white, color_orange, color_green, color_mid_gray,
}
use pico_deck_eddiscovery.Keyboard.Ui.Tile.{text_from, half}
use pico_deck_eddiscovery.Keyboard.Ui.Screen.{Blit}

abbrev pub setup_stripe_height : ℕ
setup_stripe_height = 12

-- What `setup_pixel` writes where `setup_stripe_y` is `stripe`.
abbrev pub setup_view : ℕ → View
setup_view stripe = record {
  width = lcd_width;
  first = stripe;
  rows = setup_stripe_height;
  limit = lcd_height;
}

unfoldable pub setup_pixel : ℕ → List Plot → Bytes → Bytes
setup_pixel stripe ps pixels = plot_all (setup_view stripe) ps pixels

abbrev pub setup_text_width : Bytes → ℕ → ℕ
setup_text_width [] scale = 0
setup_text_width (c ∷ cs) scale = (length (c ∷ cs) * 6 - 1) * scale

-- A call of `setup_text`.
pub record Line : Type 0 where
  pub x : ℤ
  pub y : ℕ
  pub text : Bytes
  pub scale : ℕ
  pub color : ℕ

abbrev pub setup_text : ℕ → ℕ → Bytes → ℕ → ℕ → Line
setup_text x y text scale color = record {
  x = pos x;
  y = y;
  text = text;
  scale = scale;
  color = color;
}

abbrev pub setup_centered : ℕ → Bytes → ℕ → ℕ → Line
setup_centered y text scale color = record {
  x = half (sub_ℕ lcd_width (setup_text_width text scale));
  y = y;
  text = text;
  scale = scale;
  color = color;
}

-- `strcmp` with 0 as its result.
abbrev pub same_text : Bytes → Bytes → Bool
same_text [] [] = true
same_text (c ∷ cs) (d ∷ ds) = c == d && same_text cs ds
same_text _ _ = false

abbrev pub ready_color : Bool → ℕ
ready_color ready = if ready then color_green else color_orange

abbrev pub status_shown : Option Bytes → Bytes
status_shown none = codes "STARTING"
status_shown (some s) = s

abbrev pub status_color : Option Bytes → ℕ
status_color none = color_orange
status_color (some s) = ready_color (same_text s (codes "CONNECTED"))

-- The texts of the start-up screen, in the order of their calls.
abbrev pub startup_lines : Bool → Bool → Option Bytes → List Line
startup_lines keyboard_ready network_ready status =
    setup_centered 28 (codes "PICODECK ED KEYBOARD") 3 color_orange
    ∷ setup_centered 62 (codes "HID + USB NETWORK") 2 color_mid_gray
    ∷ setup_text 45 115 (codes "KEYBOARD") 2 color_mid_gray
    ∷ setup_text 275 115 (if keyboard_ready then codes "READY" else codes "WAITING") 2
        (ready_color keyboard_ready)
    ∷ setup_text 45 165 (codes "USB NETWORK") 2 color_mid_gray
    ∷ setup_text 275 165 (if network_ready then codes "192.168.8.1" else codes "WAITING") 2
        (ready_color network_ready)
    ∷ setup_text 45 215 (codes "WINDOWS") 2 color_mid_gray
    ∷ setup_text 275 215 (codes "192.168.8.2") 2 color_white
    ∷ setup_text 45 265 (codes "EDDISCOVERY") 2 color_mid_gray
    ∷ setup_text 275 265 (status_shown status) 2 (status_color status)
    ∷ []

unfoldable pub line_plots : List Line → List Plot
line_plots [] = []
line_plots (l ∷ ls) = text_from l.x l.y l.text l.scale l.color ++ line_plots ls

-- The bytes of `tile_buffer`.
abbrev pub tile_bytes : ℕ
tile_bytes = 12800

-- One round of the loop: the buffer is cleared first.
abbrev pub startup_stripe : List Plot → ℕ → Blit
startup_stripe ps stripe = record {
  x = 0;
  y = stripe;
  width = lcd_width;
  height =
      if ltb setup_stripe_height (lcd_height - stripe)
      then setup_stripe_height
      else lcd_height - stripe;
  pixels = setup_pixel stripe ps (replicate tile_bytes 0);
}

-- The loop, from row `stripe` on, for at most `n` rounds.
unfoldable pub startup_from : List Plot → ℕ → ℕ → List Blit
startup_from ps zero stripe = []
startup_from ps (suc n) stripe =
    let rest = startup_from ps n (stripe + setup_stripe_height) in
    if leb lcd_height stripe then [] else startup_stripe ps stripe ∷ rest

-- 27 rounds of twelve rows cover the 320 rows; one more finds the loop at its end.
abbrev pub startup_rounds : ℕ
startup_rounds = 28

unfoldable pub ui_render_startup : Bool → Bool → Option Bytes → List Blit
ui_render_startup keyboard_ready network_ready status =
    startup_from (line_plots (startup_lines keyboard_ready network_ready status)) startup_rounds 0
