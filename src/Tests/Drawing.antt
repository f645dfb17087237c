-- ===== src/Tests/Drawing.antt =====
-- Points and pages at which the theorems about what the panels show apply.
use pico_deck_eddiscovery.Base.{
  ℕ, ◌≡◌, refl, Bool, true, false, some, [], ◌∷◌, ◌==◌, if◌then◌else◌, Bytes, codes, arith,
}
use pico_deck_eddiscovery.Display.Edd.State.{edd_state_init}
use pico_deck_eddiscovery.Display.Dashboard.{dashboard_request_redraw}
use pico_deck_eddiscovery.Display.Pages.{Screen}
use pico_deck_eddiscovery.Display.Picture.{painted}
use pico_deck_eddiscovery.Display.Frame.{page_fills, draw_rounds, frame_shows}
use pico_deck_eddiscovery.Keyboard.Ui.Screen.{ui_render_button, ui_render_all, after_blits}
use pico_deck_eddiscovery.Keyboard.Ui.Startup.{startup_lines, ui_render_startup}
use pico_deck_eddiscovery.Keyboard.Ui.Shows.{
  tile_at, button_color, ui_render_button_shows, ui_render_all_shows,
}
use pico_deck_eddiscovery.Keyboard.Ui.Begun.{written, ui_render_startup_shows}
use pico_deck_eddiscovery.Tests.Display.{blank, times}

abbrev screen : Screen
screen = record {
  edd = edd_state_init;
  dashboard = blank;
  device_ip = codes "192.168.7.1";
  host_ip = codes "192.168.7.2";
  state_name = codes "CONNECTED";
}

abbrev begun : Screen
begun = record screen { dashboard = dashboard_request_redraw 0 blank }

abbrev white : ℕ → ℕ → ℕ
white x y = 65535

frame_shows_example :
    (draw_rounds (1 ∷ times) (begun, white)).1 15 250 ≡ painted (page_fills begun) 15 250 0
frame_shows_example =
    frame_shows screen 0 1 15 250 times white refl refl (omega arith) (omega arith)

-- The same picture for every button: every pixel of the icon is half covered.
abbrev icons : ℕ → Bool → Bytes
icons index active = 170 ∷ 170 ∷ 170 ∷ []

ui_render_button_shows_example :
    after_blits (ui_render_button icons 8 true) white 200 100
    ≡ (if tile_at 200 100 == 8 then button_color icons true 200 100 else 65535)
ui_render_button_shows_example =
    ui_render_button_shows 200 100 (omega arith) (omega arith) icons true 8 white (omega arith)

ui_render_all_shows_example :
    after_blits (ui_render_all icons) white 479 319 ≡ button_color icons false 479 319
ui_render_all_shows_example = ui_render_all_shows 479 319 (omega arith) (omega arith) icons white

ui_render_startup_shows_example :
    after_blits (ui_render_startup true false (some (codes "CONNECTED"))) white 280 270
    ≡ written (startup_lines true false (some (codes "CONNECTED"))) 280 270 0
ui_render_startup_shows_example =
    ui_render_startup_shows true false (some (codes "CONNECTED")) white 280 270 (omega arith)
      (omega arith)
