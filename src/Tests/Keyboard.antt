-- ===== src/Tests/Keyboard.antt =====
-- Touches, messages and polls on which the theorems about the keyboard apply.
use pico_deck_eddiscovery.Base.{
  ℕ, ◌+◌, ◌≤◌, ◌<◌, ◌≡◌, ◌↔◌, refl, true, false, not, none, some, List, [], ◌∷◌, if◌then◌else◌,
  Bytes, codes, arith,
}
use pico_deck_eddiscovery.Keyboard.Buttons.{g_buttons, button_at}
use pico_deck_eddiscovery.Keyboard.EddButtons.{handle_json, edd_button_active}
use pico_deck_eddiscovery.Keyboard.Lit.{lit_by, same_bool}
use pico_deck_eddiscovery.Keyboard.Touch.{filtered, Reading}
use pico_deck_eddiscovery.Keyboard.Samples.{filtered_rejects_outlier}
use pico_deck_eddiscovery.Keyboard.Ui.{tile_x, tile_y}
use pico_deck_eddiscovery.Keyboard.Press.{
  Press, Poll, Effect, initial, ui_button_at, touched, stabilise, activate, bootsel, count_release,
  try_key_down, try_key_up, finish_press, give_up, held, hold, round,
}
use pico_deck_eddiscovery.Keyboard.Indicator.{Value, word, text, message_text}
use pico_deck_eddiscovery.Keyboard.Members.{is_about_indicators, lit_table, handle_json-members}
use pico_deck_eddiscovery.Keyboard.Hold.{Held, resets, reset-Held}
use pico_deck_eddiscovery.Keyboard.Keys.{
  rounds, host_sees, is_consistent, keys_alternate, three_polls_press,
}
use pico_deck_eddiscovery.Keyboard.Tiles.{ui_button_at_tile}
use pico_deck_eddiscovery.Keyboard.Main.{render_one_dirty_button}
use pico_deck_eddiscovery.Keyboard.Redraw.{lowest_from, Drawn, render_one_dirty_button_lem}
use Effect.{render_pressed, key_down}

abbrev samples : List ℕ
samples = 2000 ∷ 2003 ∷ 4095 ∷ 1998 ∷ 2001 ∷ []

filtered_rejects_outlier_example : (1990 ≤ filtered samples) × (filtered samples ≤ 2010)
filtered_rejects_outlier_example =
    filtered_rejects_outlier 1990 2010 samples refl (omega arith) (omega arith)

ui_button_at_tile_example :
    (ui_button_at 100 200 ≡ some 13)
    ↔ ((tile_x 13 ≤ 100) × (100 < tile_x 13 + 80) × (tile_y 13 ≤ 200) × (200 < tile_y 13 + 80))
ui_button_at_tile_example = ui_button_at_tile 100 200 13 (omega arith)

abbrev reading : Reading
reading = record {
  line_before = false;
  x1 = samples;
  y1 = samples;
  x2 = samples;
  y2 = samples;
  line_after = false;
}

abbrev point : ℕ × ℕ
point = (228, 163)

abbrev message : Bytes
message = codes "{\"responsetype\":\"indicator\",\"Lights\":true}"

-- The panel that has the focus is called like a flag.
abbrev said : List (Bytes × Value)
said =
    (codes "responsetype", text (codes "indicator"))
    ∷ (codes "GUIFocus", text (codes "Lights"))
    ∷ (codes "Lights", word (codes "true"))
    ∷ []

handle_json-members_example :
    (edd_button_active (handle_json (message_text said) 1).1 3
      ≡ (if is_about_indicators said then lit_by (lit_table said) 3 else edd_button_active 1 3))
    × (edd_button_active (handle_json (message_text said) 1).0 3
        ≡ not (
            same_bool
              (edd_button_active (handle_json (message_text said) 1).1 3)
              (edd_button_active 1 3)))
handle_json-members_example = handle_json-members said refl 1 3 (omega arith)

abbrev poll : ℕ → Poll
poll now = record { touch = some (90, 10); now_us = now; hid_accepts = true }

abbrev release : ℕ → Poll
release now = record { touch = none; now_us = now; hid_accepts = true }

abbrev a_press : List Poll
a_press =
    poll 1 ∷ poll 2 ∷ poll 3 ∷ release 70000 ∷ release 70010 ∷ release 70020 ∷ release 70030 ∷ []

keys_alternate_example :
    (host_sees (rounds a_press initial).1 (some false)
      ≡ some (rounds a_press initial).0.key_is_down)
    × (is_consistent (rounds a_press initial).0 ≡ true)
keys_alternate_example = keys_alternate a_press

-- SYSTEM MAP, touched from 1 on and still after six seconds.
abbrev corner : ℕ → Poll
corner now = record { touch = some (450, 300); now_us = now; hid_accepts = true }

held_long :
    resets (round (corner 6000003) (rounds (corner 1 ∷ corner 2 ∷ corner 3 ∷ []) initial).0).1
    ≡ true
unfolding round stabilise activate touched ui_button_at bootsel hold held count_release try_key_down
    try_key_up finish_press give_up
held_long = refl

reset-Held_example :
    (touched (some (450, 300)) ≡ some 23)
    × ((d : ℕ) × (d ≤ 6000003) × Held (corner 1 ∷ corner 2 ∷ corner 3 ∷ []) d)
reset-Held_example = reset-Held (corner 1 ∷ corner 2 ∷ corner 3 ∷ []) (corner 6000003) held_long

on_second : touched (some (90, 10)) ≡ some 1
unfolding touched ui_button_at
on_second = refl

-- The finger has come from the fourth button.
abbrev on_another : Press
on_another = record initial { candidate_button = some 4; candidate_count = 2 }

three_polls_press_example :
    ((rounds (poll 1 ∷ poll 2 ∷ []) on_another).1 ≡ [])
    × ((rounds (poll 1 ∷ poll 2 ∷ poll 3 ∷ []) on_another).1
        ≡ render_pressed 1 ∷ key_down (button_at 1 g_buttons).hid_usage ∷ [])
three_polls_press_example =
    three_polls_press (poll 1) (poll 2) (poll 3) 1 on_another refl refl on_second on_second
      on_second refl

render_one_dirty_button_lem_example :
    Drawn 4 20 (some 2) (lowest_from 20 24 0) (render_one_dirty_button 4 20 (some 2))
render_one_dirty_button_lem_example = render_one_dirty_button_lem 4 20 (some 2)
