-- ===== src/Tests/Display.antt =====
-- A state, a journal message with its tokens, and inputs on which the theorems about the display apply.
use pico_deck_eddiscovery.Base.{
  ◌+◌, ℕ, ◌-◌, ◌≤◌, ◌≡◌, ◌⊎◌, refl, Bool, true, false, none, some, List, [], ◌∷◌, length, Bytes,
  codes, arith,
}
use pico_deck_eddiscovery.Base.Int.{negsuc, pos, ◌≤ℤ◌}
use pico_deck_eddiscovery.Base.Bits.{sub64}
use pico_deck_eddiscovery.Base.Text.{before}
use pico_deck_eddiscovery.WebSocket.Types.{ws_open}
use pico_deck_eddiscovery.Display.Edd.Tokens.{
  TokenType, jsmn_object, jsmn_array, jsmn_string, Token,
}
use pico_deck_eddiscovery.Display.Edd.State.{EddState, edd_state_init}
use pico_deck_eddiscovery.Display.Edd.Route.{is_set}
use pico_deck_eddiscovery.Display.Edd.Journal.{journal_rows, parse_journal_route}
use pico_deck_eddiscovery.Display.Edd.Messages.{edd_state_handle_json}
use pico_deck_eddiscovery.Display.Edd.Bounds.{TextsFit}
use pico_deck_eddiscovery.Display.Edd.Fuel.{journal_rows_fuel}
use pico_deck_eddiscovery.Display.Edd.Handled.{handle_json-TextsFit}
use pico_deck_eddiscovery.Display.Edd.Counters.{handle_json-generation}
use pico_deck_eddiscovery.Display.Edd.RouteTime.{
  handle_all, route_time_monotone, parse_journal_route_no_raise,
}
use pico_deck_eddiscovery.Display.Input.{debounced_input_init, debounced_input_pressed}
use pico_deck_eddiscovery.Display.Debounce.{sampled, last_run, presses, press_is_stable, press_once}
use pico_deck_eddiscovery.Display.Dashboard.{
  Dashboard, text_width, scroll_offset, dashboard_request_redraw,
}
use pico_deck_eddiscovery.Display.Stripes.{calls}
use pico_deck_eddiscovery.Display.Redraw.{drawn_to, rounds, full_redraw}
use pico_deck_eddiscovery.Display.Scroll.{half_cycle, scroll_offset_swings}

abbrev token : TokenType → ℕ → ℕ → Token
token type start end = record { type = type; start = start; end = end }

abbrev route : Bytes
route =
    codes
      "{\"responsetype\":\"journalpush\",\"rows\":[[\"Journal.FSDJump\",\"2024-01-02T00:00:00Z\",\"\",\"x\"],[\"Journal.NavRoute\",\"2024-01-01T00:00:00Z\",\"\",\"2 jumps: Sol, Lave\"]]}"

abbrev route_tokens : List Token
route_tokens =
    token jsmn_object 0 157
    ∷ token jsmn_string 2 14
    ∷ token jsmn_string 17 28
    ∷ token jsmn_string 31 35
    ∷ token jsmn_array 37 156
    ∷ token jsmn_array 38 87
    ∷ token jsmn_string 40 55
    ∷ token jsmn_string 58 78
    ∷ token jsmn_string 81 81
    ∷ token jsmn_string 84 85
    ∷ token jsmn_array 88 155
    ∷ token jsmn_string 90 106
    ∷ token jsmn_string 109 129
    ∷ token jsmn_string 132 132
    ∷ token jsmn_string 135 153
    ∷ []

abbrev jsmn : Bytes → List Token
jsmn json = route_tokens

abbrev shown : EddState
shown = record edd_state_init {
  remaining_jumps = pos 3;
  route_event_time = codes "2023-12-31T00:00:00Z";
}

journal_rows_fuel_example :
    journal_rows (false, shown) route route_tokens (length route) 14 4 0 shown
    ≡ journal_rows (true, edd_state_init) route route_tokens (length route) 20 4 0 shown
journal_rows_fuel_example =
    journal_rows_fuel (false, shown) (true, edd_state_init) route route_tokens (length route) 14 20
      4 0 shown (omega arith) (omega arith)

route_time_monotone_example :
    before
      (handle_all jsmn (route ∷ route ∷ []) shown).route_event_time
      (codes "2023-12-31T00:00:00Z")
    ≡ false
route_time_monotone_example = route_time_monotone jsmn (route ∷ route ∷ []) shown

parse_journal_route_no_raise_example :
    (is_set shown.route_event_time ≡ false)
    ⊎ (before shown.route_event_time
          (parse_journal_route route route_tokens shown).1.route_event_time
        ≡ true)
    ⊎ ((parse_journal_route route route_tokens shown).1.remaining_jumps ≤ℤ pos 3)
    ⊎ (((parse_journal_route route route_tokens shown).1.remaining_jumps ≡ negsuc 0)
        × ((parse_journal_route route route_tokens shown).1.route_target ≡ [])
        × ((parse_journal_route route route_tokens shown).1.next_system ≡ []))
parse_journal_route_no_raise_example = parse_journal_route_no_raise route route_tokens shown

initial-TextsFit : TextsFit edd_state_init
initial-TextsFit = ground arith

handle_json-TextsFit_example : TextsFit (edd_state_handle_json jsmn route edd_state_init).1
handle_json-TextsFit_example = handle_json-TextsFit jsmn route edd_state_init initial-TextsFit

handle_json-generation_example :
    (edd_state_handle_json jsmn route edd_state_init
      ≡ (false, record edd_state_init { messages_received = 1 }))
    ⊎ (((edd_state_handle_json jsmn route edd_state_init).0 ≡ true)
        × ((edd_state_handle_json jsmn route edd_state_init).1.generation ≡ 1)
        × ((edd_state_handle_json jsmn route edd_state_init).1.messages_received ≡ 1))
handle_json-generation_example = handle_json-generation jsmn route edd_state_init

-- A press that bounces once: low at 10, high at 20, low from 30 on.
abbrev bounce : List (Bool × ℕ)
bounce = (false, 10) ∷ (true, 20) ∷ (false, 30) ∷ (false, 50) ∷ []

bounced : (debounced_input_pressed false 65 (sampled bounce (debounced_input_init true 0))).0 ≡ true
unfolding debounced_input_init debounced_input_pressed
bounced = refl

press_is_stable_example :
    (false ≡ false)
    × ((last_run bounce true 0).0 ≡ false)
    × (35 ≤ sub64 65 (last_run bounce true 0).1)
press_is_stable_example = press_is_stable bounce false 0 65 true bounced

press_once_example :
    presses
      ((false, 70) ∷ (false, 200) ∷ [])
      (debounced_input_pressed false 65 (sampled bounce (debounced_input_init true 0))).1
    ≡ false
press_once_example =
    press_once false 65 (sampled bounce (debounced_input_init true 0))
      ((false, 70) ∷ (false, 200) ∷ []) bounced refl

abbrev pub blank : Dashboard
blank = record {
  stripe_y = some 0;
  page = 0;
  generation = 0;
  usb_network = true;
  websocket = ws_open;
  last_usb = true;
  last_websocket = 3;
  render_ms = 0;
  next_scroll_redraw_ms = 0;
}

abbrev pub times : List ℕ
times = 2 ∷ 3 ∷ 4 ∷ 5 ∷ 6 ∷ 7 ∷ 8 ∷ 9 ∷ 10 ∷ 11 ∷ 12 ∷ 13 ∷ 14 ∷ []

full_redraw_example :
    (drawn_to 0 (calls (rounds edd_state_init (1 ∷ times)) (dashboard_request_redraw 0 blank)).1
      ≡ 320)
    × ((calls (rounds edd_state_init (1 ∷ times)) (dashboard_request_redraw 0 blank)).0.stripe_y
        ≡ none)
full_redraw_example = full_redraw edd_state_init 0 1 times blank refl refl

abbrev name : Bytes
name = codes "SHINRARTA DEZHRA"

scroll_offset_swings_example :
    (scroll_offset name 3 200 0 ≡ 0)
    × (scroll_offset name 3 200 2000 + scroll_offset name 3 200 (2000 + half_cycle name 3 200)
        ≡ text_width name 3 - 200)
    × (scroll_offset name 3 200 2001 ≤ scroll_offset name 3 200 2000 + 1)
    × (scroll_offset name 3 200 2000 ≤ scroll_offset name 3 200 2001 + 1)
scroll_offset_swings_example = scroll_offset_swings name 3 200 2000
