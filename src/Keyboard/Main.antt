-- ===== src/Keyboard/Main.antt =====
-- The rest of the main loop of PicoDeck-ED-Keyboard/src/main.c: the start-up screen, and the redraw of
-- one dirty button in each round.
use pico_deck_eddiscovery.Base.{
  ℕ, zero, suc, ◌-◌, ◌^◌, bit_and, Bool, true, false, not, ◌&&◌, ◌||◌, Option, none, some, leb,
  ◌==◌, ◌!=◌, if◌then◌else◌,
}
use pico_deck_eddiscovery.Base.Bits.{sub64}
use pico_deck_eddiscovery.WebSocket.Types.{
  WsState, ws_offline, ws_connecting, ws_handshake, ws_open, ws_error,
}
use pico_deck_eddiscovery.WebSocket.Receive.{is_open}
use pico_deck_eddiscovery.Keyboard.Buttons.{g_button_count}
use pico_deck_eddiscovery.Keyboard.EddButtons.{edd_button_active}

-- `s_dirty_buttons &= ~bit` at a bit that is set.
abbrev pub clear_bit : ℕ → ℕ → ℕ
clear_bit dirty bit = dirty - 2 ^ bit

-- The loop of `render_one_dirty_button` from index `i`, with `n` indices left: the button drawn, whether
-- it is drawn lit, and the dirty buttons left.
unfoldable pub render_from : ℕ → ℕ → ℕ → ℕ → Option ℕ → Option (ℕ × Bool) × ℕ
render_from active_mask dirty zero i touched_button = (none, dirty)
render_from active_mask dirty (suc n) i touched_button =
    let rest = render_from active_mask dirty n (suc i) touched_button in
    if bit_and dirty (2 ^ i) == 0 then rest else (
      some (
        i,
        edd_button_active active_mask i || elim touched_button [ none ↦ false | some b ↦ b == i ],
      ),
      clear_bit dirty i,
    )

unfoldable pub render_one_dirty_button : ℕ → ℕ → Option ℕ → Option (ℕ × Bool) × ℕ
render_one_dirty_button active_mask dirty touched_button =
    if dirty == 0
    then (none, dirty)
    else render_from active_mask dirty g_button_count 0 touched_button

abbrev pub startup_max_time_ms : ℕ
startup_max_time_ms = 15000

abbrev pub connected_hold_time_ms : ℕ
connected_hold_time_ms = 800

-- The variables of the start-up screen. `last_websocket` is `none` for the value 99.
pub record Startup : Type 0 where
  pub keyboard_visible : Bool
  pub startup_at : ℕ
  pub connected_at : ℕ
  pub last_hid_ready : Bool
  pub last_network_ready : Bool
  pub last_websocket : Option WsState

abbrev ws_code : WsState → ℕ
ws_code ws_offline = 0
ws_code ws_connecting = 1
ws_code ws_handshake = 2
ws_code ws_open = 3
ws_code ws_error = 4

abbrev last_code : Option WsState → ℕ
last_code none = 99
last_code (some s) = ws_code s

abbrev differs : Bool → Bool → Bool
differs true b = not b
differs false b = b

-- The block `if (!keyboard_visible)`: the new variables, and whether the start-up screen is drawn.
-- `render_keyboard` runs where `keyboard_visible` turns true.
unfoldable pub startup_round : Bool → Bool → WsState → ℕ → Startup → Startup × Bool
startup_round hid_ready network_ready websocket now s =
    let changed =
      differs hid_ready s.last_hid_ready
      || differs network_ready s.last_network_ready
      || ws_code websocket != last_code s.last_websocket in
    let since =
      if hid_ready && is_open websocket
      then (if s.connected_at == 0 then now else s.connected_at)
      else 0 in
    if s.keyboard_visible then (s, false) else (
      record s {
        last_hid_ready = if changed then hid_ready else s.last_hid_ready;
        last_network_ready = if changed then network_ready else s.last_network_ready;
        last_websocket = if changed then some websocket else s.last_websocket;
        connected_at = since;
        keyboard_visible =
            (since != 0 && leb connected_hold_time_ms (sub64 now since))
            || leb startup_max_time_ms (sub64 now s.startup_at);
      },
      changed,
    )
