-- ===== src/Display/Dashboard.antt =====
-- PicoDeck-ED-Display/src/dashboard.c: the pages, the stripe that is drawn in each round, and the texts
-- that scroll.
use pico_deck_eddiscovery.Base.{
  ℕ, ◌+◌, ◌-◌, ◌*◌, ◌/◌, ◌%◌, Bool, false, not, ◌&&◌, ◌||◌, Option, none, some, [], ◌∷◌, ltb, leb,
  ◌==◌, ◌!=◌, if◌then◌else◌, length, Bytes, codes,
}
use pico_deck_eddiscovery.Base.Bits.{u64}
use pico_deck_eddiscovery.WebSocket.Types.{
  WsState, ws_offline, ws_connecting, ws_handshake, ws_open, ws_error,
}
use pico_deck_eddiscovery.WebSocket.Receive.{is_open}
use pico_deck_eddiscovery.Display.Edd.State.{EddState}
use pico_deck_eddiscovery.Display.Input.{differs}

abbrev pub lcd_width : ℕ
lcd_width = 480

abbrev pub lcd_height : ℕ
lcd_height = 320

abbrev pub stripe_height : ℕ
stripe_height = 24

abbrev pub page_count : ℕ
page_count = 4

abbrev pub scroll_redraw_ms : ℕ
scroll_redraw_ms = 250

abbrev pub scroll_hold_ms : ℕ
scroll_hold_ms = 900

abbrev pub scroll_pixel_ms : ℕ
scroll_pixel_ms = 35

-- The static variables. `stripe_y` is `none` for -1, `last_websocket` is 99 before the first round.
pub record Dashboard : Type 0 where
  pub stripe_y : Option ℕ
  pub page : ℕ
  pub generation : ℕ
  pub usb_network : Bool
  pub websocket : WsState
  pub last_usb : Bool
  pub last_websocket : ℕ
  pub render_ms : ℕ
  pub next_scroll_redraw_ms : ℕ

abbrev pub ws_code : WsState → ℕ
ws_code ws_offline = 0
ws_code ws_connecting = 1
ws_code ws_handshake = 2
ws_code ws_open = 3
ws_code ws_error = 4

unfoldable pub text_width : Bytes → ℕ → ℕ
text_width [] scale = 0
text_width (c ∷ cs) scale = (length (c ∷ cs) * 6 - 1) * scale

unfoldable pub value_or_dash : Bytes → Bytes
value_or_dash [] = codes "-"
value_or_dash (c ∷ cs) = c ∷ cs

-- `scroll_offset` from the overflow on: out, hold, back, hold.
unfoldable pub scroll_phase : ℕ → ℕ → ℕ
scroll_phase overflow render_ms =
    let travel = overflow * scroll_pixel_ms in
    let phase = render_ms % (2 * (scroll_hold_ms + travel)) in
    if ltb phase scroll_hold_ms
    then 0
    else if ltb (phase - scroll_hold_ms) travel
    then (phase - scroll_hold_ms) / scroll_pixel_ms
    else if ltb (phase - scroll_hold_ms - travel) scroll_hold_ms
    then overflow
    else overflow - (phase - scroll_hold_ms - travel - scroll_hold_ms) / scroll_pixel_ms

unfoldable pub scroll_offset : Bytes → ℕ → ℕ → ℕ → ℕ
scroll_offset text scale width render_ms =
    if leb (text_width text scale) width
    then 0
    else scroll_phase (text_width text scale - width) render_ms

-- The status in the header.
unfoldable pub header_status : Bool → WsState → Bytes
header_status usb websocket =
    if not usb
    then codes "USB OFF"
    else if is_open websocket
    then codes "ONLINE"
    else codes "RECONNECT"

-- The page that `render_stripe` draws.
pub data Page : Type 0 where
  setup route ship system info : Page

unfoldable pub page_drawn : Dashboard → Page
page_drawn d =
    if not d.usb_network
    then setup
    else if d.page == 0
    then route
    else if d.page == 1
    then ship
    else if d.page == 2
    then system
    else info

unfoldable pub too_wide : Bytes → ℕ → ℕ → Bool
too_wide value scale width = ltb width (text_width (value_or_dash value) scale)

unfoldable pub page_needs_scroll : EddState → Dashboard → Bool
page_needs_scroll s d =
    if not d.usb_network
    then false
    else if d.page == 0
    then too_wide s.route_target 3 452 || too_wide s.system 2 210 || too_wide s.next_system 2 216
    else if d.page == 1
    then (too_wide s.ship 3 456
        || too_wide s.fuel 2 140
        || too_wide s.tank_size 2 130
        || too_wide s.jump_range 2 136
        || too_wide s.cargo 2 140
        || too_wide s.mode 2 130
        || too_wide s.legal_state 2 136)
    else if d.page == 2
    then (too_wide s.system 4 460
        || too_wide s.body 2 210
        || too_wide s.station 2 216
        || too_wide s.allegiance 2 210
        || too_wide s.economy 2 216
        || too_wide s.security 2 210
        || too_wide s.sol_dist 2 216)
    else (too_wide s.commander 3 446
        || too_wide s.game_mode 2 210
        || too_wide s.mode 2 216
        || too_wide s.credits 2 210
        || too_wide s.sol_dist 2 216
        || too_wide s.system 2 446)

unfoldable pub dashboard_init : EddState → Dashboard → Dashboard
dashboard_init s d = record d {
  stripe_y = some 0;
  generation = s.generation;
  websocket = ws_offline;
  last_websocket = 99;
}

unfoldable pub dashboard_set_connection : Bool → WsState → Dashboard → Dashboard
dashboard_set_connection usb websocket d = record d { usb_network = usb; websocket = websocket }

-- The clock is in milliseconds, and does not move within a call.
unfoldable pub dashboard_request_redraw : ℕ → Dashboard → Dashboard
dashboard_request_redraw now d = record d { stripe_y = some 0; render_ms = now }

unfoldable pub dashboard_next_page : ℕ → Dashboard → Dashboard
dashboard_next_page now d =
    dashboard_request_redraw now (record d { page = (d.page + 1) % page_count })

-- The two `if`s that start a redraw.
unfoldable pub refresh : EddState → ℕ → Dashboard → Dashboard
refresh s now d =
    if s.generation != d.generation
      || differs d.usb_network d.last_usb
      || ws_code d.websocket != d.last_websocket
    then dashboard_request_redraw now (record d {
      generation = s.generation;
      last_usb = d.usb_network;
      last_websocket = ws_code d.websocket;
    })
    else d

-- While a stripe is pending, nothing starts again.
unfoldable pub scroll_again : Option ℕ → EddState → ℕ → Dashboard → Dashboard
scroll_again (some y) s now d = d
scroll_again none s now d =
    if page_needs_scroll s d && leb d.next_scroll_redraw_ms now
    then dashboard_request_redraw now d
    else d

unfoldable pub refresh_scroll : EddState → ℕ → Dashboard → Dashboard
refresh_scroll s now d = scroll_again d.stripe_y s now d

-- The stripe that goes to the panel: its first row and its height.
abbrev pub Blit : Type 0
Blit = Option (ℕ × ℕ)

abbrev pub height_at : ℕ → ℕ
height_at y = if ltb stripe_height (lcd_height - y) then stripe_height else lcd_height - y

unfoldable pub draw_stripe : Option ℕ → ℕ → Dashboard → Dashboard × Blit
draw_stripe none now d = (d, none)
draw_stripe (some y) now d =
    if leb lcd_height (y + height_at y)
    then (
      record d { stripe_y = none; next_scroll_redraw_ms = u64 (now + scroll_redraw_ms) },
      some (y, height_at y),
    )
    else (record d { stripe_y = some (y + height_at y) }, some (y, height_at y))

-- `s_data` is set: `dashboard_init` has run.
unfoldable pub dashboard_task : EddState → ℕ → Dashboard → Dashboard × Blit
dashboard_task s now d =
    let d' = refresh_scroll s now (refresh s now d) in draw_stripe d'.stripe_y now d'
