-- ===== src/Display/Pages.antt =====
-- The pages of PicoDeck-ED-Display/src/dashboard.c, as the calls of `rect` that draw them.
use pico_deck_eddiscovery.Base.{
  ℕ, ◌+◌, ◌-◌, ◌/◌, Bool, true, false, ◌||◌, List, [], ◌∷◌, ◌++◌, leb, if◌then◌else◌, replicate,
  take, get_or, Bytes, codes,
}
use pico_deck_eddiscovery.Base.Int.{ℤ, pos, sub_ℕ, ◌+ℤ◌, ltb_ℤ}
use pico_deck_eddiscovery.Base.Text.{decimal_int}
use pico_deck_eddiscovery.WebSocket.Types.{WsState}
use pico_deck_eddiscovery.WebSocket.Receive.{is_open}
use pico_deck_eddiscovery.Display.Board.{
  color_orange, color_white, color_green, color_red, color_cyan, color_dark_gray, color_mid_gray,
}
use pico_deck_eddiscovery.Display.Edd.State.{EddState}
use pico_deck_eddiscovery.Display.Dashboard.{
  Dashboard, Page, setup, route, ship, system, info, page_drawn, text_width, value_or_dash,
  scroll_offset, header_status,
}
use pico_deck_eddiscovery.Display.Canvas.{
  Fill, rect, outline, text_at, text_at_clipped, centered, half,
}

-- What a page is drawn from: `*s_data`, the static variables, and what `net_usb_device_ip`,
-- `net_usb_host_ip` and `eddjson_client_state_name` return.
pub record Screen : Type 0 where
  pub edd : EddState
  pub dashboard : Dashboard
  pub device_ip : Bytes
  pub host_ip : Bytes
  pub state_name : Bytes

-- `draw_x`
unfoldable pub value_x : ℕ → ℕ → ℕ → Bytes → ℕ → Bool → ℤ
value_x render_ms x width shown scale center_if_short =
    if leb (text_width shown scale) width
    then pos (if center_if_short then x + (width - text_width shown scale) / 2 else x)
    else sub_ℕ x (scroll_offset shown scale width render_ms)

unfoldable pub value_area : ℕ → ℕ → ℕ → ℕ → Bytes → ℕ → ℕ → Bool → List Fill
value_area render_ms x y width value scale color center_if_short =
    let shown = value_or_dash value in
    text_at_clipped (value_x render_ms x width shown scale center_if_short) y shown scale color x
      width

unfoldable pub label_value : ℕ → ℕ → ℕ → ℕ → Bytes → Bytes → ℕ → List Fill
label_value render_ms x y width label value color =
    text_at (pos x) y label 2 color_mid_gray
    ++ value_area render_ms x (y + 18) width value 2 color false

-- The color of the status in the header.
abbrev pub status_color : Bool → WsState → ℕ
status_color usb websocket =
    if usb then (if is_open websocket then color_green else color_orange) else color_red

unfoldable pub header : Dashboard → Bytes → List Fill
header d page =
    let status = header_status d.usb_network d.websocket in
    (record { x = pos 0; y = 0; width = 480; height = 38; color = color_dark_gray }
      ∷ text_at (pos 12) 10 (codes "ED DISCOVERY") 2 color_orange)
    ++ text_at (pos 190) 10 page 2 color_white
    ++ text_at (sub_ℕ 474 (text_width status 2)) 10 status 2
        (status_color d.usb_network d.websocket)
    ++ record { x = pos 0; y = 37; width = 480; height = 2; color = color_orange } ∷ []

unfoldable pub pill : ℕ → ℕ → ℕ → Bytes → Bool → Bool → List Fill
pill x y width name active warning =
    let color = if active then (if warning then color_red else color_green) else color_mid_gray in
    outline x y width 27 color
    ++ text_at (pos x +ℤ half (sub_ℕ width (text_width name 2))) (y + 7) name 2 color

-- `snprintf(jumps, 16, "%d", …)`, or the dash.
unfoldable pub jumps_text : ℤ → Bytes
jumps_text jumps = if ltb_ℤ jumps (pos 0) then codes "-" else take 15 (decimal_int jumps)

unfoldable pub draw_overview : Screen → List Fill
draw_overview s =
    let e = s.edd in
    let ms = s.dashboard.render_ms in
    header s.dashboard (codes "ROUTE")
    ++ text_at (pos 14) 52 (codes "DESTINATION") 2 color_mid_gray
    ++ value_area ms 14 72 452 e.route_target 3 color_white false
    ++ centered 110 (jumps_text e.remaining_jumps) 10 color_orange
    ++ centered 188 (codes "JUMPS REMAINING") 2 color_mid_gray
    ++ label_value ms 14 222 210 (codes "CURRENT") e.system color_cyan
    ++ label_value ms 250 222 216 (codes "NEXT") e.next_system color_cyan
    ++ pill 4 282 116 (codes "SHIELDS") e.shields_up false
    ++ pill 124 282 116 (codes "MASS LOCK") e.mass_locked true
    ++ pill 244 282 116 (codes "LOW FUEL") e.low_fuel true
    ++ pill 364 282 116 (codes "DANGER") (e.danger || e.interdicted) true

-- `snprintf(pips, 40, …)`
unfoldable pub pips_text : List ℤ → Bytes
pips_text pips = take 39 (
    codes "SYS "
    ++ decimal_int (get_or pips 0 (pos 0))
    ++ codes "  ENG "
    ++ decimal_int (get_or pips 1 (pos 0))
    ++ codes "  WEP "
    ++ decimal_int (get_or pips 2 (pos 0)))

unfoldable pub draw_ship : Screen → List Fill
draw_ship s =
    let e = s.edd in
    let ms = s.dashboard.render_ms in
    header s.dashboard (codes "SHIP")
    ++ value_area ms 12 55 456 e.ship 3 color_white true
    ++ label_value ms 20 105 140 (codes "FUEL") e.fuel color_orange
    ++ label_value ms 180 105 130 (codes "TANK") e.tank_size color_white
    ++ label_value ms 330 105 136 (codes "RANGE") e.jump_range color_cyan
    ++ label_value ms 20 170 140 (codes "CARGO") e.cargo color_white
    ++ label_value ms 180 170 130 (codes "MODE") e.mode color_white
    ++ label_value ms 330 170 136 (codes "LEGAL") e.legal_state color_white
    ++ centered 242 (pips_text e.pips) 3 color_orange
    ++ pill 50 285 160 (codes "OVERHEAT") e.overheat true
    ++ pill 270 285 160 (codes "INTERDICT") e.interdicted true

unfoldable pub draw_system : Screen → List Fill
draw_system s =
    let e = s.edd in
    let ms = s.dashboard.render_ms in
    header s.dashboard (codes "SYSTEM")
    ++ value_area ms 10 57 460 e.system 4 color_orange true
    ++ label_value ms 20 115 210 (codes "BODY") e.body color_white
    ++ label_value ms 250 115 216 (codes "STATION") e.station color_white
    ++ label_value ms 20 180 210 (codes "ALLEGIANCE") e.allegiance color_cyan
    ++ label_value ms 250 180 216 (codes "ECONOMY") e.economy color_cyan
    ++ label_value ms 20 245 210 (codes "SECURITY") e.security color_white
    ++ label_value ms 250 245 216 (codes "SOL DIST") e.sol_dist color_white

unfoldable pub draw_info : Screen → List Fill
draw_info s =
    let e = s.edd in
    let ms = s.dashboard.render_ms in
    header s.dashboard (codes "INFO")
    ++ text_at (pos 20) 52 (codes "COMMANDER") 2 color_mid_gray
    ++ value_area ms 20 72 446 e.commander 3 color_orange false
    ++ label_value ms 20 125 210 (codes "GAME MODE") e.game_mode color_cyan
    ++ label_value ms 250 125 216 (codes "FLIGHT STATE") e.mode color_cyan
    ++ label_value ms 20 190 210 (codes "CREDITS") e.credits color_white
    ++ label_value ms 250 190 216 (codes "SOL DIST") e.sol_dist color_white
    ++ text_at (pos 20) 255 (codes "CURRENT SYSTEM") 2 color_mid_gray
    ++ value_area ms 20 275 446 e.system 2 color_white false

unfoldable pub draw_diagnostics : Screen → List Fill
draw_diagnostics s =
    let d = s.dashboard in
    header d (codes "SETUP")
    ++ centered 62 (codes "USB NETWORK") 3 (if d.usb_network then color_green else color_red)
    ++ label_value d.render_ms 30 110 185 (codes "PICO") s.device_ip color_white
    ++ label_value d.render_ms 265 110 185 (codes "WINDOWS") s.host_ip color_white
    ++ label_value d.render_ms 30 180 420 (codes "EDDISCOVERY") s.state_name
        (if is_open d.websocket then color_green else color_orange)
    ++ text_at (pos 30) 238 (codes "WEB SERVER PORT 6502") 2 color_mid_gray
    ++ text_at (pos 30) 265 (codes "CONNECT NATIVE PICO USB TO PC") 2 color_white
    ++ text_at (pos 30) 290 (codes "ENABLE EDDISCOVERY WEB SERVER") 2 color_white

unfoldable pub draw_page : Page → Screen → List Fill
draw_page setup s = draw_diagnostics s
draw_page route s = draw_overview s
draw_page ship s = draw_ship s
draw_page system s = draw_system s
draw_page info s = draw_info s

-- The calls of `rect`, in order.
unfoldable pub fill_all : ℕ → List Fill → Bytes → Bytes
fill_all stripe [] pixels = pixels
fill_all stripe (f ∷ fs) pixels = fill_all stripe fs (rect stripe f pixels)

-- The bytes of `s_pixels`.
abbrev pub pixel_bytes : ℕ
pixel_bytes = 23040

-- `render_stripe`: the buffer is cleared first.
unfoldable pub render_stripe : Screen → ℕ → Bytes
render_stripe s stripe =
    fill_all stripe (draw_page (page_drawn s.dashboard) s) (replicate pixel_bytes 0)
