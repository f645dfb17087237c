-- ===== src/Display/Stripes.antt =====
-- The stripes that PicoDeck-ED-Display/src/dashboard.c draws, one in each round of the main loop.
use pico_deck_eddiscovery.Base.{
  ℕ, ◌+◌, ◌%◌, ◌<◌, ◌≡◌, refl, Bool, true, ◌&&◌, Option, none, some, List, [], ◌∷◌, leb, ltb, ◌==◌,
  arith,
}
use pico_deck_eddiscovery.WebSocket.Types.{WsState}
use pico_deck_eddiscovery.Display.Edd.State.{EddState}
use pico_deck_eddiscovery.Display.Dashboard.{
  Dashboard, Blit, dashboard_set_connection, dashboard_request_redraw, dashboard_next_page, refresh,
  scroll_again, refresh_scroll, draw_stripe, dashboard_task,
}

-- The next stripe starts at a multiple of its height, on the panel, and the page is one of the four.
abbrev on_grid : Option ℕ → Bool
on_grid none = true
on_grid (some y) = y % 24 == 0 && ltb y 320

abbrev pub is_sound : Dashboard → Bool
is_sound d = on_grid d.stripe_y && ltb d.page 4

-- A stripe fits the panel and the stripe's buffer.
abbrev pub fits : Blit → Bool
fits none = true
fits (some (y, height)) = leb (y + height) 320 && leb height 24 && ltb 0 height

-- What the main loop does with the dashboard.
pub data Call : Type 0 where
  connection : Bool → WsState → Call
  redraw : ℕ → Call
  next_page : ℕ → Call
  round : EddState → ℕ → Call

abbrev pub call : Call → Dashboard → Dashboard × Blit
call (connection usb websocket) d = (dashboard_set_connection usb websocket d, none)
call (redraw now) d = (dashboard_request_redraw now d, none)
call (next_page now) d = (dashboard_next_page now d, none)
call (round s now) d = dashboard_task s now d

abbrev pub calls : List Call → Dashboard → Dashboard × List Blit
calls [] d = (d, [])
calls (c ∷ cs) d = let r = call c d in let rest = calls cs r.0 in (rest.0, r.1 ∷ rest.1)

abbrev pub all_fit : List Blit → Bool
all_fit [] = true
all_fit (b ∷ bs) = fits b && all_fit bs

draw_stripe_sound :
    (o : Option ℕ) (now : ℕ) (d : Dashboard)
    → d.stripe_y ≡ o
    → is_sound d ≡ true
    → (is_sound (draw_stripe o now d).0 ≡ true) × (fits (draw_stripe o now d).1 ≡ true)
unfolding draw_stripe
draw_stripe_sound none now d e h = (h, refl)
draw_stripe_sound (some y) now d e h = ground arith

refresh_sound :
    (s : EddState) (now : ℕ) (d : Dashboard) → is_sound d ≡ true → is_sound (refresh s now d) ≡ true
unfolding refresh dashboard_request_redraw
refresh_sound s now d h = ground arith

scroll_again_sound :
    (o : Option ℕ) (s : EddState) (now : ℕ) (d : Dashboard)
    → is_sound d ≡ true
    → is_sound (scroll_again o s now d) ≡ true
unfolding scroll_again dashboard_request_redraw
scroll_again_sound none s now d h = ground arith
scroll_again_sound (some y) s now d h = h

refresh_scroll_sound :
    (s : EddState) (now : ℕ) (d : Dashboard)
    → is_sound d ≡ true
    → is_sound (refresh_scroll s now d) ≡ true
unfolding refresh_scroll
refresh_scroll_sound s now d h = scroll_again_sound d.stripe_y s now d h

pub call_sound :
    (c : Call) (d : Dashboard)
    → is_sound d ≡ true
    → (is_sound (call c d).0 ≡ true) × (fits (call c d).1 ≡ true)
unfolding dashboard_set_connection dashboard_request_redraw dashboard_next_page dashboard_task
call_sound (connection usb websocket) d h = (h, refl)
call_sound (redraw now) d h = (ground arith, refl)
call_sound (next_page now) d h = (ground arith, refl)
call_sound (round s now) d h =
    let d' = refresh_scroll s now (refresh s now d) in
    draw_stripe_sound d'.stripe_y now d' refl
      (refresh_scroll_sound s now (refresh s now d) (refresh_sound s now d h))

-- From any sound state, whatever the main loop does and whatever the state shows: each stripe lies
-- on the panel, is not empty and is no higher than its buffer, and the page stays one of the four.
pub stripes_fit :
    (cs : List Call) (d : Dashboard)
    → is_sound d ≡ true
    → (all_fit (calls cs d).1 ≡ true) × ((calls cs d).0.page < 4)
stripes_fit [] d h = (refl, ground arith)
stripes_fit (c ∷ cs) d h =
    let (h1, k1) = call_sound c d h in
    let (h2, k2) = stripes_fit cs (call c d).0 h1 in (ground arith, k2)
