-- ===== src/Display/Frame.antt =====
-- What the panel shows when PicoDeck-ED-Display/src/dashboard.c draws into it, stripe after stripe.
use pico_deck_eddiscovery.Base.{
  ℕ, suc, ◌+◌, ◌-◌, ◌*◌, ◌≤◌, ◌<◌, ◌≡◌, refl, ap, ◌∙◌, sym, subst, true, ◌&&◌, List, [], ◌∷◌,
  Option, none, some, leb, ltb, if◌then◌else◌, length, length-replicate, replicate, Bytes, arith,
}
use pico_deck_eddiscovery.Base.Pixels.{color_at, color_at-replicate, in_view, HasRoom}
use pico_deck_eddiscovery.Display.Dashboard.{
  Page, setup, route, ship, system, info, page_drawn, Blit, refresh, refresh_scroll, draw_stripe,
  dashboard_request_redraw,
}
use pico_deck_eddiscovery.Display.Canvas.{Fill, stripe_view}
use pico_deck_eddiscovery.Display.Pages.{
  Screen, header, draw_page, draw_overview, draw_ship, draw_system, draw_info, draw_diagnostics,
  pixel_bytes, render_stripe,
}
use pico_deck_eddiscovery.Display.Picture.{painted, seen-fill_all}
use pico_deck_eddiscovery.Display.Redraw.{
  is_quiet, refresh-quiet, refresh_scroll-drawing, middle_stripe,
}

-- The page, as the rectangles that draw it.
abbrev pub page_fills : Screen → List Fill
page_fills s = draw_page (page_drawn s.dashboard) s

-- A stripe holds the page's rows from its first on: no pixel depends on where the page is cut.
pub render_stripe_shows :
    (s : Screen) (stripe x y : ℕ)
    → x < 480
    → stripe ≤ y
    → y < stripe + 24
    → y < 320
    → color_at ((y - stripe) * 480 + x) (render_stripe s stripe) ≡ painted (page_fills s) x y 0
unfolding render_stripe
render_stripe_shows s stripe x y a b c e =
    seen-fill_all stripe x y seen (page_fills s) (replicate pixel_bytes 0) room
    ∙ ap (painted (page_fills s) x y) (color_at-replicate pixel_bytes ((y - stripe) * 480 + x))
  where
    seen : in_view (stripe_view stripe) x y ≡ true
    seen = ground arith

    room : HasRoom (stripe_view stripe) (replicate pixel_bytes 0)
    room = subst (λ n. 23040 ≤ n) (sym (length-replicate {A = ℕ} pixel_bytes 0)) (omega arith)

-- The colors on the panel, by column and row, after `lcd_blit_rgb565_be` of that stripe.
abbrev pub shown : Blit → Bytes → (ℕ → ℕ → ℕ) → ℕ → ℕ → ℕ
shown none pixels panel x y = panel x y
shown (some (first, height)) pixels panel x y =
    if ltb x 480 && leb first y && ltb y (first + height)
    then color_at ((y - first) * 480 + x) pixels
    else panel x y

abbrev row_of : Option ℕ → ℕ
row_of none = 0
row_of (some y) = y

-- A call of `dashboard_task`, and what the panel shows behind it.
abbrev pub draw_round : ℕ → Screen × (ℕ → ℕ → ℕ) → Screen × (ℕ → ℕ → ℕ)
draw_round now (s, panel) =
    let d = refresh_scroll s.edd now (refresh s.edd now s.dashboard) in
    let r = draw_stripe d.stripe_y now d in
    let pixels = render_stripe (record s { dashboard = d }) (row_of d.stripe_y) in
    (record s { dashboard = r.0 }, shown r.1 pixels panel)

abbrev pub draw_rounds : List ℕ → Screen × (ℕ → ℕ → ℕ) → Screen × (ℕ → ℕ → ℕ)
draw_rounds [] t = t
draw_rounds (now ∷ times) t = draw_rounds times (draw_round now t)

-- The stripe that comes next is no part of the page.
abbrev moved : Option ℕ → Screen → Screen
moved next s = record s { dashboard = record s.dashboard { stripe_y = next } }

draw_page-moved :
    (next : Option ℕ) (s : Screen) (p : Page) → draw_page p (moved next s) ≡ draw_page p s
unfolding draw_page draw_overview draw_ship draw_system draw_info draw_diagnostics header
draw_page-moved next s setup = refl
draw_page-moved next s route = refl
draw_page-moved next s ship = refl
draw_page-moved next s system = refl
draw_page-moved next s info = refl

page_drawn-moved : (next : Option ℕ) (s : Screen) → page_fills (moved next s) ≡ page_fills s
unfolding page_drawn
page_drawn-moved next s = draw_page-moved next s (page_drawn s.dashboard)

abbrev IsDrawing : ℕ → Screen → Type 0
IsDrawing k s = (is_quiet s.edd s.dashboard ≡ true) × (s.dashboard.stripe_y ≡ some (24 * k))

quiet_draw_round :
    (now k : ℕ) (s : Screen) (panel : ℕ → ℕ → ℕ)
    → IsDrawing k s
    → draw_round now (s, panel) ≡ (
        let r = draw_stripe (some (24 * k)) now s.dashboard in
        (record s { dashboard = r.0 }, shown r.1 (render_stripe s (24 * k)) panel))
quiet_draw_round now k s panel (q, e) = rw (refresh-quiet s.edd now s.dashboard q) (
    rw (refresh_scroll-drawing s.edd now (24 * k) s.dashboard e) (
      ap
        (λ o.
          (let r = draw_stripe o now s.dashboard in
            (record s { dashboard = r.0 }, shown r.1 (render_stripe s (row_of o)) panel)))
        e))

draw_round_shows :
    (now k x y : ℕ) (s : Screen) (panel : ℕ → ℕ → ℕ)
    → k ≤ 13
    → x < 480
    → y < 320
    → IsDrawing k s
    → (draw_round now (s, panel)).1 x y
      ≡ (if leb (24 * k) y && ltb y (24 * suc k) then painted (page_fills s) x y 0 else panel x y)
unfolding draw_stripe
draw_round_shows now k x y s panel h a b d =
    ap (λ t. t.1 x y) (quiet_draw_round now k s panel d)
    ∙ ground (arith, render_stripe_shows s (24 * k) x y)

draw_round_next :
    (now k : ℕ) (s : Screen) (panel : ℕ → ℕ → ℕ)
    → k ≤ 12
    → IsDrawing k s
    → (draw_round now (s, panel)).0 ≡ moved (some (24 * suc k)) s
draw_round_next now k s panel h d =
    ap (λ t. t.0) (quiet_draw_round now k s panel d)
    ∙ ap (λ r. record s { dashboard = r.0 }) (middle_stripe k now s.dashboard h)

-- The rest of a redraw, from the stripe with that number on.
rest_of_page :
    (now : ℕ) (times : List ℕ) (k x y : ℕ) (t : Screen × (ℕ → ℕ → ℕ))
    → k + length times ≡ 13
    → x < 480
    → y < 320
    → IsDrawing k t.0
    → (draw_rounds (now ∷ times) t).1 x y
      ≡ (if leb (24 * k) y then painted (page_fills t.0) x y 0 else t.1 x y)
rest_of_page now [] k x y (s, panel) l a b d =
    draw_round_shows now k x y s panel (omega (arith, l)) a b d ∙ ground (arith, l)
rest_of_page now (later ∷ times) k x y (s, panel) l a b d =
    rest_of_page later times (suc k) x y (draw_round now (s, panel)) (omega (arith, l)) a b
      (subst (IsDrawing (suc k)) (sym next) (d.0, refl))
    ∙ ground (
      arith,
      ap page_fills next,
      page_drawn-moved (some (24 * suc k)) s,
      draw_round_shows now k x y s panel (omega (arith, l)) a b d,
    )
  where
    next : (draw_round now (s, panel)).0 ≡ moved (some (24 * suc k)) s
    next = draw_round_next now k s panel (omega (arith, l)) d

-- After a redraw is asked for, fourteen rounds in which nothing new comes leave the panel showing the
-- page: each of its pixels has the color that the page's last rectangle over it has, or black, whatever
-- the panel showed before.
pub frame_shows :
    (s : Screen) (start now x y : ℕ) (times : List ℕ) (panel : ℕ → ℕ → ℕ)
    → is_quiet s.edd s.dashboard ≡ true
    → length times ≡ 13
    → x < 480
    → y < 320
    → let begun = record s { dashboard = dashboard_request_redraw start s.dashboard } in
      (draw_rounds (now ∷ times) (begun, panel)).1 x y ≡ painted (page_fills begun) x y 0
unfolding dashboard_request_redraw
frame_shows s start now x y times panel q l a b =
    rest_of_page now times 0 x y
      (record s { dashboard = record s.dashboard { stripe_y = some 0; render_ms = start } }, panel)
      (omega (arith, l)) a b (q, refl)
    ∙ ground arith
