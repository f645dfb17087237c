-- ===== src/Display/Redraw.antt =====
-- A whole redraw of PicoDeck-ED-Display/src/dashboard.c: the stripes of fourteen rounds.
use pico_deck_eddiscovery.Base.{
  ℕ, suc, ◌+◌, ◌*◌, ◌≤◌, ◌≡◌, refl, Bool, true, false, not, ◌&&◌, ◌||◌, none, some, List, [], ◌∷◌,
  leb, ==_refl, ◌==◌, ◌!=◌, ap, ◌∙◌, sym, subst, if◌then◌else◌, length, arith,
}
use pico_deck_eddiscovery.Display.Input.{differs}
use pico_deck_eddiscovery.Display.Edd.State.{EddState}
use pico_deck_eddiscovery.Display.Dashboard.{
  Dashboard, Blit, ws_code, height_at, dashboard_request_redraw, refresh, scroll_again,
  refresh_scroll, draw_stripe, dashboard_task,
}
use pico_deck_eddiscovery.Display.Stripes.{Call, round, calls}

-- The panel's rows are drawn from `y` on, without a gap, down to the row that is the result.
abbrev pub drawn_to : ℕ → List Blit → ℕ
drawn_to y [] = y
drawn_to y (none ∷ bs) = drawn_to y bs
drawn_to y (some (first, height) ∷ bs) = if first == y then drawn_to (y + height) bs else y

-- Nothing has changed that starts a redraw.
abbrev pub is_quiet : EddState → Dashboard → Bool
is_quiet s d =
    d.generation == s.generation
    && not (differs d.usb_network d.last_usb)
    && ws_code d.websocket == d.last_websocket

-- Rounds of the main loop at those times.
abbrev pub rounds : EddState → List ℕ → List Call
rounds s [] = []
rounds s (now ∷ times) = round s now ∷ rounds s times

pub refresh-quiet :
    (s : EddState) (now : ℕ) (d : Dashboard) → is_quiet s d ≡ true → refresh s now d ≡ d
unfolding refresh
refresh-quiet s now d h = simp changed refl
  where
    changed :
        (s.generation != d.generation
          || differs d.usb_network d.last_usb
          || ws_code d.websocket != d.last_websocket)
        ≡ false
    changed = ground arith

pub refresh_scroll-drawing :
    (s : EddState) (now y : ℕ) (d : Dashboard) → d.stripe_y ≡ some y → refresh_scroll s now d ≡ d
unfolding refresh_scroll scroll_again
refresh_scroll-drawing s now y d e = ap (λ o. scroll_again o s now d) e

quiet_round :
    (s : EddState) (now y : ℕ) (d : Dashboard)
    → is_quiet s d ≡ true
    → d.stripe_y ≡ some y
    → dashboard_task s now d ≡ draw_stripe (some y) now d
unfolding dashboard_task
quiet_round s now y d h e =
    simp (refresh-quiet s now d h, refresh_scroll-drawing s now y d e)
      (ap (λ o. draw_stripe o now d) e)

pub middle_stripe :
    (k now : ℕ) (d : Dashboard)
    → k ≤ 12
    → draw_stripe (some (24 * k)) now d
      ≡ (record d { stripe_y = some (24 * suc k) }, some (24 * k, 24))
unfolding draw_stripe
middle_stripe k now d h = simp (height, next, inside) refl
  where
    height : height_at (24 * k) ≡ 24
    height = ground arith

    inside : leb 320 (24 * suc k) ≡ false
    inside = ground arith

    next : 24 * k + 24 ≡ 24 * suc k
    next = omega arith

-- The rounds at those times, and a first round with this result and the rounds behind it, draw all
-- from row `y` down.
abbrev Drawn : EddState → List ℕ → ℕ → Dashboard → Type 0
Drawn s times y d =
    (drawn_to y (calls (rounds s times) d).1 ≡ 320) × ((calls (rounds s times) d).0.stripe_y ≡ none)

abbrev DrawnAfter : EddState → List ℕ → ℕ → Dashboard × Blit → Type 0
DrawnAfter s times y r =
    (drawn_to y (r.1 ∷ (calls (rounds s times) r.0).1) ≡ 320)
    × ((calls (rounds s times) r.0).0.stripe_y ≡ none)

last_drawn :
    (s : EddState) (now k : ℕ) (d : Dashboard)
    → k ≡ 13
    → DrawnAfter s [] (24 * k) (draw_stripe (some (24 * k)) now d)
unfolding draw_stripe
last_drawn s now k d e =
    subst (λ i. DrawnAfter s [] (24 * i) (draw_stripe (some (24 * i)) now d)) (sym e) (refl, refl)

middle_rows :
    (s : EddState) (times : List ℕ) (k : ℕ) (d : Dashboard)
    → Drawn s times (24 * suc k) d
    → DrawnAfter s times (24 * k) (d, some (24 * k, 24))
middle_rows s times k d h =
    (rw (==_refl (24 * k)) (ap (λ y. drawn_to y (calls (rounds s times) d).1) next ∙ h.0), h.1)
  where
    next : 24 * k + 24 ≡ 24 * suc k
    next = omega arith

all_rows :
    (s : EddState) (now : ℕ) (times : List ℕ) (k : ℕ) (d : Dashboard)
    → is_quiet s d ≡ true
    → d.stripe_y ≡ some (24 * k)
    → k + length times ≡ 13
    → Drawn s (now ∷ times) (24 * k) d
all_rows s now [] k d h e l =
    subst (λ r. DrawnAfter s [] (24 * k) r) (sym (quiet_round s now (24 * k) d h e))
      (last_drawn s now k d (omega arith))
all_rows s now (later ∷ times) k d h e l =
    subst (λ r. DrawnAfter s (later ∷ times) (24 * k) r)
      (sym (quiet_round s now (24 * k) d h e ∙ middle_stripe k now d (omega arith)))
      (middle_rows s (later ∷ times) k (record d { stripe_y = some (24 * suc k) })
        (all_rows s later times (suc k) (record d { stripe_y = some (24 * suc k) }) h refl
          (omega arith)))

-- After a redraw is asked for, fourteen rounds in which nothing new comes draw every row of the panel
-- from the first to the last, with no gap and none twice, and then the redraw is over.
pub full_redraw :
    (s : EddState) (start now : ℕ) (times : List ℕ) (d : Dashboard)
    → is_quiet s d ≡ true
    → length times ≡ 13
    → let r = calls (rounds s (now ∷ times)) (dashboard_request_redraw start d) in
      (drawn_to 0 r.1 ≡ 320) × (r.0.stripe_y ≡ none)
unfolding dashboard_request_redraw
full_redraw s start now times d h l =
    all_rows s now times 0 (record d { stripe_y = some 0; render_ms = start }) h refl
      (omega (arith, l))
