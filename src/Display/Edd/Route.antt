-- ===== src/Display/Edd/Route.antt =====
-- The route part of the state in PicoDeck-ED-Display/src/edd_state.c: `apply_journal_clear`,
-- `apply_journal_route`, and the two ways in which a live event moves the route's time stamp.
use pico_deck_eddiscovery.Base.{Bool, true, false, not, ◌&&◌, ◌||◌, [], ◌∷◌, if◌then◌else◌, Bytes}
use pico_deck_eddiscovery.Base.Int.{ℤ, pos, negsuc, ltb_ℤ, eqb_ℤ}
use pico_deck_eddiscovery.Base.Text.{before}
use pico_deck_eddiscovery.Display.Edd.State.{EddState}

-- `text[0]`
abbrev pub is_set : Bytes → Bool
is_set [] = false
is_set (b ∷ bs) = true

-- The `strcpy` of a live event's time, if it is later.
abbrev pub later_time : Bytes → Bytes → Bytes
later_time old event_time =
    if is_set event_time && (not (is_set old) || before old event_time) then event_time else old

unfoldable pub apply_journal_clear : Bytes → EddState → Bool × EddState
apply_journal_clear event_time s =
    if is_set s.route_event_time && is_set event_time && before event_time s.route_event_time
    then (false, s)
    else (
      true,
      record s {
        remaining_jumps = negsuc 0;
        route_target = [];
        next_system = [];
        route_event_time = if is_set event_time then event_time else s.route_event_time;
      },
    )

-- `newer_route`
abbrev pub is_newer : Bytes → Bytes → Bool
is_newer old event_time = not (is_set old) || (is_set event_time && before old event_time)

unfoldable pub apply_journal_route : ℤ → Bytes → Bytes → Bytes → EddState → Bool × EddState
apply_journal_route remaining destination next event_time s =
    if not (is_newer s.route_event_time event_time)
      && (ltb_ℤ s.remaining_jumps (pos 0) || ltb_ℤ s.remaining_jumps remaining)
    then (false, s)
    else (
      true,
      record s {
        remaining_jumps = remaining;
        route_target = if is_set destination then destination else s.route_target;
        next_system =
            if eqb_ℤ remaining (pos 0) then [] else if is_set next then next else s.next_system;
        route_event_time =
            if is_newer s.route_event_time event_time && is_set event_time
            then event_time
            else s.route_event_time;
      },
    )
