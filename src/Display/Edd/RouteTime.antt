-- ===== src/Display/Edd/RouteTime.antt =====
-- The route in PicoDeck-ED-Display/src/edd_state.c is ordered by its time stamp: it never goes back, and
-- an older journal row cannot raise the number of jumps.
use pico_deck_eddiscovery.Base.{
  ◌≡◌, Bool, true, false, List, [], ◌∷◌, ◌&&◌, arith, if◌then◌else◌, Bytes, ◌⊎◌, inl, inr,
}
use pico_deck_eddiscovery.Base.Int.{ℤ, pos, negsuc, ◌≤ℤ◌}
use pico_deck_eddiscovery.Base.Text.{before}
use pico_deck_eddiscovery.Base.Order.{before_irrefl, before_asym, before-nil, before_trans}
use pico_deck_eddiscovery.Display.Edd.Tokens.{Token}
use pico_deck_eddiscovery.Display.Edd.State.{EddState}
use pico_deck_eddiscovery.Display.Edd.Route.{
  is_set, is_newer, later_time, apply_journal_clear, apply_journal_route,
}
use pico_deck_eddiscovery.Display.Edd.Journal.{parse_journal_route}
use pico_deck_eddiscovery.Display.Edd.Messages.{
  parse_status, parse_indicator, live_target, live_clear, edd_state_handle_json,
}
use pico_deck_eddiscovery.Display.Edd.Rows.{
  Outcome, ignored, cleared, routed, parse_journal_route-Outcome,
}
use pico_deck_eddiscovery.Display.Edd.Handled.{Kept, handle_json-keeps}

later_time-order : (old time : Bytes) → before (later_time old time) old ≡ false
later_time-order [] time = before-nil (later_time [] time)
later_time-order (c ∷ cs) time = ground (arith, before_irrefl (c ∷ cs), before_asym (c ∷ cs) time)

clear-before :
    (old time : Bytes)
    → is_set old && is_set time && before time old ≡ false
    → before (if is_set time then time else old) old ≡ false
clear-before [] time h = before-nil (if is_set time then time else [])
clear-before (c ∷ cs) time h = ground (arith, before_irrefl (c ∷ cs))

clear-order :
    (time : Bytes) (s : EddState)
    → before (apply_journal_clear time s).1.route_event_time s.route_event_time ≡ false
unfolding apply_journal_clear
clear-order time s =
    ground (arith, before_irrefl s.route_event_time, clear-before s.route_event_time time)

newer-before :
    (old time : Bytes) → is_newer old time && is_set time ≡ true → before time old ≡ false
newer-before [] time h = before-nil time
newer-before (c ∷ cs) time h = ground (arith, before_asym (c ∷ cs) time)

route-order :
    (jumps : ℤ) (target stop time : Bytes) (s : EddState)
    → before (apply_journal_route jumps target stop time s).1.route_event_time s.route_event_time
      ≡ false
unfolding apply_journal_route
route-order jumps target stop time s =
    ground (arith, before_irrefl s.route_event_time, newer-before s.route_event_time time)

abbrev NotBefore : Bytes → EddState → Type 0
NotBefore t s = before s.route_event_time t ≡ false

journal-order :
    (t : Bytes) {s : EddState} {r : Bool × EddState} → Outcome s r → NotBefore t s → NotBefore t r.1
journal-order t ignored h = h
journal-order t {s} (cleared time fits) h =
    before_trans t s.route_event_time _ h (clear-order time s)
journal-order t {s} (routed jumps target stop time a b c) h =
    before_trans t s.route_event_time _ h (route-order (pos jumps) target stop time s)

NotBefore-Kept : (t : Bytes) → Kept (NotBefore t)
unfolding parse_status parse_indicator live_target live_clear
NotBefore-Kept t = record {
  by_counters = λ s m g h. h;
  by_status = λ json tokens s h. h;
  by_indicator = λ json tokens s h. h;
  by_target = λ json tokens target time s fits h.
      before_trans t s.route_event_time _ h (later_time-order s.route_event_time time);
  by_clear = λ time s fits h.
      before_trans t s.route_event_time _ h (later_time-order s.route_event_time time);
  by_journal = journal-order t;
}

-- The messages of a session, in order.
abbrev pub handle_all : (Bytes → List Token) → List Bytes → EddState → EddState
handle_all jsmn_parse [] s = s
handle_all jsmn_parse (json ∷ rest) s =
    handle_all jsmn_parse rest (edd_state_handle_json jsmn_parse json s).1

handle_all-NotBefore :
    (jsmn_parse : Bytes → List Token) (messages : List Bytes) (t : Bytes) (s : EddState)
    → NotBefore t s
    → NotBefore t (handle_all jsmn_parse messages s)
handle_all-NotBefore jsmn_parse [] t s h = h
handle_all-NotBefore jsmn_parse (json ∷ rest) t s h =
    handle_all-NotBefore jsmn_parse rest t (edd_state_handle_json jsmn_parse json s).1
      (handle_json-keeps (NotBefore t) (NotBefore-Kept t) jsmn_parse json s h)

-- The time stamp of the route never goes back, whatever messages arrive, in whatever order: after any
-- of them it is not before (as `strcmp` compares) what it was.
pub route_time_monotone :
    (jsmn_parse : Bytes → List Token) (messages : List Bytes) (s : EddState)
    → before (handle_all jsmn_parse messages s).route_event_time s.route_event_time ≡ false
route_time_monotone jsmn_parse messages s =
    handle_all-NotBefore jsmn_parse messages s.route_event_time s (before_irrefl s.route_event_time)

no_raise :
    {s : EddState} {r : Bool × EddState}
    → Outcome s r
    → (is_set s.route_event_time ≡ false)
      ⊎ (before s.route_event_time r.1.route_event_time ≡ true)
      ⊎ (r.1.remaining_jumps ≤ℤ s.remaining_jumps)
      ⊎ ((r.1.remaining_jumps ≡ negsuc 0) × (r.1.route_target ≡ []) × (r.1.next_system ≡ []))
unfolding apply_journal_clear apply_journal_route
no_raise ignored = inr (inr (inl (omega arith)))
no_raise {s} (cleared time fits) = ground arith
no_raise {s} (routed jumps target stop time a b c) = ground arith

-- After a journal message, whatever number was shown before: the route shown before had no time, or
-- the route is now a later one, or the number of jumps has not gone up, or the route is cleared, with
-- -1 for the number and no names. So an old row of the history cannot undo live progress.
pub parse_journal_route_no_raise :
    (json : Bytes) (tokens : List Token) (s : EddState)
    → let r = parse_journal_route json tokens s in
      (is_set s.route_event_time ≡ false)
      ⊎ (before s.route_event_time r.1.route_event_time ≡ true)
      ⊎ (r.1.remaining_jumps ≤ℤ s.remaining_jumps)
      ⊎ ((r.1.remaining_jumps ≡ negsuc 0) × (r.1.route_target ≡ []) × (r.1.next_system ≡ []))
parse_journal_route_no_raise json tokens s = no_raise (parse_journal_route-Outcome json tokens s)
