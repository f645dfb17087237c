-- ===== src/Display/Edd/Document.antt =====
-- What a message of EDDiscovery means to the state, as PicoDeck-ED-Display/src/edd_state.c reads it: over
-- the tree of the message, by members and items, with no tokens and no indices.
use pico_deck_eddiscovery.Base.{
  ℕ, zero, suc, ◌+◌, ◌-◌, Bool, true, false, not, ◌||◌, Option, none, some, List, [], ◌∷◌, set, ltb,
  drop, if◌then◌else◌, Bytes, codes, equal,
}
use pico_deck_eddiscovery.Base.Bits.{u32}
use pico_deck_eddiscovery.Base.Int.{ℤ, pos, negsuc, eqb_ℤ}
use pico_deck_eddiscovery.Base.Text.{atoi, strtol, memchr}
use pico_deck_eddiscovery.Display.Edd.Tokens.{is_string, slice, token_equals, copy_token}
use pico_deck_eddiscovery.Display.Edd.State.{EddState, edd_text, event_time_size}
use pico_deck_eddiscovery.Display.Edd.Route.{later_time, apply_journal_clear, apply_journal_route}
use pico_deck_eddiscovery.Display.Edd.Journal.{
  destination_of, next_stop, RowKind, fsd_jump_row, clear_row, route_row, other_row, kind_of_event,
}
use pico_deck_eddiscovery.Display.Edd.Messages.{
  live_clear, Response, status, indicator, generic_ui, journal, unknown, response_kind,
  count_recognized,
}
use pico_deck_eddiscovery.Display.Edd.Tree.{Json, array, Items, nil, cons, root, member_at, item_at}

-- What a value reads as; the old content stays where there is none.
unfoldable pub text_of : Bytes → ℕ → Bytes → Option Json → Bytes
text_of json capacity old none = old
text_of json capacity old (some v) = copy_token json (root v) capacity

unfoldable pub string_of : Bytes → ℕ → Bytes → Option Json → Bytes
string_of json capacity old none = old
string_of json capacity old (some v) =
    if is_string (root v).type then copy_token json (root v) capacity else old

unfoldable pub integer_of : Bytes → ℤ → Option Json → ℤ
integer_of json old none = old
integer_of json old (some v) = atoi (copy_token json (root v) 20)

unfoldable pub bool_of : Bytes → Bool → Option Json → Bool
bool_of json old none = old
bool_of json old (some v) =
    equal (slice json (root v)) (codes "true") || equal (slice json (root v)) (codes "1")

module _ (json : Bytes) where
  unfoldable pub status_of : Json → EddState → EddState
  status_of v s =
      let the = λ (key : Bytes) (o : Option Json). member_at json key o in
      let system = the (codes "SystemData") (some v) in
      let eddb = the (codes "EDDB") (some v) in
      let ship = the (codes "Ship") (some v) in
      let travel = the (codes "Travel") (some v) in
      record s {
        system = text_of json edd_text s.system (the (codes "System") system);
        allegiance = text_of json edd_text s.allegiance (the (codes "Allegiance") eddb);
        economy = text_of json edd_text s.economy (the (codes "Economy") eddb);
        security = text_of json edd_text s.security (the (codes "Security") eddb);
        ship = text_of json edd_text s.ship (the (codes "Ship") ship);
        fuel = text_of json edd_text s.fuel (the (codes "Fuel") ship);
        tank_size = text_of json edd_text s.tank_size (the (codes "TankSize") ship);
        jump_range = text_of json edd_text s.jump_range (the (codes "Range") ship);
        cargo = text_of json edd_text s.cargo (the (codes "Cargo") ship);
        travel_dist = text_of json edd_text s.travel_dist (the (codes "Dist") travel);
        travel_jumps = text_of json edd_text s.travel_jumps (the (codes "Jumps") travel);
        travel_time = text_of json edd_text s.travel_time (the (codes "Time") travel);
        body = text_of json edd_text s.body (the (codes "Bodyname") (some v));
        station = text_of json edd_text s.station (the (codes "StationName") (some v));
        commander = text_of json edd_text s.commander (the (codes "Commander") (some v));
        mode = text_of json edd_text s.mode (the (codes "Mode") (some v));
        game_mode = text_of json edd_text s.game_mode (the (codes "GameMode") (some v));
        home_dist = text_of json edd_text s.home_dist (the (codes "HomeDist") (some v));
        sol_dist = text_of json edd_text s.sol_dist (the (codes "SolDist") (some v));
        credits = text_of json edd_text s.credits (the (codes "Credits") (some v));
        next_system =
            string_of json edd_text s.next_system (the (codes "FSDJumpNextSystemName") (some v));
        remaining_jumps = integer_of json s.remaining_jumps (the (codes "RemainingJumps") (some v));
      }

  -- The first `n` of the items, into the slots from `i` on.
  unfoldable pub pips_from : ℕ → ℕ → Items → List ℤ → List ℤ
  pips_from zero i items pips = pips
  pips_from (suc n) i nil pips = pips
  pips_from (suc n) i (cons v items) pips =
      pips_from n (suc i) items (set pips i (atoi (copy_token json (root v) 12)))

  unfoldable pub pips_of : List ℤ → Option Json → List ℤ
  unfolding pips_from
  pips_of old (some (array t items)) = pips_from 3 0 items old
  pips_of old _ = old

  unfoldable pub indicator_of : Json → EddState → EddState
  indicator_of v s =
      let the = λ (key : Bytes). member_at json key (some v) in
      record s {
        mass_locked = bool_of json s.mass_locked (the (codes "FsdMassLocked"));
        shields_up = bool_of json s.shields_up (the (codes "ShieldsUp"));
        low_fuel = bool_of json s.low_fuel (the (codes "LowFuel"));
        overheat = bool_of json s.overheat (the (codes "OverHeating"));
        danger = bool_of json s.danger (the (codes "IsInDanger"));
        interdicted = bool_of json s.interdicted (the (codes "BeingInterdicted"));
        legal_state = text_of json edd_text s.legal_state (the (codes "LegalState"));
        pips =
            if bool_of json true (the (codes "ValidPips"))
            then pips_of s.pips (the (codes "Pips"))
            else pos 0 ∷ pos 0 ∷ pos 0 ∷ [];
      }

  unfoldable pub value_is : Bytes → Option Json → Bool
  value_is text none = false
  value_is text (some v) = token_equals json (root v) text

  unfoldable pub target_of : Bytes → Option Json → EddState → EddState
  target_of event_time none s = s
  target_of event_time (some target) s =
      let jumps =
        integer_of json s.remaining_jumps
          (member_at json (codes "RemainingJumpsInRoute") (some target)) in
      record s {
        remaining_jumps = jumps;
        next_system =
            if eqb_ℤ jumps (pos 0)
            then []
            else string_of json edd_text s.next_system
                (member_at json (codes "StarSystem") (some target));
        route_event_time = later_time s.route_event_time event_time;
      }

  unfoldable pub generic_ui_of : Json → EddState → EddState
  unfolding target_of value_is
  generic_ui_of v s =
      let body = member_at json (codes "data") (some v) in
      let event_time =
        text_of json event_time_size [] (member_at json (codes "EventTimeUTC") body) in
      if value_is (codes "NavRouteClear") (member_at json (codes "EventTypeID") body)
      then live_clear event_time s
      else target_of event_time (member_at json (codes "FSDTarget") body) s

  unfoldable pub row_time_of : Json → Bytes
  row_time_of row = text_of json event_time_size [] (item_at 1 (some row))

  unfoldable pub count_of : Bytes → ℕ → Bytes → ℤ → EddState → Bool × EddState
  count_of event_time completed summary (negsuc n) s = (false, s)
  count_of event_time completed summary (pos jumps) s =
      if ltb 100000 jumps then (false, s) else elim (memchr summary b':') [
        | none ↦ (false, s)
        | some i ↦
            apply_journal_route (pos (jumps - completed)) (destination_of (drop (suc i) summary))
              (next_stop completed (jumps - completed) (drop (suc i) summary)) event_time s
      ]

  unfoldable pub route_of : Bytes → ℕ → Option Json → EddState → Bool × EddState
  route_of event_time completed none s = (false, s)
  route_of event_time completed (some v) s =
      if not (is_string (root v).type)
      then (false, s)
      else elim (strtol (drop (root v).start json)) [
        | none ↦ (false, s)
        | some jumps ↦ count_of event_time completed (slice json (root v)) jumps s
      ]

  unfoldable pub kind_of_row : Option Json → RowKind
  kind_of_row none = other_row
  kind_of_row (some event) = kind_of_event json (root event)

  -- The rows, newest first, `completed` jumps after the ones that are read.
  unfoldable pub rows_of : Items → ℕ → EddState → Bool × EddState
  unfolding route_of kind_of_row row_time_of
  rows_of nil completed s = (false, s)
  rows_of (cons row rows) completed s = elim (kind_of_row (item_at 0 (some row))) [
    | fsd_jump_row ↦ rows_of rows (suc completed) s
    | clear_row ↦ apply_journal_clear (row_time_of row) s
    | route_row ↦ route_of (row_time_of row) completed (item_at 3 (some row)) s
    | other_row ↦ rows_of rows completed s
  ]

  unfoldable pub journal_of : Option Json → EddState → Bool × EddState
  unfolding rows_of
  journal_of (some (array t rows)) s = rows_of rows 0 s
  journal_of _ s = (false, s)

  unfoldable pub message_of : Response → Json → EddState → Bool × EddState
  message_of status v s = (true, status_of v s)
  message_of indicator v s = (true, indicator_of v s)
  message_of generic_ui v s = (true, generic_ui_of v s)
  message_of journal v s = journal_of (member_at json (codes "rows") (some v)) s
  message_of unknown v s = (false, s)

  unfoldable pub answer_of : Json → Option Json → EddState → Bool × EddState
  answer_of v none s = (false, s)
  answer_of v (some response) s =
      count_recognized (message_of (response_kind json (root response)) v s)

  -- The whole message.
  unfoldable pub handle_document : Json → EddState → Bool × EddState
  unfolding answer_of
  handle_document v s =
      answer_of v (member_at json (codes "responsetype") (some v))
        (record s { messages_received = u32 (s.messages_received + 1) })
