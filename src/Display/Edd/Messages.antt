-- ===== src/Display/Edd/Messages.antt =====
-- `parse_status`, `parse_indicator`, `parse_generic_ui` and `edd_state_handle_json` of
-- PicoDeck-ED-Display/src/edd_state.c.
use pico_deck_eddiscovery.Base.{
  ℕ, zero, suc, ◌+◌, Bool, true, false, not, ◌||◌, Option, none, some, List, [], ◌∷◌, set,
  if◌then◌else◌, Bytes, codes,
}
use pico_deck_eddiscovery.Base.Bits.{u32}
use pico_deck_eddiscovery.Base.Int.{ℤ, pos, negsuc, eqb_ℤ}
use pico_deck_eddiscovery.Base.Text.{atoi}
use pico_deck_eddiscovery.Display.Edd.Tokens.{
  Token, is_object, is_array, token_at, token_equals, skip_token, is_inside, find_key, copy_token,
  copy_key, copy_string_key, integer_key, bool_key,
}
use pico_deck_eddiscovery.Display.Edd.State.{EddState, edd_text, event_time_size}
use pico_deck_eddiscovery.Display.Edd.Route.{later_time}
use pico_deck_eddiscovery.Display.Edd.Journal.{parse_journal_route}

-- The fields do not read one another, so the assignments are one update.
unfoldable pub parse_status : Bytes → List Token → EddState → EddState
parse_status json tokens s =
    let top = some 0 in
    let system = find_key json tokens top (codes "SystemData") in
    let eddb = find_key json tokens top (codes "EDDB") in
    let ship = find_key json tokens top (codes "Ship") in
    let travel = find_key json tokens top (codes "Travel") in
    record s {
      system = copy_key json tokens system (codes "System") edd_text s.system;
      allegiance = copy_key json tokens eddb (codes "Allegiance") edd_text s.allegiance;
      economy = copy_key json tokens eddb (codes "Economy") edd_text s.economy;
      security = copy_key json tokens eddb (codes "Security") edd_text s.security;
      ship = copy_key json tokens ship (codes "Ship") edd_text s.ship;
      fuel = copy_key json tokens ship (codes "Fuel") edd_text s.fuel;
      tank_size = copy_key json tokens ship (codes "TankSize") edd_text s.tank_size;
      jump_range = copy_key json tokens ship (codes "Range") edd_text s.jump_range;
      cargo = copy_key json tokens ship (codes "Cargo") edd_text s.cargo;
      travel_dist = copy_key json tokens travel (codes "Dist") edd_text s.travel_dist;
      travel_jumps = copy_key json tokens travel (codes "Jumps") edd_text s.travel_jumps;
      travel_time = copy_key json tokens travel (codes "Time") edd_text s.travel_time;
      body = copy_key json tokens top (codes "Bodyname") edd_text s.body;
      station = copy_key json tokens top (codes "StationName") edd_text s.station;
      commander = copy_key json tokens top (codes "Commander") edd_text s.commander;
      mode = copy_key json tokens top (codes "Mode") edd_text s.mode;
      game_mode = copy_key json tokens top (codes "GameMode") edd_text s.game_mode;
      home_dist = copy_key json tokens top (codes "HomeDist") edd_text s.home_dist;
      sol_dist = copy_key json tokens top (codes "SolDist") edd_text s.sol_dist;
      credits = copy_key json tokens top (codes "Credits") edd_text s.credits;
      next_system =
          copy_string_key json tokens top (codes "FSDJumpNextSystemName") edd_text s.next_system;
      remaining_jumps = integer_key json tokens top (codes "RemainingJumps") s.remaining_jumps;
    }

-- The loop over the items of `Pips`: `n` rounds are left, the next slot is `i`.
unfoldable pub read_pips : Bytes → List Token → ℕ → ℕ → ℕ → ℕ → List ℤ → List ℤ
read_pips json tokens end zero i item pips = pips
read_pips json tokens end (suc n) i item pips =
    let rest =
      read_pips json tokens end n (suc i) (skip_token tokens item)
        (set pips i (atoi (copy_token json (token_at tokens item) 12))) in
    if is_inside tokens end item then rest else pips

unfoldable pub new_pips : Bytes → List Token → List ℤ → List ℤ
new_pips json tokens old =
    if not (bool_key json tokens (some 0) (codes "ValidPips") true)
    then pos 0 ∷ pos 0 ∷ pos 0 ∷ []
    else elim (find_key json tokens (some 0) (codes "Pips")) [
      | none ↦ old
      | some pips ↦
          if is_array (token_at tokens pips).type
          then read_pips json tokens (token_at tokens pips).end 3 0 (suc pips) old
          else old
    ]

unfoldable pub parse_indicator : Bytes → List Token → EddState → EddState
parse_indicator json tokens s =
    let top = some 0 in
    record s {
      mass_locked = bool_key json tokens top (codes "FsdMassLocked") s.mass_locked;
      shields_up = bool_key json tokens top (codes "ShieldsUp") s.shields_up;
      low_fuel = bool_key json tokens top (codes "LowFuel") s.low_fuel;
      overheat = bool_key json tokens top (codes "OverHeating") s.overheat;
      danger = bool_key json tokens top (codes "IsInDanger") s.danger;
      interdicted = bool_key json tokens top (codes "BeingInterdicted") s.interdicted;
      legal_state = copy_key json tokens top (codes "LegalState") edd_text s.legal_state;
      pips = new_pips json tokens s.pips;
    }

abbrev pub token_is : Bytes → List Token → Option ℕ → Bytes → Bool
token_is json tokens none text = false
token_is json tokens (some i) text = token_equals json (token_at tokens i) text

-- The branch for `FSDTarget`.
unfoldable pub live_target : Bytes → List Token → ℕ → Bytes → EddState → EddState
live_target json tokens target event_time s =
    let jumps =
      integer_key json tokens (some target) (codes "RemainingJumpsInRoute") s.remaining_jumps in
    record s {
      remaining_jumps = jumps;
      next_system =
          if eqb_ℤ jumps (pos 0)
          then []
          else copy_string_key json tokens (some target) (codes "StarSystem") edd_text
              s.next_system;
      route_event_time = later_time s.route_event_time event_time;
    }

-- The branch for `NavRouteClear`.
unfoldable pub live_clear : Bytes → EddState → EddState
live_clear event_time s = record s {
  remaining_jumps = negsuc 0;
  route_target = [];
  next_system = [];
  route_event_time = later_time s.route_event_time event_time;
}

unfoldable pub parse_generic_ui : Bytes → List Token → EddState → EddState
parse_generic_ui json tokens s =
    let body = find_key json tokens (some 0) (codes "data") in
    let event_time = copy_key json tokens body (codes "EventTimeUTC") event_time_size [] in
    if token_is json tokens (find_key json tokens body (codes "EventTypeID"))
      (codes "NavRouteClear")
    then live_clear event_time s
    else elim (find_key json tokens body (codes "FSDTarget")) [
      | none ↦ s
      | some target ↦ live_target json tokens target event_time s
    ]

-- The kinds of message by `responsetype`.
pub data Response : Type 0 where
  status indicator generic_ui journal unknown : Response

unfoldable pub response_kind : Bytes → Token → Response
response_kind json t =
    if token_equals json t (codes "status")
    then status
    else if token_equals json t (codes "indicator") || token_equals json t (codes "indicatorpush")
    then indicator
    else if token_equals json t (codes "genericui")
    then generic_ui
    else if token_equals json t (codes "journalrequest")
        || token_equals json t (codes "journalpush")
        || token_equals json t (codes "journalrefresh")
    then journal
    else unknown

unfoldable pub dispatch : Response → Bytes → List Token → EddState → Bool × EddState
dispatch status json tokens s = (true, parse_status json tokens s)
dispatch indicator json tokens s = (true, parse_indicator json tokens s)
dispatch generic_ui json tokens s = (true, parse_generic_ui json tokens s)
dispatch journal json tokens s = parse_journal_route json tokens s
dispatch unknown json tokens s = (false, s)

unfoldable pub count_recognized : Bool × EddState → Bool × EddState
count_recognized (true, s) = (true, record s { generation = u32 (s.generation + 1) })
count_recognized (false, s) = (false, s)

-- The tokens are what `jsmn_parse` filled in: none where it returned less than 1.
unfoldable pub handle_tokens : Bytes → List Token → EddState → Bool × EddState
handle_tokens json tokens s =
    if is_object (token_at tokens 0).type
    then elim (find_key json tokens (some 0) (codes "responsetype")) [
      | none ↦ (false, s)
      | some response ↦
          count_recognized (dispatch (response_kind json (token_at tokens response)) json tokens s)
    ]
    else (false, s)

-- `jsmn_parse` is the third-party parser with room for 512 tokens.
unfoldable pub edd_state_handle_json : (Bytes → List Token) → Bytes → EddState → Bool × EddState
edd_state_handle_json jsmn_parse json s =
    handle_tokens json (jsmn_parse json)
      (record s { messages_received = u32 (s.messages_received + 1) })
