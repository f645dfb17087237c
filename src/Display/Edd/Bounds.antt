-- ===== src/Display/Edd/Bounds.antt =====
-- No text of PicoDeck-ED-Display/src/edd_state.c is longer than its array: every copy is bounded, and
-- every `strcpy` is between arrays of one size.
use mathlib.Core.List.{reverse}
use pico_deck_eddiscovery.Base.{
  ℕ, zero, suc, ◌-◌, ◌≤◌, ◌<◌, Option, some, List, [], ◌∷◌, arith, length, Bytes, codes,
  Option-cases, inl, inr,
}
use pico_deck_eddiscovery.Base.Int.{ℤ}
use pico_deck_eddiscovery.Display.Edd.Tokens.{
  Token, token_at, slice, find_key, array_item, next_char, copy_chars, copy_token, copy_key,
  copy_string_key, copy_array_text,
}
use pico_deck_eddiscovery.Display.Edd.State.{EddState, edd_text, event_time_size}
use pico_deck_eddiscovery.Display.Edd.Journal.{
  trim_left, copy_route_segment, destination_of, next_stop, skip_segments, first_segment,
}
use pico_deck_eddiscovery.Display.Edd.Messages.{
  parse_status, parse_indicator, live_target, live_clear,
}

copy_chars-fits : (room : ℕ) (bytes : Bytes) → length (copy_chars room bytes) ≤ room
unfolding copy_chars
copy_chars-fits zero bytes = omega arith
copy_chars-fits (suc room) [] = omega arith
copy_chars-fits (suc room) (c ∷ cs) = omega (arith, copy_chars-fits room (next_char c cs).1)

copy_token-fits :
    (json : Bytes) (t : Token) (capacity : ℕ)
    → 0 < capacity
    → length (copy_token json t capacity) < capacity
unfolding copy_token
copy_token-fits json t capacity h = omega (arith, copy_chars-fits (capacity - 1) (slice json t))

pub copy_key-fits :
    (json : Bytes) (tokens : List Token) (object : Option ℕ) (key : Bytes) {capacity : ℕ}
    (old : Bytes)
    → length old < capacity
    → length (copy_key json tokens object key capacity old) < capacity
unfolding copy_key
copy_key-fits json tokens object key {capacity} old h =
    elim (Option-cases (find_key json tokens object key)) [
      | inl e ↦ rw (e, copy_key) h
      | inr (value, e) ↦
          rw (e, copy_key) (copy_token-fits json (token_at tokens value) capacity (omega arith))
    ]

copy_string_key-fits :
    (json : Bytes) (tokens : List Token) (object : Option ℕ) (key : Bytes) {capacity : ℕ}
    (old : Bytes)
    → length old < capacity
    → length (copy_string_key json tokens object key capacity old) < capacity
unfolding copy_string_key
copy_string_key-fits json tokens object key {capacity} old h =
    elim (Option-cases (find_key json tokens object key)) [
      | inl e ↦ rw (e, copy_string_key) h
      | inr (value, e) ↦
          rw (e, copy_string_key)
            (ground (arith, copy_token-fits json (token_at tokens value) capacity (omega arith)))
    ]

pub copy_array_text-fits :
    (json : Bytes) (tokens : List Token) (row column : ℕ) {capacity : ℕ} (old : Bytes)
    → length old < capacity
    → length (copy_array_text json tokens row column capacity old) < capacity
unfolding copy_array_text
copy_array_text-fits json tokens row column {capacity} old h =
    elim (Option-cases (array_item tokens row column)) [
      | inl e ↦ rw (e, copy_array_text) h
      | inr (value, e) ↦
          rw (e, copy_array_text)
            (copy_token-fits json (token_at tokens value) capacity (omega arith))
    ]

copy_route_segment-fits :
    (segment : Bytes) → length (copy_route_segment segment edd_text) < edd_text
unfolding copy_route_segment
copy_route_segment-fits segment =
    omega (arith, copy_chars-fits 79 (reverse (trim_left (reverse (trim_left segment)))))

pub destination_of-fits : (text : Bytes) → length (destination_of text) < edd_text
unfolding destination_of
destination_of-fits text = copy_route_segment-fits _

pub next_stop-fits :
    (completed remaining : ℕ) (text : Bytes)
    → length (next_stop completed remaining text) < edd_text
unfolding next_stop
next_stop-fits completed remaining text =
    ground (arith, copy_route_segment-fits (first_segment (skip_segments completed text)))

-- Each text leaves room for its NUL.
pub record TextsFit (s : EddState) : Type 0 where
  pub system : length s.system < edd_text
  pub body : length s.body < edd_text
  pub station : length s.station < edd_text
  pub ship : length s.ship < edd_text
  pub commander : length s.commander < edd_text
  pub mode : length s.mode < edd_text
  pub game_mode : length s.game_mode < edd_text
  pub route_target : length s.route_target < edd_text
  pub next_system : length s.next_system < edd_text
  pub fuel : length s.fuel < edd_text
  pub tank_size : length s.tank_size < edd_text
  pub jump_range : length s.jump_range < edd_text
  pub cargo : length s.cargo < edd_text
  pub travel_dist : length s.travel_dist < edd_text
  pub travel_jumps : length s.travel_jumps < edd_text
  pub travel_time : length s.travel_time < edd_text
  pub home_dist : length s.home_dist < edd_text
  pub sol_dist : length s.sol_dist < edd_text
  pub credits : length s.credits < edd_text
  pub allegiance : length s.allegiance < edd_text
  pub economy : length s.economy < edd_text
  pub security : length s.security < edd_text
  pub legal_state : length s.legal_state < edd_text
  pub route_event_time : length s.route_event_time < event_time_size

pub parse_status-fits :
    (json : Bytes) (tokens : List Token) (s : EddState)
    → TextsFit s
    → TextsFit (parse_status json tokens s)
unfolding parse_status
parse_status-fits json tokens s v = record {
  system = copy_key-fits json tokens _ _ _ v.system;
  body = copy_key-fits json tokens _ _ _ v.body;
  station = copy_key-fits json tokens _ _ _ v.station;
  ship = copy_key-fits json tokens _ _ _ v.ship;
  commander = copy_key-fits json tokens _ _ _ v.commander;
  mode = copy_key-fits json tokens _ _ _ v.mode;
  game_mode = copy_key-fits json tokens _ _ _ v.game_mode;
  route_target = v.route_target;
  next_system = copy_string_key-fits json tokens _ _ _ v.next_system;
  fuel = copy_key-fits json tokens _ _ _ v.fuel;
  tank_size = copy_key-fits json tokens _ _ _ v.tank_size;
  jump_range = copy_key-fits json tokens _ _ _ v.jump_range;
  cargo = copy_key-fits json tokens _ _ _ v.cargo;
  travel_dist = copy_key-fits json tokens _ _ _ v.travel_dist;
  travel_jumps = copy_key-fits json tokens _ _ _ v.travel_jumps;
  travel_time = copy_key-fits json tokens _ _ _ v.travel_time;
  home_dist = copy_key-fits json tokens _ _ _ v.home_dist;
  sol_dist = copy_key-fits json tokens _ _ _ v.sol_dist;
  credits = copy_key-fits json tokens _ _ _ v.credits;
  allegiance = copy_key-fits json tokens _ _ _ v.allegiance;
  economy = copy_key-fits json tokens _ _ _ v.economy;
  security = copy_key-fits json tokens _ _ _ v.security;
  legal_state = v.legal_state;
  route_event_time = v.route_event_time;
}

pub parse_indicator-fits :
    (json : Bytes) (tokens : List Token) (s : EddState)
    → TextsFit s
    → TextsFit (parse_indicator json tokens s)
unfolding parse_indicator
parse_indicator-fits json tokens s v =
    ground
      (arith, copy_key-fits json tokens (some 0) (codes "LegalState") s.legal_state v.legal_state)

pub route-fits :
    (s : EddState) (target stop time : Bytes) (jumps : ℤ)
    → length target < edd_text
    → length stop < edd_text
    → length time < event_time_size
    → TextsFit s
    → TextsFit (record s {
      remaining_jumps = jumps;
      route_target = target;
      next_system = stop;
      route_event_time = time;
    })
route-fits s target stop time jumps a b c v = ground arith

pub live_target-fits :
    (json : Bytes) (tokens : List Token) (target : ℕ) (event_time : Bytes) (s : EddState)
    → length event_time < event_time_size
    → TextsFit s
    → TextsFit (live_target json tokens target event_time s)
unfolding live_target
live_target-fits json tokens target event_time s h v = ground (
  arith,
  copy_string_key-fits json tokens (some target) (codes "StarSystem") s.next_system v.next_system,
)

pub live_clear-fits :
    (event_time : Bytes) (s : EddState)
    → length event_time < event_time_size
    → TextsFit s
    → TextsFit (live_clear event_time s)
unfolding live_clear
live_clear-fits event_time s h v = ground arith
