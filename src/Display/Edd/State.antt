-- ===== src/Display/Edd/State.antt =====
-- `edd_state_t` of PicoDeck-ED-Display/src/edd_state.h: a text is the list of the bytes before its
-- NUL.
use pico_deck_eddiscovery.Base.{ℕ, Bool, false, List, [], ◌∷◌, Bytes}
use pico_deck_eddiscovery.Base.Int.{ℤ, pos, negsuc}

abbrev pub edd_text : ℕ
edd_text = 80

abbrev pub event_time_size : ℕ
event_time_size = 32

pub record EddState : Type 0 where
  pub system : Bytes
  pub body : Bytes
  pub station : Bytes
  pub ship : Bytes
  pub commander : Bytes
  pub mode : Bytes
  pub game_mode : Bytes
  pub route_target : Bytes
  pub route_event_time : Bytes
  pub next_system : Bytes
  pub fuel : Bytes
  pub tank_size : Bytes
  pub jump_range : Bytes
  pub cargo : Bytes
  pub travel_dist : Bytes
  pub travel_jumps : Bytes
  pub travel_time : Bytes
  pub home_dist : Bytes
  pub sol_dist : Bytes
  pub credits : Bytes
  pub allegiance : Bytes
  pub economy : Bytes
  pub security : Bytes
  pub legal_state : Bytes
  pub remaining_jumps : ℤ
  pub pips : List ℤ
  pub shields_up : Bool
  pub mass_locked : Bool
  pub low_fuel : Bool
  pub overheat : Bool
  pub danger : Bool
  pub interdicted : Bool
  pub generation : ℕ
  pub messages_received : ℕ

-- `edd_state_init`
abbrev pub edd_state_init : EddState
edd_state_init = record {
  system = [];
  body = [];
  station = [];
  ship = [];
  commander = [];
  mode = [];
  game_mode = [];
  route_target = [];
  route_event_time = [];
  next_system = [];
  fuel = [];
  tank_size = [];
  jump_range = [];
  cargo = [];
  travel_dist = [];
  travel_jumps = [];
  travel_time = [];
  home_dist = [];
  sol_dist = [];
  credits = [];
  allegiance = [];
  economy = [];
  security = [];
  legal_state = [];
  remaining_jumps = negsuc 0;
  pips = pos 0 ∷ pos 0 ∷ pos 0 ∷ [];
  shields_up = false;
  mass_locked = false;
  low_fuel = false;
  overheat = false;
  danger = false;
  interdicted = false;
  generation = 0;
  messages_received = 0;
}
