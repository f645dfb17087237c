-- ===== src/Display/Device.antt =====
-- `main` of PicoDeck-ED-Display/src/main.c: the start, and the rounds of the main loop, in which the
-- client, the state of the game, the two inputs and the dashboard work together. `tud_task` and
-- `net_usb_task` run lwIP, whose callbacks are the steps of the WebSocket client between the rounds.
use pico_deck_eddiscovery.Base.{
  ℕ, Bool, false, ◌||◌, some, List, [], ◌∷◌, if◌then◌else◌, Bytes, codes,
}
use pico_deck_eddiscovery.WebSocket.Types.{ws_offline, Platform, Client, Callbacks, now_ms}
use pico_deck_eddiscovery.WebSocket.Reach.{Step}
use pico_deck_eddiscovery.EddjsonClient.{
  EddjsonConfig, Eddjson, eddjson_init, eddjson_task, eddjson_callbacks, request_status,
  request_indicator, request_recent_journal,
}
use pico_deck_eddiscovery.Display.Input.{
  DebouncedInput, debounced_input_init, debounced_input_pressed,
}
use pico_deck_eddiscovery.Display.Edd.Tokens.{Token}
use pico_deck_eddiscovery.Display.Edd.State.{EddState, edd_state_init}
use pico_deck_eddiscovery.Display.Edd.Messages.{edd_state_handle_json}
use pico_deck_eddiscovery.Display.Dashboard.{
  Dashboard, Blit, dashboard_init, dashboard_set_connection, dashboard_next_page, dashboard_task,
}
use pico_deck_eddiscovery.Display.Stripes.{calls}
use pico_deck_eddiscovery.Display.Redraw.{rounds}

pub record Device (W : Type 0) : Type 0 where
  pub client : Client W (Eddjson EddState)
  pub dashboard : Dashboard
  pub user_key : DebouncedInput
  pub touch : DebouncedInput

-- `on_websocket_message`; `jsmn_parse` is the third-party parser.
abbrev pub on_websocket_message : (Bytes → List Token) → Bytes → EddState → EddState
on_websocket_message jsmn_parse json s = (edd_state_handle_json jsmn_parse json s).1

-- `eddjson_config`, with the text of `net_usb_host_ip`.
abbrev pub eddjson_config : Bytes → EddjsonConfig
eddjson_config host_ip = record {
  host = some host_ip;
  port = 6502;
  websocket_key = some (codes "UGljb0RlY2tFRERpc3BsYQ==");
  ping_payload = some (codes "ED");
  initial_requests =
      some (some request_status ∷ some request_indicator ∷ some request_recent_journal ∷ []);
  initial_request_count = 3;
  periodic_request = some request_recent_journal;
  periodic_interval_ms = 10000;
}

-- What a round reads: `network_ok && net_usb_ready()`, the levels of the two pins, and the clock behind
-- the client's task.
pub record Inputs : Type 0 where
  pub ready : Bool
  pub user_level : Bool
  pub touch_level : Bool

module _ {W : Type 0} (p : Platform W) (jsmn_parse : Bytes → List Token) where
  abbrev pub device_callbacks : Callbacks W (Eddjson EddState)
  device_callbacks = eddjson_callbacks p (on_websocket_message jsmn_parse)

  -- `main` up to its loop. The dashboard is drawn once before the client starts; `times` are those of its
  -- fourteen calls, and `now` is when the two inputs are first read.
  unfoldable pub device_start :
      Bytes → List ℕ → ℕ → Bool → Bool → Client W (Eddjson EddState) → Dashboard → Device W
  device_start host_ip times now user_level touch_level c d = record {
    client =
        eddjson_init (eddjson_config host_ip)
          (record c { app = record (c.app) { application = edd_state_init } });
    dashboard =
        (calls (rounds edd_state_init times)
          (dashboard_set_connection false ws_offline (dashboard_init edd_state_init d))).0;
    user_key = debounced_input_init user_level now;
    touch = debounced_input_init touch_level now;
  }

  -- One round of the loop, and the stripe that it draws.
  unfoldable pub main_round : Inputs → Device W → Device W × Blit
  main_round i s =
      let c = eddjson_task p i.ready s.client in
      let now = now_ms p c.world in
      let key = debounced_input_pressed i.user_level now s.user_key in
      let touched = debounced_input_pressed i.touch_level now s.touch in
      let page = if key.0 || touched.0 then dashboard_next_page now s.dashboard else s.dashboard in
      let r =
        dashboard_task c.app.application now (dashboard_set_connection i.ready c.state page) in
      (record { client = c; dashboard = r.0; user_key = key.1; touch = touched.1 }, r.1)

  -- A step of the device: something happens to the client between the rounds, or a round.
  pub data DeviceStep : Device W → Device W → Type 0 where
    between :
        {c : Client W (Eddjson EddState)} (s : Device W)
        → Step p device_callbacks s.client c
        → DeviceStep s (record s { client = c })
    looped : (i : Inputs) (s : Device W) → DeviceStep s (main_round i s).0

  pub data DeviceReach (start : Device W) : Device W → Type 0 where
    begun : DeviceReach start start
    further : {s t : Device W} → DeviceReach start s → DeviceStep s t → DeviceReach start t
