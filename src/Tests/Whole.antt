-- ===== src/Tests/Whole.antt =====
-- A run of the display from its start, at which the theorems about the whole devices apply.
use pico_deck_eddiscovery.Base.{
  ℕ, ◌≡◌, refl, Bool, true, false, none, some, List, [], ◌∷◌, ◌++◌, Bytes, codes, arith,
}
use pico_deck_eddiscovery.WebSocket.Types.{ws_offline, ws_open, Client}
use pico_deck_eddiscovery.WebSocket.Send.{schedule_retry, close_connection}
use pico_deck_eddiscovery.WebSocket.Client.{task, connect_now, open_pcb}
use pico_deck_eddiscovery.EddjsonClient.{Eddjson, eddjson_init, eddjson_task}
use pico_deck_eddiscovery.Display.Edd.Tokens.{Token}
use pico_deck_eddiscovery.Display.Edd.State.{EddState, edd_state_init}
use pico_deck_eddiscovery.Display.Stripes.{fits}
use pico_deck_eddiscovery.Display.Device.{
  Device, Inputs, eddjson_config, device_callbacks, device_start, main_round, looped, begun,
  further,
}
use pico_deck_eddiscovery.Display.Whole.{IsSoundDevice, DeviceReach-IsSoundDevice}
use pico_deck_eddiscovery.Keyboard.Device
use pico_deck_eddiscovery.Keyboard.Whole.{panel_shows_buttons}
use pico_deck_eddiscovery.Keyboard.Fresh.{current}
use pico_deck_eddiscovery.Keyboard.Lit.{has_bit}
use pico_deck_eddiscovery.Keyboard.Main.{startup_round, render_one_dirty_button}
use pico_deck_eddiscovery.Keyboard.Ui.Shows.{button_color}
use pico_deck_eddiscovery.Tests.WebSocket.{World, platform}
use pico_deck_eddiscovery.WebSocket.ServerText.{server_text}
use pico_deck_eddiscovery.WebSocket.Arrival.{receive_all}
use pico_deck_eddiscovery.Display.Edd.Tree.{tokens_of}
use pico_deck_eddiscovery.Display.Edd.Document.{handle_document}
use pico_deck_eddiscovery.Display.Message.{message_updates_state}
use pico_deck_eddiscovery.Tests.Document.{message, tree, tree-IsLaid}
use pico_deck_eddiscovery.Tests.Display.{blank, times}

-- The statics before `main`.
abbrev statics : Client World (Eddjson EddState)
statics = record {
  connected = false;
  config = record {
    host = none;
    port = 0;
    path = none;
    protocol = none;
    key = none;
    ping_payload = none;
    ping_interval_ms = 0;
    idle_timeout_ms = 0;
    connect_timeout_ms = 0;
  };
  state = ws_offline;
  rx = [];
  message = [];
  fragment_opcode = 0;
  messages = 0;
  last_rx_ms = 0;
  last_ping_ms = 0;
  retry_at_ms = 0;
  retry_delay_ms = 0;
  world = (0, []);
  app = record {
    config = eddjson_config [];
    last_periodic_request_ms = 0;
    application = edd_state_init;
  };
}

abbrev no_tokens : Bytes → List Token
no_tokens json = []

abbrev started : Device World
started = device_start platform no_tokens (codes "192.168.7.2") times 20 true true statics blank

-- The page button goes down.
abbrev pressed : Inputs
pressed = record { ready = true; user_level = false; touch_level = true }

abbrev later : Device World
later = (main_round platform no_tokens pressed started).0

DeviceReach-IsSoundDevice_example :
    IsSoundDevice platform later × (fits (main_round platform no_tokens pressed later).1 ≡ true)
DeviceReach-IsSoundDevice_example =
    DeviceReach-IsSoundDevice platform no_tokens (codes "192.168.7.2") times 20 true true statics
      blank pressed refl (further begun (looped pressed started))

-- The display with its connection open, and the message of `Tests.Document` in two segments.
abbrev listening : Client World (Eddjson EddState)
listening = record statics { connected = true; state = ws_open }

two_segments : (129 ∷ []) ++ 55 ∷ message ≡ server_text message
unfolding server_text
two_segments = refl

message_updates_state_example :
    let r =
      receive_all platform
        (device_callbacks platform (λ json. tokens_of tree))
        ((129 ∷ []) ∷ (55 ∷ message) ∷ [])
        listening in
    (r.0 ≡ true)
    × (r.1.app.application ≡ (handle_document message tree edd_state_init).1)
    × (r.1.rx ≡ [])
    × (r.1.state ≡ ws_open)
    × (r.1.fragment_opcode ≡ 0)
message_updates_state_example =
    message_updates_state platform (λ json. tokens_of tree) ((129 ∷ []) ∷ []) (55 ∷ message) message
      tree listening refl refl (omega arith) (omega arith) (omega arith) two_segments refl
      tree-IsLaid

-- The keyboard before its loop, with a touch on the first button.
abbrev key_client : Client World (Eddjson (ℕ × ℕ))
key_client = record {
  connected = false;
  config = statics.config;
  state = ws_offline;
  rx = [];
  message = [];
  fragment_opcode = 0;
  messages = 0;
  last_rx_ms = 0;
  last_ping_ms = 0;
  retry_at_ms = 0;
  retry_delay_ms = 1000;
  world = (20000000, []);
  app = record {
    config = Device.eddjson_config (codes "192.168.8.2");
    last_periodic_request_ms = 0;
    application = (0, 0);
  };
}

abbrev keyboard : Device.Device World
keyboard = Device.device_start (codes "192.168.8.2") 0 key_client

abbrev touch_first : Device.Inputs
touch_first = record {
  ready = true;
  hid_ready = true;
  poll = record { touch = some (10, 10); now_us = 5; hid_accepts = true };
}

abbrev no_icons : ℕ → Bool → Bytes
no_icons index active = []

abbrev appeared : Device.Device World
appeared = Device.main_round platform no_icons touch_first keyboard

visible : appeared.startup.keyboard_visible ≡ true
unfolding Device.main_round Device.device_start eddjson_init startup_round Device.appear
    Device.keyboard_round eddjson_task task connect_now open_pcb schedule_retry close_connection
visible = refl

clean : has_bit 0 appeared.client.app.application.0 ≡ false
unfolding Device.main_round Device.device_start eddjson_init startup_round Device.appear
    Device.keyboard_round eddjson_task render_one_dirty_button task connect_now open_pcb
    schedule_retry close_connection
clean = refl

panel_shows_buttons_example :
    appeared.panel 40 30
    ≡ button_color no_icons
        (current appeared.client.app.application.1 appeared.press.active_button 0)
        40
        30
panel_shows_buttons_example =
    panel_shows_buttons platform no_icons (codes "192.168.8.2") 0 key_client appeared 40 30
      (Device.further Device.begun (Device.looped touch_first keyboard)) visible (omega arith)
      (omega arith) clean
