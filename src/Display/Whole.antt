-- ===== src/Display/Whole.antt =====
-- What holds of the whole display in every state that PicoDeck-ED-Display/src/main.c can reach.
use pico_deck_eddiscovery.Base.{
  ℕ, ◌≡◌, sym, subst, Bool, true, false, ◌||◌, List, [], ◌∷◌, if◌then◌else◌, Bytes, arith,
}
use pico_deck_eddiscovery.WebSocket.Types.{ws_offline, Platform, Client, Callbacks, now_ms}
use pico_deck_eddiscovery.WebSocket.Validity.{IsValid}
use pico_deck_eddiscovery.WebSocket.Client.{init}
use pico_deck_eddiscovery.WebSocket.Reach.{here, Step-IsValid}
use pico_deck_eddiscovery.WebSocket.Application.{AppKeeps, Step-keeps}
use pico_deck_eddiscovery.EddjsonClient.{Eddjson, eddjson_init, eddjson_task}
use pico_deck_eddiscovery.EddjsonClient.Reach.{eddjson-OpenedKeeps, eddjson_init-IsValid}
use pico_deck_eddiscovery.EddjsonClient.Application.{
  eddjson_task-IsValid, eddjson_task-application, eddjson_callbacks-AppKeeps,
}
use pico_deck_eddiscovery.Display.Edd.Tokens.{Token}
use pico_deck_eddiscovery.Display.Edd.State.{EddState, edd_state_init}
use pico_deck_eddiscovery.Display.Edd.Bounds.{TextsFit}
use pico_deck_eddiscovery.Display.Edd.Handled.{handle_json-TextsFit}
use pico_deck_eddiscovery.Display.Dashboard.{
  Dashboard, dashboard_init, dashboard_set_connection, dashboard_next_page, dashboard_task,
}
use pico_deck_eddiscovery.Display.Stripes.{
  is_sound, fits, Call, call, calls, call_sound, next_page, connection, round,
}
use pico_deck_eddiscovery.Display.Redraw.{rounds}
use pico_deck_eddiscovery.Display.Input.{debounced_input_pressed}
use pico_deck_eddiscovery.Display.Device.{
  Device, Inputs, eddjson_config, on_websocket_message, device_callbacks, device_start, main_round,
  DeviceStep, DeviceReach, between, looped, begun, further,
}

-- The client's state is well formed, the texts of the game's state fit their arrays, and the dashboard's
-- next stripe and page are in range.
pub record IsSoundDevice {W : Type 0} (p : Platform W) (s : Device W) : Type 0 where
  pub client_valid : IsValid p s.client
  pub texts_fit : TextsFit s.client.app.application
  pub dashboard_sound : is_sound s.dashboard ≡ true

-- The texts start empty.
initial_fit : TextsFit edd_state_init
initial_fit = ground arith

start_sound :
    (d : Dashboard)
    → d.page ≡ 0
    → is_sound (dashboard_set_connection false ws_offline (dashboard_init edd_state_init d)) ≡ true
unfolding dashboard_set_connection dashboard_init
start_sound d h = ground (arith, h)

calls_sound :
    (times : List ℕ) (d : Dashboard)
    → is_sound d ≡ true
    → is_sound (calls (rounds edd_state_init times) d).0 ≡ true
calls_sound [] d h = h
calls_sound (now ∷ times) d h =
    calls_sound times (dashboard_task edd_state_init now d).0
      (call_sound (round edd_state_init now) d h).0

module _ {W : Type 0} (p : Platform W) (jsmn_parse : Bytes → List Token) where
  abbrev cbs : Callbacks W (Eddjson EddState)
  cbs = device_callbacks p jsmn_parse

  abbrev AppFits : Eddjson EddState → Type 0
  AppFits e = TextsFit e.application

  callbacks_keep : AppKeeps AppFits cbs
  callbacks_keep =
      eddjson_callbacks-AppKeeps p (on_websocket_message jsmn_parse) TextsFit
        (handle_json-TextsFit jsmn_parse)

  page_sound :
      (pressed : Bool) (now : ℕ) (d : Dashboard)
      → is_sound d ≡ true
      → is_sound (if pressed then dashboard_next_page now d else d) ≡ true
  page_sound true now d h = (call_sound (next_page now) d h).0
  page_sound false now d h = h

  main_round-IsSoundDevice :
      (i : Inputs) (s : Device W)
      → IsSoundDevice p s
      → IsSoundDevice p (main_round p jsmn_parse i s).0
        × (fits (main_round p jsmn_parse i s).1 ≡ true)
  unfolding main_round
  main_round-IsSoundDevice i s v = (
    record {
      client_valid =
          eddjson_task-IsValid p (on_websocket_message jsmn_parse) i.ready s.client v.client_valid;
      texts_fit =
          subst TextsFit
            (sym (eddjson_task-application p (on_websocket_message jsmn_parse) i.ready s.client))
            v.texts_fit;
      dashboard_sound = drawn.0;
    },
    drawn.1,
  )
    where
      now : ℕ
      now = now_ms p (eddjson_task p i.ready s.client).world

      page : Dashboard
      page =
          if (debounced_input_pressed i.user_level now s.user_key).0
            || (debounced_input_pressed i.touch_level now s.touch).0
          then dashboard_next_page now s.dashboard
          else s.dashboard

      drawing : Call
      drawing = round (eddjson_task p i.ready s.client).app.application now

      connected : Dashboard
      connected = dashboard_set_connection i.ready (eddjson_task p i.ready s.client).state page

      drawn :
          (is_sound (call drawing connected).0 ≡ true) × (fits (call drawing connected).1 ≡ true)
      drawn =
          call_sound drawing connected
            (call_sound (connection i.ready (eddjson_task p i.ready s.client).state) page (
              page_sound
                ((debounced_input_pressed i.user_level now s.user_key).0
                  || (debounced_input_pressed i.touch_level now s.touch).0)
                now s.dashboard v.dashboard_sound)).0

  DeviceStep-IsSoundDevice :
      {s t : Device W} → DeviceStep p jsmn_parse s t → IsSoundDevice p s → IsSoundDevice p t
  DeviceStep-IsSoundDevice (between s step) v = record {
    client_valid =
        Step-IsValid p cbs (eddjson-OpenedKeeps p (on_websocket_message jsmn_parse)) step
          v.client_valid;
    texts_fit = Step-keeps p AppFits cbs callbacks_keep step v.texts_fit;
    dashboard_sound = v.dashboard_sound;
  }
  DeviceStep-IsSoundDevice (looped i s) v = (main_round-IsSoundDevice i s v).0

  device_start-IsSoundDevice :
      (host_ip : Bytes) (times : List ℕ) (now : ℕ) (user_level touch_level : Bool)
      (c : Client W (Eddjson EddState)) (d : Dashboard)
      → d.page ≡ 0
      → IsSoundDevice p (device_start p jsmn_parse host_ip times now user_level touch_level c d)
  unfolding device_start eddjson_init init
  device_start-IsSoundDevice host_ip times now user_level touch_level c d h = record {
    client_valid =
        eddjson_init-IsValid p (on_websocket_message jsmn_parse) (eddjson_config host_ip)
          (record c { app = record (c.app) { application = edd_state_init } }) here;
    texts_fit = initial_fit;
    dashboard_sound =
        calls_sound times
          (dashboard_set_connection false ws_offline (dashboard_init edd_state_init d))
          (start_sound d h);
  }

  -- Whatever messages, errors, presses and times come, in whatever order: from the start of `main`, the
  -- client's buffers, state and retry delay are well formed, no text of the game's state is longer than
  -- its array, the dashboard's page and next stripe are in range, and each round's stripe lies on the
  -- panel and in the buffer. The statics start as 0.
  pub DeviceReach-IsSoundDevice :
      (host_ip : Bytes) (times : List ℕ) (now : ℕ) (user_level touch_level : Bool)
      (c : Client W (Eddjson EddState)) (d : Dashboard) {s : Device W} (i : Inputs)
      → d.page ≡ 0
      → DeviceReach p jsmn_parse
          (device_start p jsmn_parse host_ip times now user_level touch_level c d)
          s
      → IsSoundDevice p s × (fits (main_round p jsmn_parse i s).1 ≡ true)
  DeviceReach-IsSoundDevice host_ip times now user_level touch_level c d {s} i h r =
      (sound r, (main_round-IsSoundDevice i s (sound r)).1)
    where
      sound :
          {t : Device W}
          → DeviceReach p jsmn_parse
              (device_start p jsmn_parse host_ip times now user_level touch_level c d)
              t
          → IsSoundDevice p t
      sound begun = device_start-IsSoundDevice host_ip times now user_level touch_level c d h
      sound (further r step) = DeviceStep-IsSoundDevice step (sound r)
