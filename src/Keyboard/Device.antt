-- ===== src/Keyboard/Device.antt =====
-- `main` of PicoDeck-ED-Keyboard/src/main.c: the rounds of its loop, in which the client, the lit buttons,
-- the touches and the drawing work together, with what the panel shows. `tud_task` and `net_usb_task` run
-- lwIP, whose callbacks are the steps of the WebSocket client between the rounds.
use pico_deck_eddiscovery.Base.{
  ℕ, zero, suc, Bool, true, false, Option, none, some, List, [], ◌∷◌, ◌++◌, if◌then◌else◌, Bytes,
  codes,
}
use pico_deck_eddiscovery.WebSocket.Types.{Platform, Client, Callbacks, now_ms}
use pico_deck_eddiscovery.WebSocket.Client.{state_name}
use pico_deck_eddiscovery.WebSocket.Reach.{Step}
use pico_deck_eddiscovery.EddjsonClient.{
  EddjsonConfig, Eddjson, eddjson_init, eddjson_task, eddjson_callbacks, request_indicator,
}
use pico_deck_eddiscovery.Keyboard.Board.{color_black}
use pico_deck_eddiscovery.Keyboard.Buttons.{g_button_count}
use pico_deck_eddiscovery.Keyboard.EddButtons.{edd_button_active, on_websocket_message}
use pico_deck_eddiscovery.Keyboard.Press.{Press, Poll, Effect, initial, round}
use pico_deck_eddiscovery.Keyboard.Main.{Startup, startup_round, render_one_dirty_button}
use pico_deck_eddiscovery.Keyboard.Ui.Screen.{Blit, ui_render_button, after_blits}
use pico_deck_eddiscovery.Keyboard.Ui.Startup.{ui_render_startup}
use Effect.{render_pressed, render_idle}

-- The application's state is `s_dirty_buttons` and `s_active_mask`. `panel` is the colors that the panel
-- shows, by column and row.
pub record Device (W : Type 0) : Type 0 where
  pub client : Client W (Eddjson (ℕ × ℕ))
  pub startup : Startup
  pub press : Press
  pub panel : ℕ → ℕ → ℕ

-- What a round reads: `network_ok && net_usb_ready()`, `tud_mounted()`, and the poll of the panel.
pub record Inputs : Type 0 where
  pub ready : Bool
  pub hid_ready : Bool
  pub poll : Poll

abbrev pub eddjson_config : Bytes → EddjsonConfig
eddjson_config host_ip = record {
  host = some host_ip;
  port = 6502;
  websocket_key = some (codes "UGljb0RlY2tLZXlib2FyZA==");
  ping_payload = some (codes "KB");
  initial_requests = some (some request_indicator ∷ []);
  initial_request_count = 1;
  periodic_request = some request_indicator;
  periodic_interval_ms = 10000;
}

-- `main` up to its loop: `ui_init` has filled the panel with black, and the start-up screen is drawn
-- once. `now` is when the loop begins; no button is dirty and none is lit.
unfoldable pub device_start : {W : Type 0} → Bytes → ℕ → Client W (Eddjson (ℕ × ℕ)) → Device W
device_start host_ip now c = record {
  client =
      eddjson_init (eddjson_config host_ip)
        (record c { app = record (c.app) { application = (0, 0) } });
  startup = record {
    keyboard_visible = false;
    startup_at = now;
    connected_at = 0;
    last_hid_ready = false;
    last_network_ready = false;
    last_websocket = none;
  };
  press = initial;
  panel =
      after_blits (ui_render_startup false false (some (codes "STARTING"))) (λ x y. color_black);
}

module _ (icons : ℕ → Bool → Bytes) where
  -- The loop of `render_keyboard` from index `i`, with `n` buttons left.
  unfoldable pub keyboard_from : ℕ → ℕ → ℕ → List Blit
  keyboard_from active_mask zero i = []
  keyboard_from active_mask (suc n) i =
      ui_render_button icons i (edd_button_active active_mask i)
      ++ keyboard_from active_mask n (suc i)

  abbrev pub render_keyboard : ℕ → List Blit
  render_keyboard active_mask = keyboard_from active_mask g_button_count 0

  -- The drawing among the effects of a round.
  unfoldable pub draw_effects : ℕ → List Effect → (ℕ → ℕ → ℕ) → ℕ → ℕ → ℕ
  draw_effects active_mask [] panel = panel
  draw_effects active_mask (render_pressed b ∷ es) panel =
      draw_effects active_mask es (after_blits (ui_render_button icons b true) panel)
  draw_effects active_mask (render_idle b ∷ es) panel =
      draw_effects active_mask es
        (after_blits (ui_render_button icons b (edd_button_active active_mask b)) panel)
  draw_effects active_mask (_ ∷ es) panel = draw_effects active_mask es panel

  abbrev pub draw_dirty : Option (ℕ × Bool) → (ℕ → ℕ → ℕ) → ℕ → ℕ → ℕ
  draw_dirty none panel = panel
  draw_dirty (some (i, active)) panel = after_blits (ui_render_button icons i active) panel

module _ {W : Type 0} (icons : ℕ → Bool → Bytes) where
  abbrev set_dirty : ℕ × ℕ → Client W (Eddjson (ℕ × ℕ)) → Client W (Eddjson (ℕ × ℕ))
  set_dirty marks c = record c { app = record (c.app) { application = marks } }

  -- The round behind the start-up screen: touches, then one dirty button.
  unfoldable pub keyboard_round : Poll → Device W → Device W
  keyboard_round i s =
      let marks = s.client.app.application in
      let r = round i s.press in
      let d = render_one_dirty_button marks.1 marks.0 r.0.active_button in
      record s {
        client = set_dirty (d.1, marks.1) s.client;
        press = r.0;
        panel = draw_dirty icons d.0 (draw_effects icons marks.1 r.1 s.panel);
      }

  -- `render_keyboard` when the buttons appear.
  unfoldable pub appear : Device W → Device W
  appear s =
      let marks = s.client.app.application in
      record s {
        client = set_dirty (0, marks.1) s.client;
        panel = after_blits (render_keyboard icons marks.1) s.panel;
      }

  -- The three ways through a round: buttons on the panel, the start-up screen, and the change.
  abbrev pub continued : Bool → Bool → Poll → Device W → Device W
  continued true after i s = keyboard_round i s
  continued false true i s = keyboard_round i (appear s)
  continued false false i s = s

module _ {W : Type 0} (p : Platform W) (icons : ℕ → Bool → Bytes) where
  abbrev pub device_callbacks : Callbacks W (Eddjson (ℕ × ℕ))
  device_callbacks = eddjson_callbacks p on_websocket_message

  unfoldable pub main_round : Inputs → Device W → Device W
  main_round i s =
      let c = eddjson_task p i.ready s.client in
      let r = startup_round i.hid_ready i.ready c.state (now_ms p c.world) s.startup in
      let status = ui_render_startup i.hid_ready i.ready (some (state_name c.state)) in
      continued icons s.startup.keyboard_visible r.0.keyboard_visible i.poll (record s {
        client = c;
        startup = r.0;
        panel = if r.1 then after_blits status s.panel else s.panel;
      })

  -- A step of the device: something happens to the client between the rounds, or a round.
  pub data DeviceStep : Device W → Device W → Type 0 where
    between :
        {c : Client W (Eddjson (ℕ × ℕ))} (s : Device W)
        → Step p device_callbacks s.client c
        → DeviceStep s (record s { client = c })
    looped : (i : Inputs) (s : Device W) → DeviceStep s (main_round i s)

  pub data DeviceReach (start : Device W) : Device W → Type 0 where
    begun : DeviceReach start start
    further : {s t : Device W} → DeviceReach start s → DeviceStep s t → DeviceReach start t
