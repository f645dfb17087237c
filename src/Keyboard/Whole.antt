-- ===== src/Keyboard/Whole.antt =====
-- What the panel of the keyboard shows in every state that PicoDeck-ED-Keyboard/src/main.c can reach.
use pico_deck_eddiscovery.Base.{
  ℕ, ◌<◌, ◌≡◌, refl, sym, ap, ◌∙◌, subst, Bool, true, false, ◌||◌, Option, none, some, ◌==◌,
  if◌then◌else◌, Bytes, arith,
}
use pico_deck_eddiscovery.WebSocket.Types.{WsState, Platform, Client, now_ms}
use pico_deck_eddiscovery.WebSocket.Application.{Step-keeps}
use pico_deck_eddiscovery.WebSocket.Client.{state_name}
use pico_deck_eddiscovery.EddjsonClient.{Eddjson, eddjson_task}
use pico_deck_eddiscovery.EddjsonClient.Application.{
  eddjson_task-application, eddjson_callbacks-AppKeeps,
}
use pico_deck_eddiscovery.Keyboard.EddButtons.{on_websocket_message}
use pico_deck_eddiscovery.Keyboard.Lit.{has_bit}
use pico_deck_eddiscovery.Keyboard.Press.{Poll, initial, round}
use pico_deck_eddiscovery.Keyboard.Keys.{is_consistent, round-Keeps}
use pico_deck_eddiscovery.Keyboard.Main.{Startup, startup_round, render_one_dirty_button}
use pico_deck_eddiscovery.Keyboard.Fresh.{
  current, message_marks, round-Shows, render_one_dirty_button-Shows,
}
use pico_deck_eddiscovery.Keyboard.Ui.Screen.{after_blits}
use pico_deck_eddiscovery.Keyboard.Ui.Startup.{ui_render_startup}
use pico_deck_eddiscovery.Keyboard.Ui.Shows.{tile_at, button_color}
use pico_deck_eddiscovery.Keyboard.Device.{
  Device, Inputs, device_start, device_callbacks, draw_effects, keyboard_round, appear, continued,
  main_round, DeviceStep, DeviceReach, between, looped, begun, further,
}
use pico_deck_eddiscovery.Keyboard.Pixels.{
  tile_bound, draw_effects-seen, draw_dirty-seen, render_keyboard-seen,
}

-- The pixels of a panel that lie in buttons that are not dirty show their buttons as they are.
abbrev pub ShowsButtons : (ℕ → Bool → Bytes) → ℕ × ℕ → Option ℕ → (ℕ → ℕ → ℕ) → Type 0
ShowsButtons icons (dirty, active_mask) active panel =
    (x y : ℕ)
    → x < 480
    → y < 320
    → has_bit (tile_at x y) dirty ≡ false
    → panel x y ≡ button_color icons (current active_mask active (tile_at x y)) x y

-- The buttons that are on the panel and not dirty are shown as they are; behind the start-up screen no
-- button is held.
pub record IsFresh {W : Type 0} (icons : ℕ → Bool → Bytes) (s : Device W) : Type 0 where
  pub consistent : is_consistent s.press ≡ true
  pub hidden : s.startup.keyboard_visible ≡ false → s.press.active_button ≡ none
  pub fresh :
      s.startup.keyboard_visible ≡ true
      → ShowsButtons icons s.client.app.application s.press.active_button s.panel

module _ {W : Type 0} (icons : ℕ → Bool → Bytes) where
  keyboard_round-IsFresh :
      (i : Poll) (s : Device W)
      → s.startup.keyboard_visible ≡ true
      → IsFresh icons s
      → IsFresh icons (keyboard_round icons i s)
  unfolding keyboard_round
  keyboard_round-IsFresh i s v f = record {
    consistent = (round-Keeps i s.press f.consistent).0;
    hidden = λ n. absurd (ground (arith, v, n));
    fresh = λ v' x y h k e.
        draw_dirty-seen icons x y h k (dirty_drawn s).0
          (draw_effects icons mask (round i s.press).1 s.panel)
        ∙ render_one_dirty_button-Shows (λ a. button_color icons a x y) mask (tile_at x y) dirty
            (draw_effects icons mask (round i s.press).1 s.panel x y)
            (round i s.press).0.active_button
            (λ n.
              draw_effects-seen icons x y h k mask (round i s.press).1 s.panel
              ∙ round-Shows (λ a. button_color icons a x y) mask (tile_at x y) i (s.panel x y)
                  s.press f.consistent (f.fresh v x y h k n))
            e;
  }
    where
      mask : ℕ
      mask = s.client.app.application.1

      dirty : ℕ
      dirty = s.client.app.application.0

      dirty_drawn : Device W → Option (ℕ × Bool) × ℕ
      dirty_drawn t = render_one_dirty_button mask dirty (round i s.press).0.active_button

  appear-IsFresh :
      (s : Device W)
      → s.startup.keyboard_visible ≡ true
      → is_consistent s.press ≡ true
      → s.press.active_button ≡ none
      → IsFresh icons (appear icons s)
  unfolding appear
  appear-IsFresh s v c a = record {
    consistent = c;
    hidden = λ n. a;
    fresh = λ v' x y h k e.
        render_keyboard-seen icons x y h k s.client.app.application.1 s.panel
        ∙ ap (λ o. button_color icons (current s.client.app.application.1 o (tile_at x y)) x y)
            (sym a);
  }

startup_round-visible :
    (hid ready : Bool) (websocket : WsState) (now : ℕ) (s : Startup)
    → s.keyboard_visible ≡ true
    → startup_round hid ready websocket now s ≡ (s, false)
unfolding startup_round
startup_round-visible hid ready websocket now s v = rw v refl

-- The state at the start: no button is held and the buttons are not on the panel yet.
abbrev IsStart : {W : Type 0} → Device W → Type 0
IsStart s = (s.press ≡ initial) × (s.startup.keyboard_visible ≡ false)

module _ {W : Type 0} (p : Platform W) (icons : ℕ → Bool → Bytes) where
  -- The round as far as the choice of its way.
  abbrev entered : Inputs → Device W → Device W
  entered i s =
      let c = eddjson_task p i.ready s.client in
      let r = startup_round i.hid_ready i.ready c.state (now_ms p c.world) s.startup in
      let status = ui_render_startup i.hid_ready i.ready (some (state_name c.state)) in
      record s {
        client = c;
        startup = r.0;
        panel = if r.1 then after_blits status s.panel else s.panel;
      }

  entered-IsFresh :
      (i : Inputs) (s : Device W)
      → s.startup.keyboard_visible ≡ true
      → IsFresh icons s
      → IsFresh icons (entered i s)
  entered-IsFresh i s v f =
      subst (λ r. IsFresh icons (at r)) (sym same)
        (record {
          consistent = f.consistent;
          hidden = f.hidden;
          fresh = λ v'.
              subst (λ marks. ShowsButtons icons marks s.press.active_button s.panel)
                (sym (eddjson_task-application p on_websocket_message i.ready s.client))
                (f.fresh v);
        })
    where
      c : Client W (Eddjson (ℕ × ℕ))
      c = eddjson_task p i.ready s.client

      at : Startup × Bool → Device W
      at r = record s {
        client = c;
        startup = r.0;
        panel =
            if r.1
            then after_blits (ui_render_startup i.hid_ready i.ready (some (state_name c.state)))
                s.panel
            else s.panel;
      }

      same :
          startup_round i.hid_ready i.ready c.state (now_ms p c.world) s.startup
          ≡ (s.startup, false)
      same = startup_round-visible i.hid_ready i.ready c.state (now_ms p c.world) s.startup v

  continued-IsFresh :
      (i : Inputs) (s : Device W) (v w : Bool)
      → s.startup.keyboard_visible ≡ v
      → (entered i s).startup.keyboard_visible ≡ w
      → IsFresh icons s
      → IsFresh icons (continued icons v w i.poll (entered i s))
  unfolding appear
  continued-IsFresh i s true w e g f =
      keyboard_round-IsFresh icons i.poll (entered i s) (seen e) (entered-IsFresh i s e f)
    where
      seen : s.startup.keyboard_visible ≡ true → (entered i s).startup.keyboard_visible ≡ true
      seen v =
          ap (λ r. r.0.keyboard_visible)
            (startup_round-visible i.hid_ready i.ready (eddjson_task p i.ready s.client).state
              (now_ms p (eddjson_task p i.ready s.client).world) s.startup v)
          ∙ v
  continued-IsFresh i s false true e g f =
      keyboard_round-IsFresh icons i.poll (appear icons (entered i s)) g
        (appear-IsFresh icons (entered i s) g f.consistent (f.hidden e))
  continued-IsFresh i s false false e g f = record {
    consistent = f.consistent;
    hidden = λ n. f.hidden e;
    fresh = λ v. absurd (ground (arith, g, v));
  }

  main_round-IsFresh :
      (i : Inputs) (s : Device W) → IsFresh icons s → IsFresh icons (main_round p icons i s)
  unfolding main_round
  main_round-IsFresh i s f =
      continued-IsFresh i s s.startup.keyboard_visible (entered i s).startup.keyboard_visible refl
        refl f

  -- What the buttons on the panel need of the two masks, with the panel as it is.
  abbrev MarksFit : Device W → ℕ × ℕ → Type 0
  MarksFit s marks =
      s.startup.keyboard_visible ≡ true → ShowsButtons icons marks s.press.active_button s.panel

  message_keeps :
      (s : Device W) (text : Bytes) (marks : ℕ × ℕ)
      → MarksFit s marks
      → MarksFit s (on_websocket_message text marks)
  message_keeps s text marks f v x y h k e =
      f v x y h k (message_marks text marks.0 marks.1 (tile_at x y) (tile_bound x y h k) e).0
      ∙ ap
          (λ a.
            button_color icons
              (a || elim s.press.active_button [ none ↦ false | some b ↦ b == tile_at x y ]) x y)
          (sym (message_marks text marks.0 marks.1 (tile_at x y) (tile_bound x y h k) e).1)

  DeviceStep-IsFresh : {s t : Device W} → DeviceStep p icons s t → IsFresh icons s → IsFresh icons t
  DeviceStep-IsFresh (between s step) f = record {
    consistent = f.consistent;
    hidden = f.hidden;
    fresh =
        Step-keeps p (λ a. MarksFit s a.application) (device_callbacks p icons)
          (eddjson_callbacks-AppKeeps p on_websocket_message (MarksFit s) (message_keeps s)) step
          f.fresh;
  }
  DeviceStep-IsFresh (looped i s) f = main_round-IsFresh i s f

  DeviceReach-IsFresh :
      (start : Device W) {s : Device W}
      → IsStart start
      → DeviceReach p icons start s
      → IsFresh icons s
  DeviceReach-IsFresh start (e, v) begun = record {
    consistent = ap is_consistent e;
    hidden = λ n. ap (λ q. q.active_button) e;
    fresh = λ n. absurd (ground (arith, v, n));
  }
  DeviceReach-IsFresh start h (further r step) =
      DeviceStep-IsFresh step (DeviceReach-IsFresh start h r)

  device_start-IsStart :
      (host_ip : Bytes) (now : ℕ) (c : Client W (Eddjson (ℕ × ℕ)))
      → IsStart (device_start host_ip now c)
  unfolding device_start
  device_start-IsStart host_ip now c = (refl, refl)

  -- From the start of the program, whatever messages, touches and times come, in whatever order: once
  -- the buttons are on the panel, each pixel of a button that is not waiting to be drawn again shows the
  -- button as it is, lit where EDDiscovery's last indicator message says so or where it is held.
  pub panel_shows_buttons :
      (host_ip : Bytes) (now : ℕ) (c : Client W (Eddjson (ℕ × ℕ))) (s : Device W) (x y : ℕ)
      → DeviceReach p icons (device_start host_ip now c) s
      → s.startup.keyboard_visible ≡ true
      → x < 480
      → y < 320
      → let marks = s.client.app.application in
        has_bit (tile_at x y) marks.0 ≡ false
        → s.panel x y ≡ button_color icons (current marks.1 s.press.active_button (tile_at x y)) x y
  panel_shows_buttons host_ip now c s x y r v a b e =
      (DeviceReach-IsFresh (device_start host_ip now c) (device_start-IsStart host_ip now c)
          r).fresh
        v x y a b e
