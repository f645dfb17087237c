-- ===== src/Display/Message.antt =====
-- A message of EDDiscovery on its way from the wire to the telemetry state of the display:
-- common/websocket_client.c, common/eddjson_client.c, PicoDeck-ED-Display/src/main.c and edd_state.c
-- together.
use pico_deck_eddiscovery.Base.{
  ◌+◌, ◌≤◌, ◌<◌, ◌≡◌, ap, ◌∙◌, true, List, [], ◌∷◌, ◌++◌, length, Bytes, refl,
}
use pico_deck_eddiscovery.WebSocket.Types.{ws_open, Platform, Client}
use pico_deck_eddiscovery.WebSocket.Fragments.{joined}
use pico_deck_eddiscovery.WebSocket.ServerText.{server_text}
use pico_deck_eddiscovery.WebSocket.Arrival.{receive_all, receive_all-Arrived}
use pico_deck_eddiscovery.EddjsonClient.{Eddjson}
use pico_deck_eddiscovery.Display.Edd.Tokens.{Token}
use pico_deck_eddiscovery.Display.Edd.State.{EddState}
use pico_deck_eddiscovery.Display.Edd.Tree.{Json, tokens_of, IsLaid}
use pico_deck_eddiscovery.Display.Edd.Document.{handle_document}
use pico_deck_eddiscovery.Display.Edd.Refines.{handle_json-handle_document}
use pico_deck_eddiscovery.Display.Device.{device_callbacks}

module _ {W : Type 0} (p : Platform W) (jsmn_parse : Bytes → List Token) where
  -- A text frame of the server, in whatever segments it comes, changes the telemetry state as the tree of
  -- its JSON means, and the connection goes on, with nothing left over. It holds for an open connection
  -- that is gathering no other message, where the first bytes may have come before, for a text that
  -- fits a 16-bit length and the buffer, and where jsmn gives the tokens of that tree.
  pub message_updates_state :
      (segments : List Bytes) (last json : Bytes) (v : Json) (c : Client W (Eddjson EddState))
      → c.state ≡ ws_open
      → c.fragment_opcode ≡ 0
      → length json < 65536
      → length json + 4 ≤ p.rx_capacity
      → 0 < length last
      → c.rx ++ (joined segments ++ last) ≡ server_text json
      → jsmn_parse json ≡ tokens_of v
      → IsLaid v
      → let r = receive_all p (device_callbacks p jsmn_parse) (segments ++ last ∷ []) c in
        (r.0 ≡ true)
        × (r.1.app.application ≡ (handle_document json v c.app.application).1)
        × (r.1.rx ≡ [])
        × (r.1.state ≡ ws_open)
        × (r.1.fragment_opcode ≡ 0)
  message_updates_state segments last json v c open_state idle size fits some_left e parsed laid =
      let (ok, app, count, rx, still_open, still_idle) =
        receive_all-Arrived p (device_callbacks p jsmn_parse) segments last json _ c refl open_state
          idle size fits some_left e in
      (
        ok,
        ap (λ a. a.application) app
            ∙ ap (λ r. r.1)
                (handle_json-handle_document jsmn_parse json v c.app.application parsed laid),
        rx,
        still_open,
        still_idle,
      )
