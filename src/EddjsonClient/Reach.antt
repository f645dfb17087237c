-- ===== src/EddjsonClient/Reach.antt =====
-- The requests of common/eddjson_client.c keep the WebSocket client's state well formed.
use pico_deck_eddiscovery.Base.{
  ℕ, subst, Bool, Option, none, some, List, [], ◌∷◌, Bytes, arith, take,
}
use pico_deck_eddiscovery.WebSocket.Types.{Platform, Client}
use pico_deck_eddiscovery.WebSocket.Client.{init, send_text}
use pico_deck_eddiscovery.WebSocket.Validity.{IsValid, OpenedKeeps}
use pico_deck_eddiscovery.WebSocket.Reach.{Reach, Reach-IsValid, send_text-IsValid}
use pico_deck_eddiscovery.EddjsonClient.{
  EddjsonConfig, Eddjson, eddjson_init, send_requests, start_requests, on_websocket_opened,
  eddjson_callbacks, ws_config,
}

module _ {W A : Type 0} (p : Platform W) where
  send_requests-IsValid :
      (requests : List (Option Bytes)) (c : Client W (Eddjson A))
      → IsValid p c
      → IsValid p (send_requests p requests c).1
  unfolding send_requests
  send_requests-IsValid [] c v = v
  send_requests-IsValid (none ∷ rest) c v = send_requests-IsValid rest c v
  send_requests-IsValid (some request ∷ rest) c v = ground (
    arith,
    send_text-IsValid p (some request) c v,
    send_requests-IsValid rest (send_text p (some request) c).1,
  )

  start_requests-IsValid :
      (o : Option (List (Option Bytes))) (count : ℕ) (c : Client W (Eddjson A))
      → IsValid p c
      → IsValid p (start_requests p o count c).1
  unfolding start_requests
  start_requests-IsValid none count c v = ground arith
  start_requests-IsValid (some requests) count c v =
      ground (arith, send_requests-IsValid (take count requests) c v)

  on_websocket_opened-IsValid :
      (c : Client W (Eddjson A)) → IsValid p c → IsValid p (on_websocket_opened p c).1
  unfolding on_websocket_opened
  on_websocket_opened-IsValid c v =
      start_requests-IsValid c.app.config.initial_requests c.app.config.initial_request_count c v

  abbrev ValidAfter :
      Client W (Eddjson A) → Option (Client W (Eddjson A) → Bool × Client W (Eddjson A)) → Type 0
  ValidAfter c none = Bool
  ValidAfter c (some g) = IsValid p (g c).1

  -- What is sent when the connection opens keeps the invariant, for any handler.
  pub eddjson-OpenedKeeps : (handler : Bytes → A → A) → OpenedKeeps p (eddjson_callbacks p handler)
  eddjson-OpenedKeeps handler g e c v = subst (ValidAfter c) e (on_websocket_opened-IsValid c v)

  -- Whatever calls come, in whatever order, from the start of a client that speaks EDDJSON: the state of
  -- its connection is well formed. The requests that are sent when the connection opens keep it so, and
  -- nothing is assumed of the application.
  pub eddjson_init-IsValid :
      (handler : Bytes → A → A) (config : EddjsonConfig) (start : Client W (Eddjson A))
      {c : Client W (Eddjson A)}
      → Reach p (eddjson_callbacks p handler) (eddjson_init config start) c
      → IsValid p c
  unfolding eddjson_init init
  eddjson_init-IsValid handler config start r =
      Reach-IsValid p (eddjson_callbacks p handler) (ws_config config)
        (record start { app = record (start.app) { config = config } })
        (eddjson-OpenedKeeps handler) r
