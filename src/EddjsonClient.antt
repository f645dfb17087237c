-- ===== src/EddjsonClient.antt =====
-- common/eddjson_client.c: the EDDJSON requests over the WebSocket client.
pub mod Reach
pub mod Application
use pico_deck_eddiscovery.Base.{
  ℕ, Bool, true, false, not, ◌&&◌, ◌||◌, Option, none, some, List, [], ◌∷◌, leb, ◌==◌,
  if◌then◌else◌, take, Bytes, codes,
}
use pico_deck_eddiscovery.Base.Bits.{sub64}
use pico_deck_eddiscovery.WebSocket.Types.{Config, Platform, Client, Callbacks, now_ms}
use pico_deck_eddiscovery.WebSocket.Receive.{is_open}
use pico_deck_eddiscovery.WebSocket.Client.{init, task, send_text, request_reconnect}

abbrev pub request_status : Bytes
request_status = codes "{\"requesttype\":\"status\",\"entry\":-1}"

abbrev pub request_indicator : Bytes
request_indicator = codes "{\"requesttype\":\"indicator\"}"

abbrev pub request_recent_journal : Bytes
request_recent_journal = codes "{\"requesttype\":\"journal\",\"start\":-1,\"length\":50}"

-- `eddjson_client_config_t`; a NULL pointer is `none`.
pub record EddjsonConfig : Type 0 where
  pub host : Option Bytes
  pub port : ℕ
  pub websocket_key : Option Bytes
  pub ping_payload : Option Bytes
  pub initial_requests : Option (List (Option Bytes))
  pub initial_request_count : ℕ
  pub periodic_request : Option Bytes
  pub periodic_interval_ms : ℕ

-- The static variables of this file, and what the application's message handler changes.
pub record Eddjson (A : Type 0) : Type 0 where
  pub config : EddjsonConfig
  pub last_periodic_request_ms : ℕ
  pub application : A

abbrev pub ws_config : EddjsonConfig → Config
ws_config e = record {
  host = e.host;
  port = e.port;
  path = some (codes "/");
  protocol = some (codes "EDDJSON");
  key = e.websocket_key;
  ping_payload = e.ping_payload;
  ping_interval_ms = 10000;
  idle_timeout_ms = 30000;
  connect_timeout_ms = 10000;
}

unfoldable pub eddjson_init :
    {W A : Type 0} → EddjsonConfig → Client W (Eddjson A) → Client W (Eddjson A)
unfolding init
eddjson_init e c =
    let c' = init (ws_config e) c in record c' { app = record (c'.app) { config = e } }

module _ {W A : Type 0} (p : Platform W) where
  -- The loop of `on_websocket_opened`; the array holds as many entries as it counts.
  unfoldable pub send_requests :
      List (Option Bytes) → Client W (Eddjson A) → Bool × Client W (Eddjson A)
  send_requests [] c = (true, c)
  send_requests (none ∷ rest) c = send_requests rest c
  send_requests (some request ∷ rest) c =
      let r = send_text p (some request) c in
      let next = send_requests rest r.1 in if r.0 then next else (false, r.1)

  abbrev stamp : Client W (Eddjson A) → Client W (Eddjson A)
  stamp c = record c { app = record (c.app) { last_periodic_request_ms = now_ms p c.world } }

  unfoldable pub start_requests :
      Option (List (Option Bytes)) → ℕ → Client W (Eddjson A) → Bool × Client W (Eddjson A)
  unfolding send_requests
  start_requests none count c = if count == 0 then (true, stamp c) else (false, c)
  start_requests (some requests) count c =
      let r = send_requests (take count requests) c in if r.0 then (true, stamp r.1) else r

  unfoldable pub on_websocket_opened : Client W (Eddjson A) → Bool × Client W (Eddjson A)
  unfolding start_requests
  on_websocket_opened c =
      start_requests c.app.config.initial_requests c.app.config.initial_request_count c

  -- The callbacks that `eddjson_client_init` hands over, around the application's handler.
  abbrev pub eddjson_callbacks : (Bytes → A → A) → Callbacks W (Eddjson A)
  eddjson_callbacks handler = record {
    message_cb = some (λ text e. record e { application = handler text e.application });
    opened_cb = some on_websocket_opened;
  }

  unfoldable pub periodic : Option Bytes → ℕ → Client W (Eddjson A) → Client W (Eddjson A)
  periodic none now c = c
  periodic (some request) now c =
      if c.app.config.periodic_interval_ms == 0
        || leb (sub64 now c.app.last_periodic_request_ms) c.app.config.periodic_interval_ms
      then c
      else (let r = send_text p (some request) c in
          if r.0
          then record (r.1) { app = record (r.1.app) { last_periodic_request_ms = now } }
          else request_reconnect p r.1)

  unfoldable pub eddjson_task : Bool → Client W (Eddjson A) → Client W (Eddjson A)
  unfolding periodic
  eddjson_task network_ready c =
      let c' = task p network_ready c in
      if not (is_open c'.state)
      then c'
      else periodic c'.app.config.periodic_request (now_ms p c'.world) c'
