-- ===== src/Tests/WebSocket.antt =====
-- A connection whose stream is kept, and inputs on which the theorems about the WebSocket client apply.
use pico_deck_eddiscovery.Base.{
  ℕ, ◌+◌, ◌≡◌, refl, true, false, none, some, List, [], ◌∷◌, ◌++◌, if◌then◌else◌, ltb, length,
  Bytes, codes, arith,
}
use pico_deck_eddiscovery.WebSocket.Types.{
  ws_offline, ws_open, Config, Platform, Client, Callbacks, now_ms,
}
use pico_deck_eddiscovery.WebSocket.Frame.{frame, parse_frame}
use pico_deck_eddiscovery.WebSocket.Send.{
  send_frame, send_frame_world, send_chunks, schedule_retry, close_connection,
}
use pico_deck_eddiscovery.WebSocket.Receive.{frames, consume_frames}
use pico_deck_eddiscovery.WebSocket.Client.{init, connect_now, task}
use pico_deck_eddiscovery.WebSocket.RoundTrip.{sent_frame, parse_frame-sent_frame}
use pico_deck_eddiscovery.WebSocket.Wire.{WireLaws, send_frame-wire}
use pico_deck_eddiscovery.WebSocket.Validity.{IsValid}
use pico_deck_eddiscovery.WebSocket.Reach.{here, next, polled, Reach-IsValid}
use pico_deck_eddiscovery.WebSocket.Stream.{resume, settle, frames_fuel, consume_frames-append}
use pico_deck_eddiscovery.WebSocket.ServerText.{server_text}
use pico_deck_eddiscovery.WebSocket.Arrival.{receive_all, Arrived, receive_all-Arrived}
use pico_deck_eddiscovery.WebSocket.Retry.{schedule_retry_waits}
use pico_deck_eddiscovery.WebSocket.Fragments.{
  joined, delivered, handle_parts, handle_parts-delivered,
}
use pico_deck_eddiscovery.EddjsonClient.{EddjsonConfig, Eddjson, eddjson_init}
use pico_deck_eddiscovery.EddjsonClient.Reach.{eddjson_init-IsValid}

-- The time in microseconds and the bytes written.
abbrev pub World : Type 0
World = ℕ × Bytes

abbrev pub platform : Platform World
platform = record {
  rx_capacity = 4096;
  send_chunk_size = 2;
  time_us_64 = λ w. w.0;
  get_rand_32 = λ w. (17 ∷ 34 ∷ 51 ∷ 68 ∷ [], w);
  tcp_write = λ bytes flag w. (true, (w.0, w.1 ++ bytes));
  tcp_output = λ w. (true, w);
  tcp_recved = λ n w. w;
  tcp_close = λ w. (true, w);
  tcp_abort = λ w. w;
  tcp_new = λ w. (true, w);
  tcp_connect = λ address port w. (true, w);
  attach = λ w. w;
  detach = λ w. w;
  ipaddr_aton = λ text. some 1;
  ip_is_v4 = λ address. true;
}

abbrev wire : World → Bytes
wire w = w.1

abbrev wire_laws : WireLaws platform wire
wire_laws = record {
  written = λ bytes flag w ok. refl;
  flushed = λ w. refl;
  drawn = λ w. refl;
  word = λ w. refl;
}

abbrev config : Config
config = record {
  host = some (codes "10.0.0.2");
  port = 6502;
  path = some (codes "/");
  protocol = some (codes "EDDJSON");
  key = some (codes "key");
  ping_payload = some (codes "p");
  ping_interval_ms = 10000;
  idle_timeout_ms = 30000;
  connect_timeout_ms = 10000;
}

-- The application gathers the messages.
abbrev gather : Bytes → List Bytes → List Bytes
gather text app = app ++ text ∷ []

abbrev callbacks : Callbacks World (List Bytes)
callbacks = record { message_cb = some gather; opened_cb = none }

-- An open connection at 40 seconds.
abbrev client : Client World (List Bytes)
client = record {
  connected = true;
  config = config;
  state = ws_open;
  rx = [];
  message = [];
  fragment_opcode = 0;
  messages = 0;
  last_rx_ms = 39000;
  last_ping_ms = 38000;
  retry_at_ms = 0;
  retry_delay_ms = 1000;
  world = (40000000, []);
  app = [];
}

abbrev mask : Bytes
mask = 1 ∷ 2 ∷ 3 ∷ 4 ∷ []

-- A text frame with "hi", and its first three bytes.
abbrev text_frame : Bytes
text_frame = 129 ∷ 2 ∷ 104 ∷ 105 ∷ []

parse_frame-sent_frame_example :
    parse_frame 4096 (sent_frame 1 mask (codes "hello") ++ 129 ∷ [])
    ≡ frame
        (record { fin = true; opcode = 1; payload = codes "hello" })
        (length (sent_frame 1 mask (codes "hello")))
parse_frame-sent_frame_example =
    parse_frame-sent_frame 4096 1 mask (codes "hello") (129 ∷ []) (omega arith) refl (omega arith)
      (omega arith) refl

sent_hello : (send_frame platform 1 (codes "hello") client).0 ≡ true
unfolding send_frame send_frame_world send_chunks
sent_hello = refl

send_frame-wire_example :
    wire (send_frame platform 1 (codes "hello") client).1.world
    ≡ wire client.world ++ sent_frame 1 (17 ∷ 34 ∷ 51 ∷ 68 ∷ []) (codes "hello")
send_frame-wire_example =
    send_frame-wire platform wire wire_laws (omega arith) 1 (codes "hello") client sent_hello

Reach-IsValid_example : IsValid platform (task platform true (init config client))
Reach-IsValid_example =
    Reach-IsValid platform callbacks config client (λ g e c v. absurd cc)
      (next here (polled true (init config client)))

abbrev eddjson_config : EddjsonConfig
eddjson_config = record {
  host = some (codes "10.0.0.2");
  port = 6502;
  websocket_key = none;
  ping_payload = none;
  initial_requests = some (some (codes "a") ∷ []);
  initial_request_count = 1;
  periodic_request = none;
  periodic_interval_ms = 0;
}

abbrev eddjson_client : Client World (Eddjson (List Bytes))
eddjson_client = record {
  connected = false;
  config = config;
  state = ws_offline;
  rx = [];
  message = [];
  fragment_opcode = 0;
  messages = 0;
  last_rx_ms = 0;
  last_ping_ms = 0;
  retry_at_ms = 0;
  retry_delay_ms = 1000;
  world = (40000000, []);
  app = record { config = eddjson_config; last_periodic_request_ms = 0; application = [] };
}

eddjson_init-IsValid_example :
    IsValid platform (task platform true (eddjson_init eddjson_config eddjson_client))
eddjson_init-IsValid_example =
    eddjson_init-IsValid platform gather eddjson_config eddjson_client
      (next here (polled true (eddjson_init eddjson_config eddjson_client)))

frames_fuel_example :
    frames platform callbacks (false, client) 5 text_frame client
    ≡ frames platform callbacks (true, client) 9 text_frame client
frames_fuel_example =
    frames_fuel platform callbacks (false, client) (true, client) 5 9 text_frame client
      (omega arith) (omega arith)

abbrev partial : Client World (List Bytes)
partial = record client { rx = 129 ∷ 2 ∷ 104 ∷ [] }

consume_frames-append_example :
    settle platform callbacks
      (consume_frames platform callbacks (record partial { rx = text_frame }))
    ≡ settle platform callbacks
        (resume platform callbacks (105 ∷ []) (consume_frames platform callbacks partial))
consume_frames-append_example = consume_frames-append platform callbacks partial (105 ∷ [])

schedule_retry_waits_example :
    let d = record (schedule_retry platform client) { world = (42000000, []) } in
    (d.connected ≡ false)
    × (d.rx ≡ [])
    × (task platform true d ≡ (
        if ltb 42000 (now_ms platform (schedule_retry platform client).world + 1000)
        then d
        else connect_now platform d))
unfolding schedule_retry close_connection
schedule_retry_waits_example =
    schedule_retry_waits platform client (42000000, []) (omega arith) (omega arith)

handle_parts-delivered_example :
    handle_parts platform callbacks (codes "ab") (codes "c" ∷ []) (codes "d") client ≡ (
      true,
      delivered platform callbacks
          (codes "ab" ++ joined (codes "c" ∷ []) ++ codes "d")
          gather
          client,
    )
handle_parts-delivered_example =
    handle_parts-delivered platform callbacks (codes "ab") (codes "c" ∷ []) (codes "d") gather
      client refl refl (omega arith)

-- "hi" in three segments.
three_segments : (129 ∷ []) ++ (2 ∷ b'h' ∷ []) ++ b'i' ∷ [] ≡ server_text (codes "hi")
unfolding server_text
three_segments = refl

receive_all-Arrived_example :
    Arrived platform callbacks
      (codes "hi")
      gather
      client
      (receive_all platform callbacks ((129 ∷ []) ∷ (2 ∷ b'h' ∷ []) ∷ (b'i' ∷ []) ∷ []) client)
receive_all-Arrived_example =
    receive_all-Arrived platform callbacks ((129 ∷ []) ∷ (2 ∷ b'h' ∷ []) ∷ []) (b'i' ∷ [])
      (codes "hi") gather client refl refl refl (omega arith) (omega arith) (omega arith)
      three_segments
