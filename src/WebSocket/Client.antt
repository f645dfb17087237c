-- ===== src/WebSocket/Client.antt =====
-- The connection's life in common/websocket_client.c: the error and connect callbacks, `connect_now`,
-- and the public functions.
use pico_deck_eddiscovery.Base.{
  ℕ, ◌+◌, Bool, true, false, not, ◌&&◌, ◌||◌, Option, none, some, [], ◌∷◌, ◌++◌, ltb, leb, ◌==◌,
  ◌!=◌, if◌then◌else◌, length, Bytes, codes,
}
use pico_deck_eddiscovery.Base.Bits.{u64, sub64}
use pico_deck_eddiscovery.Base.Text.{decimal}
use pico_deck_eddiscovery.WebSocket.Types.{
  WsState, ws_offline, ws_connecting, ws_handshake, ws_open, ws_error, Config, Platform, Client,
  now_ms,
}
use pico_deck_eddiscovery.WebSocket.Send.{
  retry_base, close_connection, schedule_retry, write_bytes, send_frame,
}

abbrev pub text_or : Option Bytes → Bytes → Bytes
text_or none d = d
text_or (some s) d = s

-- `s && s[0]`
abbrev has_text : Option Bytes → Bool
has_text none = false
has_text (some []) = false
has_text (some (b ∷ bs)) = true

abbrev pub is_null : Option Bytes → Bool
is_null none = true
is_null (some s) = false

abbrev crlf : Bytes
crlf = 13 ∷ 10 ∷ []

-- The text that `connected_cb` prints.
unfoldable pub request : Config → Bytes
request config =
    codes "GET "
    ++ (if has_text config.path then text_or config.path [] else codes "/")
    ++ codes " HTTP/1.1"
    ++ crlf
    ++ codes "Host: "
    ++ text_or config.host []
    ++ codes ":"
    ++ decimal config.port
    ++ crlf
    ++ codes "Upgrade: websocket"
    ++ crlf
    ++ codes "Connection: Upgrade"
    ++ crlf
    ++ codes "Sec-WebSocket-Key: "
    ++ text_or config.key []
    ++ crlf
    ++ codes "Sec-WebSocket-Version: 13"
    ++ (if has_text config.protocol
        then crlf ++ codes "Sec-WebSocket-Protocol: " ++ text_or config.protocol []
        else [])
    ++ crlf
    ++ crlf

-- `websocket_client_state_name`; every value of the enumeration is below 5.
unfoldable pub state_name : WsState → Bytes
state_name ws_offline = codes "USB OFFLINE"
state_name ws_connecting = codes "CONNECTING"
state_name ws_handshake = codes "HANDSHAKE"
state_name ws_open = codes "CONNECTED"
state_name ws_error = codes "RETRYING"

-- `websocket_client_init` with a configuration; `A` and `W` are whatever stands already.
unfoldable pub init : {W A : Type 0} → Config → Client W A → Client W A
init config c = record c {
  config = config;
  connected = false;
  rx = [];
  message = [];
  fragment_opcode = 0;
  messages = 0;
  state = ws_offline;
  retry_at_ms = 0;
  retry_delay_ms = 1000;
}

abbrev pub may_connect : WsState → Bool
may_connect ws_offline = true
may_connect ws_error = true
may_connect _ = false

-- `interval && now - since > interval`, on unsigned 64-bit values.
abbrev pub expired : ℕ → ℕ → ℕ → Bool
expired interval now since = interval != 0 && ltb interval (sub64 now since)

module _ {W A : Type 0} (p : Platform W) where
  open p use {tcp_new, tcp_connect, attach, ipaddr_aton, ip_is_v4}

  -- lwIP has freed the block already. The delay does not grow here.
  unfoldable pub error_cb : Client W A → Client W A
  error_cb c = record c {
    connected = false;
    rx = [];
    message = [];
    fragment_opcode = 0;
    state = ws_error;
    retry_delay_ms = retry_base c.retry_delay_ms;
    retry_at_ms = u64 (now_ms p c.world + retry_base c.retry_delay_ms);
  }

  -- `snprintf` into 512 bytes: a longer text is refused. The flag is `error == ERR_OK`; the result
  -- is `true` for ERR_OK.
  unfoldable pub connected_cb : Bool → Client W A → Bool × Client W A
  connected_cb error_ok c =
      if not error_ok
      then (false, schedule_retry p c)
      else (let shaken = record c { state = ws_handshake } in
          let text = request c.config in
          let r = write_bytes p text shaken in
          if length text == 0 || leb 512 (length text)
          then (false, schedule_retry p shaken)
          else if r.0
          then (true, r.1)
          else (false, schedule_retry p r.1))

  -- From `tcp_new_ip_type` on, with the parsed address.
  unfoldable pub open_pcb : ℕ → Client W A → Client W A
  open_pcb address c =
      let (created, w) = tcp_new c.world in
      if not created
      then schedule_retry p (record c { connected = false; world = w })
      else (let attached = attach w in
          let (ok, w') = tcp_connect address c.config.port attached in
          let connecting = record c {
            connected = true;
            state = ws_connecting;
            last_rx_ms = now_ms p attached;
            world = w';
          } in
          if ok then connecting else schedule_retry p connecting)

  unfoldable pub connect_now : Client W A → Client W A
  connect_now c = elim (ipaddr_aton (text_or c.config.host [])) [
    | none ↦ schedule_retry p c
    | some address ↦
        if is_null c.config.host
          || is_null c.config.key
          || c.config.port == 0
          || not (ip_is_v4 address)
        then schedule_retry p c
        else open_pcb address c
  ]

  -- The branch on `s_state` at the end of `websocket_client_task`.
  unfoldable pub watch : WsState → ℕ → Client W A → Client W A
  watch ws_open now c =
      if expired c.config.idle_timeout_ms now c.last_rx_ms
      then schedule_retry p c
      else if expired c.config.ping_interval_ms now c.last_ping_ms
      then (let r = send_frame p 9 (text_or c.config.ping_payload []) c in
          record (if r.0 then r.1 else schedule_retry p r.1) { last_ping_ms = now })
      else c
  watch ws_connecting now c =
      if expired c.config.connect_timeout_ms now c.last_rx_ms then schedule_retry p c else c
  watch ws_handshake now c =
      if expired c.config.connect_timeout_ms now c.last_rx_ms then schedule_retry p c else c
  watch ws_offline now c = c
  watch ws_error now c = c

  unfoldable pub task : Bool → Client W A → Client W A
  task network_ready c =
      let now = now_ms p c.world in
      if not network_ready
      then record (if c.connected then close_connection p true c else c) {
        state = ws_offline;
        retry_at_ms = u64 (now + 500);
      }
      else if not c.connected && may_connect c.state && leb c.retry_at_ms now
      then connect_now c
      else watch c.state now c

  -- `none` is the NULL message.
  unfoldable pub send_text : Option Bytes → Client W A → Bool × Client W A
  send_text none c = (false, c)
  send_text (some text) c = elim c.state [ ws_open ↦ send_frame p 1 text c | _ ↦ (false, c) ]

  unfoldable pub request_reconnect : Client W A → Client W A
  request_reconnect c = schedule_retry p c
