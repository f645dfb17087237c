-- ===== src/WebSocket/Types.antt =====
-- The state of common/websocket_client.c and the services that it calls.
use pico_deck_eddiscovery.Base.{ℕ, ◌/◌, Bool, Option, Bytes}

-- `websocket_state_t`
pub data WsState : Type 0 where
  ws_offline ws_connecting ws_handshake ws_open ws_error : WsState

-- `websocket_client_config_t`; a NULL string is `none`.
pub record Config : Type 0 where
  pub host : Option Bytes
  pub port : ℕ
  pub path : Option Bytes
  pub protocol : Option Bytes
  pub key : Option Bytes
  pub ping_payload : Option Bytes
  pub ping_interval_ms : ℕ
  pub idle_timeout_ms : ℕ
  pub connect_timeout_ms : ℕ

-- lwIP, the clock and the random source, over a state `W` of theirs; the two sizes are the build's
-- macros. A Boolean result is `== ERR_OK` (for `tcp_new`: not NULL).
pub record Platform (W : Type 0) : Type 0 where
  pub rx_capacity : ℕ
  pub send_chunk_size : ℕ
  pub time_us_64 : W → ℕ
  pub get_rand_32 : W → Bytes × W
  -- data, and the flag TCP_WRITE_FLAG_MORE
  pub tcp_write : Bytes → Bool → W → Bool × W
  pub tcp_output : W → Bool × W
  pub tcp_recved : ℕ → W → W
  pub tcp_close : W → Bool × W
  pub tcp_abort : W → W
  pub tcp_new : W → Bool × W
  pub tcp_connect : ℕ → ℕ → W → Bool × W
  -- `tcp_arg`, `tcp_recv` and `tcp_err` with this file's callbacks; the five setters with NULL
  pub attach : W → W
  pub detach : W → W
  pub ipaddr_aton : Bytes → Option ℕ
  pub ip_is_v4 : ℕ → Bool

-- The static variables. `rx` is `s_rx[0 .. s_rx_length)`, `message` is
-- `s_message[0 .. s_message_length)`, `connected` is `s_pcb != NULL`, `app` is what the callbacks
-- change.
pub record Client (W A : Type 0) : Type 0 where
  pub connected : Bool
  pub config : Config
  pub state : WsState
  pub rx : Bytes
  pub message : Bytes
  pub fragment_opcode : ℕ
  pub messages : ℕ
  pub last_rx_ms : ℕ
  pub last_ping_ms : ℕ
  pub retry_at_ms : ℕ
  pub retry_delay_ms : ℕ
  pub world : W
  pub app : A

-- `s_message_cb` and `s_opened_cb`
pub record Callbacks (W A : Type 0) : Type 0 where
  pub message_cb : Option (Bytes → A → A)
  pub opened_cb : Option (Client W A → Bool × Client W A)

abbrev pub now_ms : {W : Type 0} → Platform W → W → ℕ
now_ms p w = p.time_us_64 w / 1000
