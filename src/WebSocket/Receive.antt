-- ===== src/WebSocket/Receive.antt =====
-- `consume_handshake`, `consume_frames` and `receive_cb` of common/websocket_client.c.
use pico_deck_eddiscovery.Base.{
  ℕ, zero, suc, ◌+◌, Bool, true, false, not, ◌&&◌, ◌||◌, Option, none, some, [], ◌∷◌, ◌++◌, ltb,
  ◌==◌, if◌then◌else◌, length, drop, Bytes, codes,
}
use pico_deck_eddiscovery.Base.Bits.{u32}
use pico_deck_eddiscovery.Base.Text.{c_string, starts_with, strstr}
use pico_deck_eddiscovery.WebSocket.Types.{
  WsState, ws_handshake, ws_open, Platform, Client, Callbacks, now_ms,
}
use pico_deck_eddiscovery.WebSocket.Frame.{Frame, more, bad, frame, parse_frame}
use pico_deck_eddiscovery.WebSocket.Send.{schedule_retry, send_frame}

abbrev pub is_open : WsState → Bool
is_open ws_open = true
is_open _ = false

abbrev pub is_handshake : WsState → Bool
is_handshake ws_handshake = true
is_handshake _ = false

abbrev pub accepted_1_1 : Bytes
accepted_1_1 = codes "HTTP/1.1 101"

abbrev pub accepted_1_0 : Bytes
accepted_1_0 = codes "HTTP/1.0 101"

abbrev pub header_end : Bytes
header_end = 13 ∷ 10 ∷ 13 ∷ 10 ∷ []

module _ {W A : Type 0} (p : Platform W) (callbacks : Callbacks W A) where
  open p use {rx_capacity, tcp_recved}
  open callbacks use {message_cb, opened_cb}

  unfoldable pub opened : Client W A → Bool × Client W A
  opened c = elim opened_cb [ none ↦ (true, c) | some f ↦ f c ]

  unfoldable pub consume_handshake : Client W A → Bool × Client W A
  consume_handshake c = elim (strstr (c_string c.rx) header_end) [
    | none ↦ (true, c)
    | some end ↦
        if starts_with accepted_1_1 (c_string c.rx) || starts_with accepted_1_0 (c_string c.rx)
        then opened (record c {
          rx = drop (end + 4) c.rx;
          state = ws_open;
          retry_delay_ms = 1000;
          last_rx_ms = now_ms p c.world;
          last_ping_ms = now_ms p c.world;
        })
        else (false, c)
  ]

  -- A complete message: the callback, and the count of text messages.
  unfoldable pub deliver : ℕ → Bytes → Client W A → Client W A
  deliver opcode text c =
      if opcode == 1
      then record c {
        app = elim message_cb [ none ↦ c.app | some f ↦ f text c.app ];
        messages = u32 (c.messages + 1);
      }
      else c

  -- The branches on `opcode`.
  unfoldable pub handle_frame : Frame → Client W A → Bool × Client W A
  unfolding deliver
  handle_frame f c =
      if f.opcode == 0
      then (if c.fragment_opcode == 0 || ltb rx_capacity (length c.message + length f.payload)
          then (false, c)
          else if f.fin
          then (
            true,
            record (deliver c.fragment_opcode (c.message ++ f.payload) c) {
              message = [];
              fragment_opcode = 0;
            },
          )
          else (true, record c { message = c.message ++ f.payload }))
      else if f.opcode == 1 || f.opcode == 2
      then (if not (c.fragment_opcode == 0)
          then (false, c)
          else if f.fin
          then (true, deliver f.opcode f.payload c)
          else (true, record c { message = f.payload; fragment_opcode = f.opcode }))
      else if f.opcode == 8
      then (false, c)
      else if f.opcode == 9
      then send_frame p 10 f.payload c
      else (f.opcode == 10, c)

  -- The loop of `consume_frames`: `rest` is `s_rx[used .. s_rx_length)`. What is left at its end is
  -- moved to the front; on `return false` the buffer stays as it is. `out` is the result where the fuel
  -- runs out.
  unfoldable pub frames : Bool × Client W A → ℕ → Bytes → Client W A → Bool × Client W A
  frames out zero rest c = out
  frames out (suc fuel) rest c = elim (parse_frame rx_capacity rest) [
    | more ↦ (true, record c { rx = rest })
    | bad ↦ (false, c)
    | frame f size ↦
        let next = frames out fuel (drop size rest) (handle_frame f c).1 in
        if (handle_frame f c).0 then next else (false, (handle_frame f c).1)
  ]

  -- A frame takes at least two bytes, so the fuel does not run out.
  unfoldable pub consume_frames : Client W A → Bool × Client W A
  consume_frames c = frames (false, c) (suc (length c.rx)) c.rx c

  -- The rest of `receive_cb` once the data is in `s_rx`.
  unfoldable pub process : Client W A → Bool × Client W A
  process c =
      let first = if is_handshake c.state then consume_handshake c else consume_frames c in
      if first.0 && is_open first.1.state then consume_frames first.1 else first

  -- `none` is the NULL pbuf; the flag is `error == ERR_OK`. The result is `true` for ERR_OK, `false`
  -- for ERR_ABRT.
  unfoldable pub receive_cb : Option Bytes → Bool → Client W A → Bool × Client W A
  receive_cb none error_ok c = (false, schedule_retry p c)
  receive_cb (some segment) error_ok c =
      if not error_ok || ltb rx_capacity (length c.rx + length segment)
      then (false, schedule_retry p c)
      else (let w = tcp_recved (length segment) c.world in
          let r = process (record c { rx = c.rx ++ segment; world = w; last_rx_ms = now_ms p w }) in
          if r.0 then (true, r.1) else (false, schedule_retry p r.1))
