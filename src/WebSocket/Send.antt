-- ===== src/WebSocket/Send.antt =====
-- `close_connection`, `schedule_retry`, `write_bytes` and `send_frame` of
-- common/websocket_client.c.
use pico_deck_eddiscovery.Base.{
  ℕ, zero, suc, ◌+◌, min, Bool, true, false, not, ◌||◌, [], ◌++◌, ltb, ◌==◌, if◌then◌else◌, length,
  take, drop, Bytes,
}
use pico_deck_eddiscovery.Base.Bits.{u32, u64}
use pico_deck_eddiscovery.WebSocket.Types.{ws_error, Platform, Client, now_ms}
use pico_deck_eddiscovery.WebSocket.Frame.{mask_from, encode_header}

-- The delay that a retry waits for.
abbrev pub retry_base : ℕ → ℕ
retry_base delay = if delay == 0 then 1000 else delay

module _ {W : Type 0} (p : Platform W) where
  open p use {tcp_write, tcp_output, tcp_close, tcp_abort, detach, get_rand_32, send_chunk_size}

  close_pcb : Bool → W → W
  close_pcb abort_connection w =
      let w' = detach w in
      if abort_connection
      then tcp_abort w'
      else let (ok, closed) = tcp_close w' in if ok then closed else tcp_abort closed

  write_world : Bytes → W → Bool × W
  write_world bytes w =
      let (ok, w') = tcp_write bytes false w in if ok then tcp_output w' else (false, w')

  -- The `while (offset < length)` loop: `rest` is the payload from `offset` on.
  unfoldable pub send_chunks : ℕ → Bytes → ℕ → Bytes → W → Bool × W
  send_chunks zero mask offset rest w = (true, w)
  send_chunks (suc fuel) mask offset rest w =
      let count = min (length rest) send_chunk_size in
      let last = length rest == count in
      let (ok, w') = tcp_write (mask_from mask offset (take count rest)) (not last) w in
      let next = send_chunks fuel mask (offset + count) (drop count rest) w' in
      if length rest == 0 then (true, w) else if ok then next else (false, w')

  -- A chunk takes at least one byte, so the payload's length is fuel enough.
  unfoldable pub send_frame_world : ℕ → Bytes → W → Bool × W
  send_frame_world opcode payload w =
      let (mask, w1) = get_rand_32 w in
      let (ok, w2) = tcp_write (encode_header opcode (length payload) ++ mask) true w1 in
      let (sent, w3) = send_chunks (length payload) mask 0 payload w2 in
      if ok then (if sent then tcp_output w3 else (false, w3)) else (false, w2)

module _ {W A : Type 0} (p : Platform W) where
  unfoldable pub close_connection : Bool → Client W A → Client W A
  unfolding close_pcb
  close_connection abort_connection c = record c {
    connected = false;
    rx = [];
    message = [];
    fragment_opcode = 0;
    world = if c.connected then close_pcb p abort_connection c.world else c.world;
  }

  unfoldable pub schedule_retry : Client W A → Client W A
  schedule_retry c =
      let closed = close_connection true c in
      let delay = retry_base c.retry_delay_ms in
      record closed {
        state = ws_error;
        retry_at_ms = u64 (now_ms p closed.world + delay);
        retry_delay_ms = if ltb delay 5000 then u32 (delay + 1000) else delay;
      }

  unfoldable pub write_bytes : Bytes → Client W A → Bool × Client W A
  unfolding write_world
  write_bytes bytes c =
      if not c.connected || ltb 0xffff (length bytes)
      then (false, c)
      else let (ok, w) = write_world p bytes c.world in (ok, record c { world = w })

  unfoldable pub send_frame : ℕ → Bytes → Client W A → Bool × Client W A
  send_frame opcode payload c =
      if not c.connected || ltb 65535 (length payload)
      then (false, c)
      else let (ok, w) = send_frame_world p opcode payload c.world in (ok, record c { world = w })
