-- ===== src/WebSocket/Validity.antt =====
-- The invariant of the static variables of common/websocket_client.c, kept by every entry point.
use pico_deck_eddiscovery.Base.{
  ℕ, zero, suc, ◌+◌, ◌%◌, ◌≤◌, ◌≡◌, Bool, true, false, Option, none, some, ◌++◌, arith, length,
  drop, length-append, length-drop, Bytes, Option-cases, inl, inr,
}
use pico_deck_eddiscovery.WebSocket.Types.{
  WsState, ws_offline, ws_connecting, ws_handshake, ws_open, ws_error, Config, Platform, Client,
  Callbacks, now_ms,
}
use pico_deck_eddiscovery.WebSocket.Frame.{Frame, Parse-cases, parse_frame}
use pico_deck_eddiscovery.WebSocket.Send.{close_connection, schedule_retry, write_bytes, send_frame}
use pico_deck_eddiscovery.WebSocket.Receive.{
  opened, header_end, consume_handshake, handle_frame, frames, consume_frames, process, receive_cb,
}
use pico_deck_eddiscovery.Base.Text.{c_string, strstr}
use pico_deck_eddiscovery.WebSocket.Client.{request, init, error_cb, connected_cb}
use pico_deck_eddiscovery.WebSocket.Fits.{parse_frame-Fits}

-- Which states have a protocol control block.
abbrev pub has_pcb : WsState → Bool
has_pcb ws_offline = false
has_pcb ws_connecting = true
has_pcb ws_handshake = true
has_pcb ws_open = true
has_pcb ws_error = false

-- The buffers hold what they can, a message is gathered only while its opcode is known, the delay
-- between attempts is a whole number of seconds from 1 to 5, and the state says whether there is a
-- control block.
pub record IsValid {W A : Type 0} (p : Platform W) (c : Client W A) : Type 0 where
  pub rx_fits : length c.rx ≤ p.rx_capacity
  pub message_fits : length c.message ≤ p.rx_capacity
  pub fragment_known : c.fragment_opcode ≤ 2
  pub nothing_gathered : c.fragment_opcode ≡ 0 → length c.message ≡ 0
  pub delay_whole : c.retry_delay_ms % 1000 ≡ 0
  pub delay_low : 1000 ≤ c.retry_delay_ms
  pub delay_high : c.retry_delay_ms ≤ 5000
  pub linked : c.connected ≡ has_pcb c.state

module _ {W A : Type 0} (p : Platform W) where
  -- Whatever the state was, a retry leaves a valid one if the delay was valid.
  pub schedule_retry-IsValid :
      (c : Client W A)
      → c.retry_delay_ms % 1000 ≡ 0
      → 1000 ≤ c.retry_delay_ms
      → c.retry_delay_ms ≤ 5000
      → IsValid p (schedule_retry p c)
  unfolding schedule_retry close_connection
  schedule_retry-IsValid c whole low high = ground arith

  pub send_frame-IsValid :
      (opcode : ℕ) (payload : Bytes) (c : Client W A)
      → IsValid p c
      → IsValid p (send_frame p opcode payload c).1
  unfolding send_frame
  send_frame-IsValid opcode payload c v = ground arith

  handle_frame-IsValid :
      (f : Frame) (c : Client W A)
      → length f.payload ≤ p.rx_capacity
      → IsValid p c
      → (callbacks : Callbacks W A) → IsValid p (handle_frame p callbacks f c).1
  unfolding handle_frame
  handle_frame-IsValid f c fits v callbacks =
      ground (arith, length-append c.message f.payload, send_frame-IsValid 10 f.payload c)

  -- The application's `opened_cb` keeps the invariant.
  abbrev pub OpenedKeeps : Callbacks W A → Type 0
  OpenedKeeps callbacks =
      (g : Client W A → Bool × Client W A)
      → callbacks.opened_cb ≡ some g
      → (c : Client W A) → IsValid p c
      → IsValid p (g c).1

  module _ (callbacks : Callbacks W A) where
    frames-IsValid :
        (out : Bool × Client W A) (fuel : ℕ) (rest : Bytes) (c : Client W A)
        → IsValid p out.1
        → length rest ≤ p.rx_capacity
        → IsValid p c
        → IsValid p (frames p callbacks out fuel rest c).1
    unfolding frames
    frames-IsValid out zero rest c o fits v = o
    frames-IsValid out (suc fuel) rest c o fits v =
        elim (Parse-cases (parse_frame p.rx_capacity rest)) [
          | inl e ↦ rw (e, frames) (ground arith)
          | inr (inl e) ↦ rw (e, frames) v
          | inr (inr (f, size, e)) ↦
              rw (e, frames)
                (ground (
                  arith,
                  parse_frame-Fits p.rx_capacity rest e,
                  length-drop size rest,
                  handle_frame-IsValid f c (parse_frame-Fits p.rx_capacity rest e).payload_fits v
                      callbacks,
                  frames-IsValid out fuel (drop size rest) (handle_frame p callbacks f c).1,
                ))
        ]

    opened-IsValid :
        (c : Client W A) → OpenedKeeps callbacks → IsValid p c → IsValid p (opened p callbacks c).1
    unfolding opened
    opened-IsValid c keeps v = elim (Option-cases callbacks.opened_cb) [
      | inl e ↦ rw e v
      | inr (g, e) ↦ rw e (keeps g e c v)
    ]

    abbrev shaken : Client W A → ℕ → Client W A
    shaken c end = record c {
      rx = drop (end + 4) c.rx;
      state = ws_open;
      retry_delay_ms = 1000;
      last_rx_ms = now_ms p c.world;
      last_ping_ms = now_ms p c.world;
    }

    consume_handshake-IsValid :
        (c : Client W A)
        → OpenedKeeps callbacks
        → c.connected ≡ true
        → IsValid p c
        → IsValid p (consume_handshake p callbacks c).1
    unfolding consume_handshake
    consume_handshake-IsValid c keeps up v =
        elim (Option-cases (strstr (c_string c.rx) header_end)) [
          | inl e ↦ rw (e, consume_handshake) v
          | inr (end, e) ↦
              rw (e, consume_handshake)
                (ground (
                  arith,
                  length-drop (end + 4) c.rx,
                  opened-IsValid (shaken c end) keeps (ground (arith, length-drop (end + 4) c.rx)),
                ))
        ]

    consume_frames-IsValid :
        (c : Client W A) → IsValid p c → IsValid p (consume_frames p callbacks c).1
    unfolding consume_frames
    consume_frames-IsValid c v =
        frames-IsValid (false, c) (suc (length c.rx)) c.rx c v (ground arith) v

    process-IsValid :
        (c : Client W A)
        → OpenedKeeps callbacks
        → c.connected ≡ true
        → IsValid p c
        → IsValid p (process p callbacks c).1
    unfolding process
    process-IsValid c keeps up v = ground (
      arith,
      consume_handshake-IsValid c keeps up v,
      consume_frames-IsValid c,
      consume_frames-IsValid (consume_handshake p callbacks c).1,
      consume_frames-IsValid (consume_frames p callbacks c).1,
    )

    -- Data, the end of the stream and an error all leave the variables valid.
    pub receive_cb-IsValid :
        (segment : Option Bytes) (error_ok : Bool) (c : Client W A)
        → OpenedKeeps callbacks
        → c.connected ≡ true
        → IsValid p c
        → IsValid p (receive_cb p callbacks segment error_ok c).1
    unfolding receive_cb
    receive_cb-IsValid none error_ok c keeps up v =
        schedule_retry-IsValid c v.delay_whole v.delay_low v.delay_high
    receive_cb-IsValid (some segment) error_ok c keeps up v = ground (
      arith,
      length-append c.rx segment,
      schedule_retry-IsValid c,
      process-IsValid taken keeps up,
      schedule_retry-IsValid (process p callbacks taken).1,
    )
      where
        w : W
        w = p.tcp_recved (length segment) c.world

        taken : Client W A
        taken = record c { rx = c.rx ++ segment; world = w; last_rx_ms = now_ms p w }

  pub error_cb-IsValid : (c : Client W A) → IsValid p c → IsValid p (error_cb p c)
  unfolding error_cb
  error_cb-IsValid c v = ground arith

  pub connected_cb-IsValid :
      (error_ok : Bool) (c : Client W A)
      → c.connected ≡ true
      → IsValid p c
      → IsValid p (connected_cb p error_ok c).1
  unfolding connected_cb write_bytes
  connected_cb-IsValid error_ok c up v = ground (
    arith,
    schedule_retry-IsValid c,
    schedule_retry-IsValid (record c { state = ws_handshake }),
    schedule_retry-IsValid (write_bytes p (request c.config) (record c { state = ws_handshake })).1,
  )

  pub init-IsValid : (config : Config) (c : Client W A) → IsValid p (init config c)
  unfolding init
  init-IsValid config c = ground arith
