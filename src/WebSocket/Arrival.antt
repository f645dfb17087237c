-- ===== src/WebSocket/Arrival.antt =====
-- A text message on its way from the server through `receive_cb` of common/websocket_client.c, in the
-- segments that TCP makes of it.
use pico_deck_eddiscovery.Base.{
  ℕ, suc, ◌+◌, ◌≤◌, ◌<◌, ◌≡◌, refl, sym, ap, subst, ◌∙◌, Bool, true, false, some, List, [], ◌∷◌,
  ◌++◌, append_assoc, arith, if◌then◌else◌, length, length-append, Bytes,
}
use pico_deck_eddiscovery.Base.Bits.{u32}
use pico_deck_eddiscovery.WebSocket.Types.{ws_open, Platform, Client, Callbacks, now_ms}
use pico_deck_eddiscovery.WebSocket.Frame.{more, frame, parse_frame}
use pico_deck_eddiscovery.WebSocket.Receive.{
  deliver, handle_frame, frames, consume_frames, process, receive_cb,
}
use pico_deck_eddiscovery.WebSocket.Fragments.{joined}
use pico_deck_eddiscovery.WebSocket.Stream.{frames-more, frames-frame}
use pico_deck_eddiscovery.WebSocket.ServerText.{
  server_text, text_frame, parse_frame-server_text, parse_frame-part, drop-all, parse_frame-nil,
  length-server_text, long_enough,
}

module _ {W A : Type 0} (p : Platform W) (callbacks : Callbacks W A) where
  consume_frames-more :
      (c : Client W A)
      → parse_frame p.rx_capacity c.rx ≡ more
      → consume_frames p callbacks c ≡ (true, c)
  unfolding consume_frames
  consume_frames-more c e = frames-more p callbacks (false, c) (length c.rx) c.rx c e

  -- What a segment that completes no frame leaves.
  abbrev waiting : Bytes → Client W A → Client W A
  waiting segment c =
      let w = p.tcp_recved (length segment) c.world in
      record c { rx = c.rx ++ segment; world = w; last_rx_ms = now_ms p w }

  part_arrives :
      (segment : Bytes) (c : Client W A)
      → c.state ≡ ws_open
      → length c.rx + length segment ≤ p.rx_capacity
      → parse_frame p.rx_capacity (c.rx ++ segment) ≡ more
      → receive_cb p callbacks (some segment) true c ≡ (true, waiting segment c)
  unfolding receive_cb process
  part_arrives segment c open_state fits e =
      ground (arith, consume_frames-more (waiting segment c) e)

  -- The message has been handed over, and nothing is left.
  abbrev taken : Bytes → (Bytes → A → A) → Client W A → Client W A
  taken text f c = record c { app = f text c.app; messages = u32 (c.messages + 1); rx = [] }

  handle_frame-text :
      (text : Bytes) (f : Bytes → A → A) (c : Client W A)
      → callbacks.message_cb ≡ some f
      → c.fragment_opcode ≡ 0
      → handle_frame p callbacks (text_frame text) c
        ≡ (true, record c { app = f text c.app; messages = u32 (c.messages + 1) })
  unfolding handle_frame deliver
  handle_frame-text text f c cb idle = ground arith

  frames-text :
      (out : Bool × Client W A) (n : ℕ) (text : Bytes) (f : Bytes → A → A) (c : Client W A)
      → callbacks.message_cb ≡ some f
      → c.fragment_opcode ≡ 0
      → length text < 65536
      → length text + 4 ≤ p.rx_capacity
      → frames p callbacks out (suc (suc n)) (server_text text) c ≡ (true, taken text f c)
  frames-text out n text f c cb idle size fits =
      frames-frame p callbacks out (suc n) (server_text text) c
        (parse_frame-server_text p.rx_capacity text size fits)
      ∙ rw (handle_frame-text text f c cb idle, drop-all (server_text text))
          (frames-more p callbacks out n [] _ (parse_frame-nil p.rx_capacity))

  consume_frames-text :
      (text : Bytes) (f : Bytes → A → A) (c : Client W A)
      → callbacks.message_cb ≡ some f
      → c.fragment_opcode ≡ 0
      → length text < 65536
      → length text + 4 ≤ p.rx_capacity
      → c.rx ≡ server_text text
      → consume_frames p callbacks c ≡ (true, taken text f c)
  unfolding consume_frames
  consume_frames-text text f c cb idle size fits e =
      subst
        (λ (rx : Bytes).
          frames p callbacks (false, c) (suc (length rx)) rx c ≡ (true, taken text f c))
        (sym e)
        (subst
          (λ (n : ℕ).
            frames p callbacks (false, c) (suc n) (server_text text) c ≡ (true, taken text f c))
          (long_enough text) (frames-text _ _ text f c cb idle size fits))

  last_arrives :
      (segment text : Bytes) (f : Bytes → A → A) (c : Client W A)
      → callbacks.message_cb ≡ some f
      → c.state ≡ ws_open
      → c.fragment_opcode ≡ 0
      → length text < 65536
      → length text + 4 ≤ p.rx_capacity
      → c.rx ++ segment ≡ server_text text
      → receive_cb p callbacks (some segment) true c ≡ (true, taken text f (waiting segment c))
  unfolding receive_cb process
  last_arrives segment text f c cb open_state idle size fits e = ground (
    arith,
    consume_frames-text text f (waiting segment c) cb idle size fits e,
    consume_frames-more (taken text f (waiting segment c)) (parse_frame-nil p.rx_capacity),
    length-append c.rx segment,
    ap length e,
    length-server_text text,
  )

  -- One call of `receive_cb` for each segment; a refusal ends the connection.
  abbrev pub receive_all : List Bytes → Client W A → Bool × Client W A
  receive_all [] c = (true, c)
  receive_all (segment ∷ segments) c =
      let r = receive_cb p callbacks (some segment) true c in
      let rest = receive_all segments r.1 in if r.0 then rest else (false, r.1)

  -- The callback ran once, on the whole text; nothing is left over, and the client is as ready for the
  -- next message as it was.
  abbrev pub Arrived : Bytes → (Bytes → A → A) → Client W A → Bool × Client W A → Type 0
  Arrived text f c r =
      (r.0 ≡ true)
      × (r.1.app ≡ f text c.app)
      × (r.1.messages ≡ u32 (c.messages + 1))
      × (r.1.rx ≡ [])
      × (r.1.state ≡ ws_open)
      × (r.1.fragment_opcode ≡ 0)

  -- A text message of the server, whose first bytes may have come before, is handed over once and whole,
  -- into however many segments TCP cuts it. It holds for an open connection that is gathering no other
  -- message, and a text that fits a 16-bit length and the buffer; the last segment is not empty.
  pub receive_all-Arrived :
      (segments : List Bytes) (last text : Bytes) (f : Bytes → A → A) (c : Client W A)
      → callbacks.message_cb ≡ some f
      → c.state ≡ ws_open
      → c.fragment_opcode ≡ 0
      → length text < 65536
      → length text + 4 ≤ p.rx_capacity
      → 0 < length last
      → c.rx ++ (joined segments ++ last) ≡ server_text text
      → Arrived text f c (receive_all (segments ++ last ∷ []) c)
  receive_all-Arrived [] last text f c cb open_state idle size fits some_left e =
      rw (last_arrives last text f c cb open_state idle size fits e)
        (refl, refl, refl, refl, open_state, idle)
  receive_all-Arrived (segment ∷ segments) last text f c cb open_state idle size fits some_left e =
      rw (part_arrives segment c open_state room part) (
        receive_all-Arrived segments last text f (waiting segment c) cb open_state idle size fits
          some_left whole)
    where
      later : Bytes
      later = joined segments ++ last

      whole : (c.rx ++ segment) ++ later ≡ server_text text
      whole =
          append_assoc c.rx segment later
          ∙ ap (λ t. c.rx ++ t) (sym (append_assoc segment (joined segments) last))
          ∙ e

      left_over : 0 < length later
      left_over = omega (arith, length-append {0} (joined segments) last)

      room : length c.rx + length segment ≤ p.rx_capacity
      room = omega (
        arith,
        length-append {0} (c.rx ++ segment) later,
        length-append {0} c.rx segment,
        ap length whole,
        length-server_text text,
      )

      part : parse_frame p.rx_capacity (c.rx ++ segment) ≡ more
      part = parse_frame-part p.rx_capacity (c.rx ++ segment) later left_over (
          subst (λ t. parse_frame p.rx_capacity t ≡ frame (text_frame text) (length t)) (sym whole)
            (parse_frame-server_text p.rx_capacity text size fits))
