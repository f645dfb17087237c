-- ===== src/WebSocket/Application.antt =====
-- What common/websocket_client.c does to the state of the application: nothing but the calls of its two
-- callbacks.
use pico_deck_eddiscovery.Base.{
  ℕ, zero, suc, ◌+◌, ◌≡◌, refl, sym, subst, [], ◌++◌, Bool, true, false, Option, none, some, arith,
  Bytes, Option-cases, inl, inr, length, drop,
}
use pico_deck_eddiscovery.Base.Text.{c_string, strstr}
use pico_deck_eddiscovery.WebSocket.Types.{
  WsState, ws_connecting, ws_handshake, ws_open, Platform, Client, Callbacks, now_ms,
}
use pico_deck_eddiscovery.WebSocket.Frame.{Frame, parse_frame, Parse-cases}
use pico_deck_eddiscovery.WebSocket.Send.{close_connection, schedule_retry, write_bytes, send_frame}
use pico_deck_eddiscovery.WebSocket.Receive.{
  header_end, opened, consume_handshake, deliver, handle_frame, frames, consume_frames, process,
  receive_cb,
}
use pico_deck_eddiscovery.WebSocket.Client.{
  text_or, request, error_cb, connected_cb, open_pcb, connect_now, watch, task, send_text,
  request_reconnect,
}
use pico_deck_eddiscovery.WebSocket.Reach.{
  Step, Reach, received, failed, connected, polled, sent, reconnect, elapsed, here, next,
}

module _ {W A : Type 0} (p : Platform W) where
  pub schedule_retry-app : (c : Client W A) → (schedule_retry p c).app ≡ c.app
  unfolding schedule_retry close_connection
  schedule_retry-app c = ground arith

  pub send_frame-app :
      (opcode : ℕ) (payload : Bytes) (c : Client W A)
      → (send_frame p opcode payload c).1.app ≡ c.app
  unfolding send_frame
  send_frame-app opcode payload c = ground arith

  pub send_text-app : (text : Option Bytes) (c : Client W A) → (send_text p text c).1.app ≡ c.app
  unfolding send_text
  send_text-app none c = refl
  send_text-app (some text) c = ground (arith, send_frame-app 1 text c)

  open_pcb-app : (address : ℕ) (c : Client W A) → (open_pcb p address c).app ≡ c.app
  unfolding open_pcb
  open_pcb-app address c = ground (
    arith,
    schedule_retry-app (record c { connected = false; world = (p.tcp_new c.world).1 }),
    schedule_retry-app (record c {
      connected = true;
      state = ws_connecting;
      last_rx_ms = now_ms p (p.attach (p.tcp_new c.world).1);
      world = (p.tcp_connect address c.config.port (p.attach (p.tcp_new c.world).1)).1;
    }),
  )

  connect_now-app : (c : Client W A) → (connect_now p c).app ≡ c.app
  unfolding connect_now
  connect_now-app c = elim (Option-cases (p.ipaddr_aton (text_or c.config.host []))) [
    | inl e ↦ rw (e, connect_now) (schedule_retry-app c)
    | inr (address, e) ↦
        rw (e, connect_now) (ground (arith, schedule_retry-app c, open_pcb-app address c))
  ]

  watch-app : (s : WsState) (now : ℕ) (c : Client W A) → (watch p s now c).app ≡ c.app
  unfolding watch
  watch-app ws_open now c = ground (
    arith,
    schedule_retry-app c,
    send_frame-app 9 (text_or c.config.ping_payload []) c,
    schedule_retry-app (send_frame p 9 (text_or c.config.ping_payload []) c).1,
  )
  watch-app _ now c = ground (arith, schedule_retry-app c)

  pub task-app : (ready : Bool) (c : Client W A) → (task p ready c).app ≡ c.app
  unfolding task close_connection
  task-app ready c = ground (arith, connect_now-app c, watch-app c.state (now_ms p c.world) c)

  error_cb-app : (c : Client W A) → (error_cb p c).app ≡ c.app
  unfolding error_cb
  error_cb-app c = ground arith

  connected_cb-app : (error_ok : Bool) (c : Client W A) → (connected_cb p error_ok c).1.app ≡ c.app
  unfolding connected_cb write_bytes
  connected_cb-app error_ok c = ground (
    arith,
    schedule_retry-app c,
    schedule_retry-app (record c { state = ws_handshake }),
    schedule_retry-app (write_bytes p (request c.config) (record c { state = ws_handshake })).1,
  )

-- A property of the application's state that both callbacks keep.
pub record AppKeeps {W A : Type 0} (P : A → Type 0) (callbacks : Callbacks W A) : Type 0 where
  pub by_message :
      (f : Bytes → A → A)
      → callbacks.message_cb ≡ some f
      → (text : Bytes) (a : A) → P a
      → P (f text a)
  pub by_opened :
      (g : Client W A → Bool × Client W A)
      → callbacks.opened_cb ≡ some g
      → (c : Client W A) → P c.app
      → P (g c).1.app

module _ {W A : Type 0} (p : Platform W) (P : A → Type 0) (callbacks : Callbacks W A)
    (keeps : AppKeeps P callbacks) where
  deliver-keeps :
      (opcode : ℕ) (text : Bytes) (c : Client W A)
      → P c.app
      → P (deliver p callbacks opcode text c).app
  unfolding deliver
  deliver-keeps opcode text c h = elim (Option-cases callbacks.message_cb) [
    | inl e ↦ rw e (ground (arith, h))
    | inr (f, e) ↦ rw e (ground (arith, h, keeps.by_message f e text c.app h))
  ]

  handle_frame-keeps :
      (f : Frame) (c : Client W A) → P c.app → P (handle_frame p callbacks f c).1.app
  unfolding handle_frame
  handle_frame-keeps f c h = ground (
    arith,
    h,
    deliver-keeps c.fragment_opcode (c.message ++ f.payload) c h,
    deliver-keeps f.opcode f.payload c h,
    send_frame-app p 10 f.payload c,
    subst P (sym (send_frame-app p 10 f.payload c)) h,
  )

  frames-keeps :
      (out : Bool × Client W A) (fuel : ℕ) (rest : Bytes) (c : Client W A)
      → P out.1.app
      → P c.app
      → P (frames p callbacks out fuel rest c).1.app
  unfolding frames
  frames-keeps out zero rest c o h = o
  frames-keeps out (suc fuel) rest c o h = elim (Parse-cases (parse_frame p.rx_capacity rest)) [
    | inl e ↦ rw (e, frames) h
    | inr (inl e) ↦ rw (e, frames) h
    | inr (inr (f, size, e)) ↦
        rw (e, frames)
          (ground (
            arith,
            handle_frame-keeps f c h,
            frames-keeps out fuel (drop size rest) (handle_frame p callbacks f c).1 o
                (handle_frame-keeps f c h),
          ))
  ]

  opened-keeps : (c : Client W A) → P c.app → P (opened p callbacks c).1.app
  unfolding opened
  opened-keeps c h = elim (Option-cases callbacks.opened_cb) [
    | inl e ↦ rw e h
    | inr (g, e) ↦ rw e (keeps.by_opened g e c h)
  ]

  consume_handshake-keeps : (c : Client W A) → P c.app → P (consume_handshake p callbacks c).1.app
  unfolding consume_handshake
  consume_handshake-keeps c h = elim (Option-cases (strstr (c_string c.rx) header_end)) [
    | inl e ↦ rw (e, consume_handshake) h
    | inr (end, e) ↦
        rw (e, consume_handshake)
          (ground (
            arith,
            h,
            opened-keeps
                (record c {
                  rx = drop (end + 4) c.rx;
                  state = ws_open;
                  retry_delay_ms = 1000;
                  last_rx_ms = now_ms p c.world;
                  last_ping_ms = now_ms p c.world;
                })
                h,
          ))
  ]

  consume_frames-keeps : (c : Client W A) → P c.app → P (consume_frames p callbacks c).1.app
  unfolding consume_frames
  consume_frames-keeps c h = frames-keeps (false, c) (suc (length c.rx)) c.rx c h h

  process-keeps : (c : Client W A) → P c.app → P (process p callbacks c).1.app
  unfolding process
  process-keeps c h = ground (
    arith,
    consume_handshake-keeps c h,
    consume_frames-keeps c h,
    consume_frames-keeps (consume_handshake p callbacks c).1 (consume_handshake-keeps c h),
    consume_frames-keeps (consume_frames p callbacks c).1 (consume_frames-keeps c h),
  )

  receive_cb-keeps :
      (segment : Option Bytes) (error_ok : Bool) (c : Client W A)
      → P c.app
      → P (receive_cb p callbacks segment error_ok c).1.app
  unfolding receive_cb
  receive_cb-keeps none error_ok c h = subst P (sym (schedule_retry-app p c)) h
  receive_cb-keeps (some segment) error_ok c h = ground (
    arith,
    subst P (sym (schedule_retry-app p c)) h,
    process-keeps taken h,
    subst P (sym (schedule_retry-app p (process p callbacks taken).1)) (process-keeps taken h),
  )
    where
      w : W
      w = p.tcp_recved (length segment) c.world

      taken : Client W A
      taken = record c { rx = c.rx ++ segment; world = w; last_rx_ms = now_ms p w }

  pub Step-keeps : {c d : Client W A} → Step p callbacks c d → P c.app → P d.app
  unfolding request_reconnect
  Step-keeps (received segment error_ok c up) h = receive_cb-keeps segment error_ok c h
  Step-keeps (failed c up) h = subst P (sym (error_cb-app p c)) h
  Step-keeps (connected error_ok c up) h = subst P (sym (connected_cb-app p error_ok c)) h
  Step-keeps (polled ready c) h = subst P (sym (task-app p ready c)) h
  Step-keeps (sent text c) h = subst P (sym (send_text-app p text c)) h
  Step-keeps (reconnect c) h = subst P (sym (schedule_retry-app p c)) h
  Step-keeps (elapsed w c) h = h

  -- Whatever calls and callbacks come, in whatever order: what the application's two callbacks keep of
  -- its state holds all the time, since nothing else of the client changes that state.
  pub Reach-keeps :
      (start : Client W A) {c : Client W A} → P start.app → Reach p callbacks start c → P c.app
  Reach-keeps start h here = h
  Reach-keeps start h (next r s) = Step-keeps s (Reach-keeps start h r)
