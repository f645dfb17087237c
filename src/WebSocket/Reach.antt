-- ===== src/WebSocket/Reach.antt =====
-- Every state that common/websocket_client.c can reach from `websocket_client_init`.
use pico_deck_eddiscovery.Base.{
  ℕ, ◌≡◌, [], Bool, true, false, Option, none, some, arith, Bytes, Option-cases, inl, inr,
}
use pico_deck_eddiscovery.WebSocket.Types.{
  WsState, ws_connecting, ws_open, Config, Platform, Client, Callbacks, now_ms,
}
use pico_deck_eddiscovery.WebSocket.Send.{close_connection, send_frame}
use pico_deck_eddiscovery.WebSocket.Receive.{receive_cb}
use pico_deck_eddiscovery.WebSocket.Client.{
  text_or, init, error_cb, connected_cb, open_pcb, connect_now, watch, task, send_text,
  request_reconnect,
}
use pico_deck_eddiscovery.WebSocket.Validity.{
  IsValid, OpenedKeeps, schedule_retry-IsValid, send_frame-IsValid, receive_cb-IsValid,
  error_cb-IsValid, connected_cb-IsValid, init-IsValid,
}

module _ {W A : Type 0} (p : Platform W) where
  open_pcb-IsValid : (address : ℕ) (c : Client W A) → IsValid p c → IsValid p (open_pcb p address c)
  unfolding open_pcb
  open_pcb-IsValid address c v = ground (
    arith,
    schedule_retry-IsValid p (record c { connected = false; world = (p.tcp_new c.world).1 }),
    schedule_retry-IsValid p (record c {
      connected = true;
      state = ws_connecting;
      last_rx_ms = now_ms p (p.attach (p.tcp_new c.world).1);
      world = (p.tcp_connect address c.config.port (p.attach (p.tcp_new c.world).1)).1;
    }),
  )

  connect_now-IsValid : (c : Client W A) → IsValid p c → IsValid p (connect_now p c)
  unfolding connect_now
  connect_now-IsValid c v = elim (Option-cases (p.ipaddr_aton (text_or c.config.host []))) [
    | inl e ↦
        rw (e, connect_now) (schedule_retry-IsValid p c v.delay_whole v.delay_low v.delay_high)
    | inr (address, e) ↦
        rw (e, connect_now)
          (ground (arith, schedule_retry-IsValid p c, open_pcb-IsValid address c v))
  ]

  watch-IsValid :
      (s : WsState) (now : ℕ) (c : Client W A) → IsValid p c → IsValid p (watch p s now c)
  unfolding watch
  watch-IsValid ws_open now c v = ground (
    arith,
    schedule_retry-IsValid p c,
    send_frame-IsValid p 9 (text_or c.config.ping_payload []) c v,
    schedule_retry-IsValid p (send_frame p 9 (text_or c.config.ping_payload []) c).1,
  )
  watch-IsValid _ now c v = ground (arith, schedule_retry-IsValid p c)

  task-IsValid : (ready : Bool) (c : Client W A) → IsValid p c → IsValid p (task p ready c)
  unfolding task close_connection
  task-IsValid ready c v =
      ground (arith, connect_now-IsValid c v, watch-IsValid c.state (now_ms p c.world) c v)

  pub send_text-IsValid :
      (text : Option Bytes) (c : Client W A) → IsValid p c → IsValid p (send_text p text c).1
  unfolding send_text
  send_text-IsValid none c v = v
  send_text-IsValid (some text) c v = ground (arith, send_frame-IsValid p 1 text c v)

  -- One event: a callback of lwIP, which has a control block, a call of a public function, or time
  -- and traffic outside.
  pub data Step (callbacks : Callbacks W A) : Client W A → Client W A → Type 0 where
    received :
        (segment : Option Bytes) (error_ok : Bool) (c : Client W A)
        → c.connected ≡ true
        → Step callbacks c (receive_cb p callbacks segment error_ok c).1
    failed : (c : Client W A) → c.connected ≡ true → Step callbacks c (error_cb p c)
    connected :
        (error_ok : Bool) (c : Client W A)
        → c.connected ≡ true
        → Step callbacks c (connected_cb p error_ok c).1
    polled : (ready : Bool) (c : Client W A) → Step callbacks c (task p ready c)
    sent : (text : Option Bytes) (c : Client W A) → Step callbacks c (send_text p text c).1
    reconnect : (c : Client W A) → Step callbacks c (request_reconnect p c)
    elapsed : (w : W) (c : Client W A) → Step callbacks c (record c { world = w })

  pub data Reach (callbacks : Callbacks W A) (start : Client W A) : Client W A → Type 0 where
    here : Reach callbacks start start
    next :
        {c d : Client W A} → Reach callbacks start c → Step callbacks c d → Reach callbacks start d

  pub Step-IsValid :
      (callbacks : Callbacks W A) {c d : Client W A}
      → OpenedKeeps p callbacks
      → Step callbacks c d
      → IsValid p c
      → IsValid p d
  unfolding request_reconnect
  Step-IsValid callbacks keeps (received segment error_ok c up) v =
      receive_cb-IsValid p callbacks segment error_ok c keeps up v
  Step-IsValid callbacks keeps (failed c up) v = error_cb-IsValid p c v
  Step-IsValid callbacks keeps (connected error_ok c up) v = connected_cb-IsValid p error_ok c up v
  Step-IsValid callbacks keeps (polled ready c) v = task-IsValid ready c v
  Step-IsValid callbacks keeps (sent text c) v = send_text-IsValid text c v
  Step-IsValid callbacks keeps (reconnect c) v =
      schedule_retry-IsValid p c v.delay_whole v.delay_low v.delay_high
  Step-IsValid callbacks keeps (elapsed w c) v = ground arith

  -- In every state reached from `websocket_client_init`, by any callbacks and calls in any order, the
  -- received bytes and the gathered message fit their buffers, a message is gathered only while its
  -- opcode is 1 or 2, the retry delay is a whole number of seconds from 1 to 5, and there is a control
  -- block exactly in the states CONNECTING, HANDSHAKE and OPEN. The application's `opened_cb` must keep
  -- this itself.
  pub Reach-IsValid :
      (callbacks : Callbacks W A) (config : Config) (start : Client W A) {c : Client W A}
      → OpenedKeeps p callbacks
      → Reach callbacks (init config start) c
      → IsValid p c
  Reach-IsValid callbacks config start keeps here = init-IsValid p config start
  Reach-IsValid callbacks config start keeps (next r s) =
      Step-IsValid callbacks keeps s (Reach-IsValid callbacks config start keeps r)
