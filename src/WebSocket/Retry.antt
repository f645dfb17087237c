-- ===== src/WebSocket/Retry.antt =====
-- Timeouts and reconnection in common/websocket_client.c.
use native.Mathlib.Nat.{add-zero}
use pico_deck_eddiscovery.Base.{
  ℕ, zero, suc, ◌+◌, ◌*◌, ◌≤◌, ◌<◌, min, ◌≡◌, refl, sym, ap, ◌∙◌, true, false, [], arith, ltb,
  lt→ltb, le→ltb-false, if◌then◌else◌,
}
use pico_deck_eddiscovery.Base.Bits.{u64_mod, u64, sub64}
use pico_deck_eddiscovery.WebSocket.Types.{
  ws_offline, ws_open, ws_error, Config, Platform, Client, now_ms,
}
use pico_deck_eddiscovery.WebSocket.Send.{close_connection, schedule_retry}
use pico_deck_eddiscovery.WebSocket.Client.{init, connect_now, watch, task}

lapsed :
    (since interval now : ℕ)
    → since + interval < now
    → now < u64_mod
    → ltb interval (sub64 now since) ≡ true
lapsed since interval now late small = lt→ltb _ _ (omega arith)

unlapsed :
    (since interval now : ℕ)
    → since ≤ now
    → now < u64_mod
    → now ≤ since + interval
    → ltb interval (sub64 now since) ≡ false
unlapsed since interval now past small fresh = le→ltb-false _ _ (omega arith)

module _ {W A : Type 0} (p : Platform W) where
  abbrev retries : ℕ → Client W A → Client W A
  retries zero c = c
  retries (suc k) c = retries k (schedule_retry p c)

  retries_delay :
      (k n : ℕ) (c : Client W A)
      → c.retry_delay_ms ≡ min (1000 * (n + 1)) 5000
      → (retries k c).retry_delay_ms ≡ min (1000 * (n + k + 1)) 5000
  unfolding schedule_retry close_connection
  retries_delay zero n c e = e ∙ ap (λ t. min (1000 * (t + 1)) 5000) (sym (add-zero n))
  retries_delay (suc k) n c e =
      retries_delay k (n + 1) (schedule_retry p c) (ground arith)
      ∙ ap (λ t. min (1000 * (t + 1)) 5000) (omega arith)

  -- The delay before the next attempt grows by a second with every failure that is scheduled, from one
  -- second after `websocket_client_init` to five at most.
  retries-init_delay :
      (k : ℕ) (config : Config) (c : Client W A)
      → (retries k (init config c)).retry_delay_ms ≡ min (1000 * (k + 1)) 5000
  unfolding init
  retries-init_delay k config c =
      retries_delay k 0 (init config c) refl ∙ ap (λ t. min (1000 * (t + 1)) 5000) (omega arith)

  -- After a failure there is no control block and no unread byte; with the network up, a task call
  -- before the delay has passed changes nothing, and one after it connects. The sum must not wrap.
  pub schedule_retry_waits :
      (c : Client W A) (w : W)
      → 0 < c.retry_delay_ms
      → now_ms p (schedule_retry p c).world + c.retry_delay_ms < u64_mod
      → let d = record (schedule_retry p c) { world = w } in
        (d.connected ≡ false)
        × (d.rx ≡ [])
        × (task p true d ≡ (
            if ltb (now_ms p w) (now_ms p (schedule_retry p c).world + c.retry_delay_ms)
            then d
            else connect_now p d))
  unfolding schedule_retry close_connection task watch
  schedule_retry_waits c w positive fits = (refl, refl, ground arith)

  -- An open connection that has been silent for longer than its idle timeout is closed by the next task
  -- call, with nothing left in the buffers, and a retry is due. The clock must not have wrapped.
  task_idle :
      (c : Client W A)
      → c.state ≡ ws_open
      → now_ms p c.world < u64_mod
      → 0 < c.config.idle_timeout_ms
      → c.last_rx_ms + c.config.idle_timeout_ms < now_ms p c.world
      → ((task p true c).state ≡ ws_error)
        × ((task p true c).connected ≡ false)
        × ((task p true c).rx ≡ [])
        × ((task p true c).message ≡ [])
  unfolding schedule_retry close_connection task watch
  task_idle c open_state small idle late = ground (arith, lapsed _ _ _ late small)

  -- An open connection that has received something within its idle timeout, and is not due for a ping,
  -- is left as it is.
  task_quiet :
      (c : Client W A)
      → c.state ≡ ws_open
      → c.last_rx_ms ≤ now_ms p c.world
      → c.last_ping_ms ≤ now_ms p c.world
      → now_ms p c.world < u64_mod
      → now_ms p c.world ≤ c.last_rx_ms + c.config.idle_timeout_ms
      → now_ms p c.world ≤ c.last_ping_ms + c.config.ping_interval_ms
      → task p true c ≡ c
  unfolding task watch
  task_quiet c open_state rx_past ping_past small fresh pinged =
      ground (arith, unlapsed _ _ _ rx_past small fresh, unlapsed _ _ _ ping_past small pinged)

  -- When the network goes away the connection is dropped whatever the state, and the next attempt is
  -- half a second off.
  task_offline :
      (c : Client W A)
      → c.connected ≡ true
      → ((task p false c).state ≡ ws_offline)
        × ((task p false c).connected ≡ false)
        × ((task p false c).rx ≡ [])
        × ((task p false c).retry_at_ms ≡ u64 (now_ms p c.world + 500))
  unfolding close_connection task
  task_offline c up = ground arith
