-- ===== src/NetUsb/Mailbox.antt =====
-- The slot for one received frame in common/net_usb.c, between TinyUSB's callback and the main loop.
use pico_deck_eddiscovery.Base.{
  ℕ, ◌≡◌, ◌∙◌, refl, sym, ap, Bool, true, false, not, Option, none, some, List, [], ◌∷◌, ◌++◌, ◌==◌,
  if◌then◌else◌, length, Bytes, append-nil, Bool-cases, inl, inr,
}
use pico_deck_eddiscovery.NetUsb.{
  NetPlatform, Net, pass_on, take_frame, net_usb_task, store_frame, tud_network_recv_cb,
  tud_network_init_cb,
}

-- What lwIP does with frames: `input w` is the frames handed to it so far. The other calls of these
-- operations hand it none.
pub record NetLaws {W : Type 0} (p : NetPlatform W) (input : W → List Bytes) : Type 0 where
  pub handed_over : (f : Bytes) (w : W) → input (p.ethernet_input f w).1 ≡ input w ++ f ∷ []
  pub renewed : (w : W) → input (p.tud_network_recv_renew w) ≡ input w
  pub freed : (f : Bytes) (w : W) → input (p.pbuf_free f w) ≡ input w
  pub allocated : (n : ℕ) (w : W) → input (p.pbuf_alloc n w).1 ≡ input w
  pub copied : (f : Bytes) (w : W) → input (p.pbuf_take f w).1 ≡ input w
  pub timed : (w : W) → input (p.sys_check_timeouts w) ≡ input w

-- What happens to the interface, in order: a frame arrives from USB, the main loop runs, or the host
-- resets the interface, on which TinyUSB calls `tud_network_init_cb`.
pub data Event : Type 0 where
  arrives : Bytes → Event
  runs : Event
  resets : Event

abbrev waiting : Option Bytes → List Bytes
waiting none = []
waiting (some f) = f ∷ []

abbrev pub without_last : List Bytes → List Bytes
without_last [] = []
without_last (f ∷ []) = []
without_last (f ∷ g ∷ fs) = f ∷ without_last (g ∷ fs)

abbrev pub struck : Option Bytes → List Bytes → List Bytes
struck none ledger = ledger
struck (some f) ledger = without_last ledger

without_last-append : (fs : List Bytes) (f : Bytes) → without_last (fs ++ f ∷ []) ≡ fs
without_last-append [] f = refl
without_last-append (g ∷ []) f = refl
without_last-append (g ∷ h ∷ fs) f = ap (◌∷◌ g) (without_last-append (h ∷ fs) f)

module _ {W : Type 0} (p : NetPlatform W) where
  -- What the callback takes: the frame, where it answers `true` and the frame is not empty.
  abbrev taken : Bytes → Net W → List Bytes
  taken f n = if (tud_network_recv_cb p f n).0 then (if length f == 0 then [] else f ∷ []) else []

  -- The state after the events, and a ledger of frames: each that the callback takes is added, and a
  -- reset strikes out the last where it still waits.
  abbrev pub after : List Event → List Bytes → Net W → List Bytes × Net W
  after [] ledger n = (ledger, n)
  after (runs ∷ es) ledger n = after es ledger (net_usb_task p n)
  after (arrives f ∷ es) ledger n = after es (ledger ++ taken f n) (tud_network_recv_cb p f n).1
  after (resets ∷ es) ledger n = after es (struck n.received_frame ledger) (tud_network_init_cb p n)

  module _ (input : W → List Bytes) where
    -- The frames that lwIP has and the one that waits for it.
    abbrev pub seen : Net W → List Bytes
    seen n = input n.world ++ waiting n.received_frame

    module _ (laws : NetLaws p input) where
      open laws use {handed_over, renewed, freed, allocated, copied, timed}

      pass_on-input : (f : Bytes) (w : W) → input (pass_on p f w) ≡ input w ++ f ∷ []
      unfolding pass_on
      pass_on-input f w = renewed _ ∙ taken_or_freed (p.ethernet_input f w).0
        where
          taken_or_freed :
              (ok : Bool)
              → input
                  (if ok then (p.ethernet_input f w).1 else p.pbuf_free f (p.ethernet_input f w).1)
                ≡ input w ++ f ∷ []
          taken_or_freed true = handed_over f w
          taken_or_freed false = freed f (p.ethernet_input f w).1 ∙ handed_over f w

      take_frame-seen :
          (o : Option Bytes) (n : Net W) → n.received_frame ≡ o → seen (take_frame p o n) ≡ seen n
      unfolding take_frame
      take_frame-seen none n e = refl
      take_frame-seen (some f) n e =
          append-nil _ ∙ pass_on-input f n.world ∙ ap (λ o. input n.world ++ waiting o) (sym e)

      store_frame-seen :
          (f : Bytes) (n : Net W)
          → n.received_frame ≡ none
          → let r = store_frame p f n in seen r.1 ≡ seen n ++ (if r.0 then f ∷ [] else [])
      unfolding store_frame
      store_frame-seen f n e =
          stored (p.pbuf_alloc (length f) n.world).0
            (p.pbuf_take f (p.pbuf_alloc (length f) n.world).1).0
        where
          w : W
          w = (p.pbuf_alloc (length f) n.world).1

          w' : W
          w' = (p.pbuf_take f (p.pbuf_alloc (length f) n.world).1).1

          copied_input : input w' ≡ input n.world
          copied_input = copied f w ∙ allocated (length f) n.world

          unchanged :
              (v : W) → input v ≡ input n.world → input v ++ waiting n.received_frame ≡ seen n ++ []
          unchanged v h = ap (λ l. l ++ waiting n.received_frame) h ∙ sym (append-nil (seen n))

          stored :
              (a t : Bool)
              → let r =
                  if◌then◌else◌ {A = Bool × Net W}
                    (not a)
                    (false, record n { world = w })
                    (if◌then◌else◌ {A = Bool × Net W} t
                      (true, record n { received_frame = some f; world = w' })
                      (false, record n { world = p.pbuf_free f w' })) in
                seen r.1 ≡ seen n ++ (if r.0 then f ∷ [] else [])
          stored false t = unchanged w (allocated (length f) n.world)
          stored true false = unchanged (p.pbuf_free f w') (freed f w' ∙ copied_input)
          stored true true =
              ap (λ l. l ++ f ∷ [])
                (copied_input
                  ∙ sym (append-nil (input n.world))
                  ∙ ap (λ o. input n.world ++ waiting o) (sym e))

      recv_cb-seen :
          (f : Bytes) (n : Net W) (o : Option Bytes)
          → n.received_frame ≡ o
          → seen (tud_network_recv_cb p f n).1 ≡ seen n ++ taken f n
      unfolding tud_network_recv_cb
      recv_cb-seen f n (some g) e = rw (e) (sym (append-nil _))
      recv_cb-seen f n none e = elim (Bool-cases (length f == 0)) [
        | inl l ↦ rw (e, l) (sym (append-nil (input n.world ++ [])))
        | inr l ↦ rw (e, l) (store_frame-seen f (record n { received_frame = none }) refl)
      ]

      net_usb_task-seen : (n : Net W) → seen (net_usb_task p n) ≡ seen n
      unfolding net_usb_task
      net_usb_task-seen n =
          ap (λ l. l ++ waiting (take_frame p n.received_frame n).received_frame)
            (timed (take_frame p n.received_frame n).world)
          ∙ take_frame-seen n.received_frame n refl

      init_cb-seen :
          (n : Net W) (o : Option Bytes)
          → n.received_frame ≡ o
          → seen (tud_network_init_cb p n) ≡ struck o (seen n)
      unfolding tud_network_init_cb
      init_cb-seen n none e = rw (e) refl
      init_cb-seen n (some f) e =
          rw (e) (append-nil _ ∙ freed f n.world ∙ sym (without_last-append (input n.world) f))

      after-seen :
          (events : List Event) (ledger : List Bytes) (n : Net W)
          → seen n ≡ ledger
          → let r = after events ledger n in seen r.1 ≡ r.0
      after-seen [] ledger n h = h
      after-seen (runs ∷ es) ledger n h =
          after-seen es ledger (net_usb_task p n) (net_usb_task-seen n ∙ h)
      after-seen (arrives f ∷ es) ledger n h =
          after-seen es (ledger ++ taken f n) (tud_network_recv_cb p f n).1
            (recv_cb-seen f n n.received_frame refl ∙ ap (λ l. l ++ taken f n) h)
      after-seen (resets ∷ es) ledger n h =
          after-seen es (struck n.received_frame ledger) (tud_network_init_cb p n)
            (init_cb-seen n n.received_frame refl ∙ ap (struck n.received_frame) h)

      -- Whatever arrives, whenever the main loop runs and whenever the interface is reset: the frames that
      -- lwIP has been handed, with the one that waits behind them, are those it had before and, in order
      -- and once each, those that the callback has taken since, but for each that waited at a reset: such
      -- a frame was the last one taken, and lwIP never gets it.
      pub frames_in_order :
          (events : List Event) (n : Net W) → let r = after events (seen n) n in seen r.1 ≡ r.0
      frames_in_order events n = after-seen events (seen n) n refl
