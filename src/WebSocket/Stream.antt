-- ===== src/WebSocket/Stream.antt =====
-- The stream that common/websocket_client.c reads: `consume_frames` may be called after any of the
-- pieces that TCP delivers.
use pico_deck_eddiscovery.Base.{
  ℕ, zero, suc, ◌<◌, ◌≡◌, refl, sym, ap, ◌∙◌, Bool, true, false, [], ◌++◌, arith, if◌then◌else◌,
  length, drop, length-append, length-drop, drop-append, Bytes, inl, inr,
}
use pico_deck_eddiscovery.WebSocket.Types.{Platform, Client, Callbacks}
use pico_deck_eddiscovery.WebSocket.Frame.{Frame, Parse-cases, more, bad, frame, parse_frame}
use pico_deck_eddiscovery.WebSocket.Send.{close_connection, schedule_retry, send_frame}
use pico_deck_eddiscovery.WebSocket.Receive.{deliver, handle_frame, frames, consume_frames}
use pico_deck_eddiscovery.WebSocket.Fits.{parse_frame-Fits}
use pico_deck_eddiscovery.WebSocket.Segments.{parse_frame-append}

module _ {W A : Type 0} (p : Platform W) (callbacks : Callbacks W A) where
  -- After a failure the unread bytes do not count: `receive_cb` drops them.
  abbrev outcome : Bool × Client W A → Bool × Client W A
  outcome (true, c) = (true, c)
  outcome (false, c) = (false, record c { rx = [] })

  handle_frame-rx :
      (f : Frame) (c : Client W A) (x : Bytes)
      → handle_frame p callbacks f (record c { rx = x })
        ≡ ((handle_frame p callbacks f c).0, record ((handle_frame p callbacks f c).1) { rx = x })
  unfolding handle_frame deliver send_frame
  handle_frame-rx f c x = ground arith

  pub frames-more :
      (out : Bool × Client W A) (n : ℕ) (rest : Bytes) (c : Client W A)
      → parse_frame p.rx_capacity rest ≡ more
      → frames p callbacks out (suc n) rest c ≡ (true, record c { rx = rest })
  unfolding frames
  frames-more out n rest c e = rw (e, frames) refl

  frames-bad :
      (out : Bool × Client W A) (n : ℕ) (rest : Bytes) (c : Client W A)
      → parse_frame p.rx_capacity rest ≡ bad
      → frames p callbacks out (suc n) rest c ≡ (false, c)
  unfolding frames
  frames-bad out n rest c e = rw (e, frames) refl

  pub frames-frame :
      (out : Bool × Client W A) (n : ℕ) (rest : Bytes) (c : Client W A) {f : Frame} {size : ℕ}
      → parse_frame p.rx_capacity rest ≡ frame f size
      → frames p callbacks out (suc n) rest c ≡ (
          if (handle_frame p callbacks f c).0
          then frames p callbacks out n (drop size rest) (handle_frame p callbacks f c).1
          else (false, (handle_frame p callbacks f c).1))
  unfolding frames
  frames-frame out n rest c e = rw (e, frames) refl

  frames-rx :
      (out : Bool × Client W A) (n : ℕ) (rest x : Bytes) (c : Client W A)
      → outcome (frames p callbacks out n rest (record c { rx = x }))
        ≡ outcome (frames p callbacks out n rest c)
  unfolding frames
  frames-rx out zero rest x c = refl
  frames-rx out (suc n) rest x c = elim (Parse-cases (parse_frame p.rx_capacity rest)) [
    | inl e ↦ rw (frames-more out n rest (record c { rx = x }) e, frames-more out n rest c e) refl
    | inr (inl e) ↦
        rw (frames-bad out n rest (record c { rx = x }) e, frames-bad out n rest c e) refl
    | inr (inr (f, size, e)) ↦ ground (
      arith,
      frames-frame out n rest (record c { rx = x }) e,
      frames-frame out n rest c e,
      handle_frame-rx f c x,
      frames-rx out n (drop size rest) x (handle_frame p callbacks f c).1,
    )
  ]

  -- With one turn more than there are bytes the fuel does not run out: the result does not depend on
  -- what running out of fuel would give, nor on how much fuel there is. So the loop ends by itself,
  -- within that many turns.
  pub frames_fuel :
      (out out' : Bool × Client W A) (n m : ℕ) (rest : Bytes) (c : Client W A)
      → length rest < n
      → length rest < m
      → frames p callbacks out n rest c ≡ frames p callbacks out' m rest c
  frames_fuel out out' zero m rest c h k = absurd (omega arith)
  frames_fuel out out' (suc n) zero rest c h k = absurd (omega arith)
  frames_fuel out out' (suc n) (suc m) rest c h k =
      elim (Parse-cases (parse_frame p.rx_capacity rest)) [
        | inl e ↦ frames-more out n rest c e ∙ sym (frames-more out' m rest c e)
        | inr (inl e) ↦ frames-bad out n rest c e ∙ sym (frames-bad out' m rest c e)
        | inr (inr (f, size, e)) ↦ ground (
          arith,
          parse_frame-Fits p.rx_capacity rest e,
          length-drop size rest,
          frames-frame out n rest c e,
          frames-frame out' m rest c e,
          frames_fuel out out' n m (drop size rest) (handle_frame p callbacks f c).1,
        )
      ]

  -- `consume_frames` on what a first call left and on what came later.
  abbrev pub resume : Bytes → Bool × Client W A → Bool × Client W A
  resume later (true, c) = consume_frames p callbacks (record c { rx = c.rx ++ later })
  resume later (false, c) = (false, c)

  append-more :
      (out out' : Bool × Client W A) (n m : ℕ) (rest later : Bytes) (c : Client W A)
      → length (rest ++ later) < m
      → parse_frame p.rx_capacity rest ≡ more
      → outcome (frames p callbacks out' m (rest ++ later) c)
        ≡ outcome (resume later (frames p callbacks out (suc n) rest c))
  unfolding consume_frames
  append-more out out' n m rest later c h e =
      let d = record c { rx = rest ++ later } in
      rw (frames-more out n rest c e) (
        ap outcome (
          frames_fuel out' (false, d) m (suc (length (rest ++ later))) (rest ++ later) c h
            (omega arith))
        ∙ sym
            (frames-rx (false, d) (suc (length (rest ++ later))) (rest ++ later) (rest ++ later) c))

  frames-append :
      (out out' : Bool × Client W A) (n m : ℕ) (rest later : Bytes) (c : Client W A)
      → length rest < n
      → length (rest ++ later) < m
      → outcome (frames p callbacks out' m (rest ++ later) c)
        ≡ outcome (resume later (frames p callbacks out n rest c))
  frames-append out out' zero m rest later c h k = absurd (omega arith)
  frames-append out out' (suc n) zero rest later c h k = absurd (omega arith)
  frames-append out out' (suc n) (suc m) rest later c h k =
      elim (Parse-cases (parse_frame p.rx_capacity rest)) [
        | inl e ↦ append-more out out' n (suc m) rest later c k e
        | inr (inl e) ↦
            rw
              (
                frames-bad out n rest c e,
                frames-bad out' m (rest ++ later) c (parse_frame-append _ rest later (cc e) ∙ e),
              )
              refl
        | inr (inr (f, size, e)) ↦ ground (
          arith,
          parse_frame-Fits p.rx_capacity rest e,
          length-append rest later,
          length-drop size rest,
          length-append (drop size rest) later,
          drop-append size rest later,
          frames-frame out n rest c e,
          frames-frame out' m (rest ++ later) c (parse_frame-append _ rest later (cc e) ∙ e),
          frames-append out out' n m (drop size rest) later (handle_frame p callbacks f c).1,
        )
      ]

  -- What `receive_cb` makes of the result: a failure schedules a retry.
  abbrev pub settle : Bool × Client W A → Bool × Client W A
  settle (true, c) = (true, c)
  settle (false, c) = (false, schedule_retry p c)

  settle-outcome : (r : Bool × Client W A) → settle (outcome r) ≡ settle r
  unfolding schedule_retry close_connection
  settle-outcome (true, c) = refl
  settle-outcome (false, c) = refl

  -- The bytes that one call left unread, followed by later ones, give what all the bytes give at once:
  -- the same messages handed over, the same replies, the same bytes left, or the same retry. So the
  -- result does not depend on how TCP cuts the stream.
  pub consume_frames-append :
      (c : Client W A) (later : Bytes)
      → settle (consume_frames p callbacks (record c { rx = c.rx ++ later }))
        ≡ settle (resume later (consume_frames p callbacks c))
  unfolding consume_frames
  consume_frames-append c later =
      sym (settle-outcome _)
      ∙ ap settle (
          frames-rx _ (suc (length (c.rx ++ later))) (c.rx ++ later) (c.rx ++ later) c
          ∙ frames-append (false, c) _ (suc (length c.rx)) (suc (length (c.rx ++ later))) c.rx later
              c (omega arith) (omega arith))
      ∙ settle-outcome _
