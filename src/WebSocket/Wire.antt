-- ===== src/WebSocket/Wire.antt =====
-- What `send_frame` of common/websocket_client.c puts on the wire.
use pico_deck_eddiscovery.Base.{
  ℕ, zero, suc, ◌+◌, ◌-◌, ◌≤◌, ◌<◌, min, ◌≡◌, refl, sym, ap, ◌∙◌, Bool, true, not, [], ◌∷◌, ◌++◌,
  append_assoc, append-nil, arith, ◌==◌, length, take, drop, length-take, length-drop,
  take-append-drop, Bytes,
}
use pico_deck_eddiscovery.WebSocket.Types.{Platform, Client}
use pico_deck_eddiscovery.WebSocket.Frame.{mask_from, encode_header}
use pico_deck_eddiscovery.WebSocket.Send.{send_chunks, send_frame_world, send_frame}
use pico_deck_eddiscovery.WebSocket.RoundTrip.{mask_from-append, sent_frame}

-- lwIP's promise: `wire` is what has been handed to the connection's stream. An accepted write appends
-- its bytes; flushing and drawing a random word, which has four bytes, change nothing.
pub record WireLaws {W : Type 0} (p : Platform W) (wire : W → Bytes) : Type 0 where
  pub written :
      (bytes : Bytes) (more : Bool) (w : W)
      → (p.tcp_write bytes more w).0 ≡ true
      → wire (p.tcp_write bytes more w).1 ≡ wire w ++ bytes
  pub flushed : (w : W) → wire (p.tcp_output w).1 ≡ wire w
  pub drawn : (w : W) → wire (p.get_rand_32 w).1 ≡ wire w
  pub word : (w : W) → length (p.get_rand_32 w).0 ≡ 4

module _ {W : Type 0} (p : Platform W) (wire : W → Bytes) (laws : WireLaws p wire)
    (chunked : 0 < p.send_chunk_size) where
  -- One chunk and the rest make up the masked payload.
  chunk_then_rest :
      (mask : Bytes) (offset : ℕ) (rest : Bytes) (size : ℕ)
      → mask_from mask offset (take (min (length rest) size) rest)
          ++ mask_from mask (offset + min (length rest) size) (drop (min (length rest) size) rest)
        ≡ mask_from mask offset rest
  chunk_then_rest mask offset rest size =
      ap (λ k. mask_from mask offset (take n rest) ++ mask_from mask (offset + k) (drop n rest))
        exact
      ∙ sym (mask_from-append mask offset (take n rest) (drop n rest))
      ∙ ap (mask_from mask offset) (take-append-drop n rest)
    where
      n : ℕ
      n = min (length rest) size

      exact : min (length rest) size ≡ length (take (min (length rest) size) rest)
      exact = omega (arith, length-take (min (length rest) size) rest)

  nil_of_length : (rest : Bytes) → length rest ≡ 0 → rest ≡ []
  nil_of_length [] e = refl
  nil_of_length (b ∷ bs) e = absurd (omega arith)

  shorter :
      (len fuel size n : ℕ) {k : ℕ}
      → k ≡ len - n
      → n ≡ min len size
      → len ≤ suc fuel
      → 0 < size
      → k ≤ fuel
  shorter len fuel size n e m h c = omega arith

  -- With a round for each byte left, all of the payload is written.
  send_chunks-wire :
      (fuel : ℕ) (mask : Bytes) (offset : ℕ) (rest : Bytes) (w : W)
      → length rest ≤ fuel
      → (send_chunks p fuel mask offset rest w).0 ≡ true
      → wire (send_chunks p fuel mask offset rest w).1 ≡ wire w ++ mask_from mask offset rest
  unfolding send_chunks
  send_chunks-wire zero mask offset rest w h ok =
      rw (nil_of_length rest (omega arith)) (sym (append-nil (wire w)))
  send_chunks-wire (suc fuel) mask offset rest w h ok = ground (
    arith,
    nil_of_length rest,
    append-nil (wire w),
    append_assoc (wire w) (mask_from mask offset (take n rest))
        (mask_from mask (offset + n) (drop n rest)),
    chunk_then_rest mask offset rest p.send_chunk_size,
    laws.written (mask_from mask offset (take n rest)) (not (length rest == n)) w,
    send_chunks-wire fuel mask (offset + n) (drop n rest)
        (p.tcp_write (mask_from mask offset (take n rest)) (not (length rest == n)) w).1
        (shorter (length rest) fuel p.send_chunk_size n (length-drop n rest) refl h chunked),
  )
    where
      n : ℕ
      n = min (length rest) p.send_chunk_size

  -- A frame reported as sent is on the wire whole: the stream grows by exactly the header, the mask
  -- that was drawn and the masked payload, whatever the size of the chunks.
  pub send_frame-wire :
      {A : Type 0} (opcode : ℕ) (payload : Bytes) (c : Client W A)
      → (send_frame p opcode payload c).0 ≡ true
      → wire (send_frame p opcode payload c).1.world
        ≡ wire c.world ++ sent_frame opcode (p.get_rand_32 c.world).0 payload
  unfolding send_frame send_frame_world
  send_frame-wire opcode payload c ok = ground (
    arith,
    laws.drawn c.world,
    laws.written head true drawn,
    send_chunks-wire (length payload) mask 0 payload written (omega arith),
    laws.flushed (send_chunks p (length payload) mask 0 payload written).1,
    append_assoc (wire c.world) head (mask_from mask 0 payload),
  )
    where
      mask : Bytes
      mask = (p.get_rand_32 c.world).0

      drawn : W
      drawn = (p.get_rand_32 c.world).1

      head : Bytes
      head = encode_header opcode (length payload) ++ mask

      written : W
      written = (p.tcp_write head true drawn).1
