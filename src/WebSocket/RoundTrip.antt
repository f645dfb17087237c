-- ===== src/WebSocket/RoundTrip.antt =====
-- What `send_frame` of common/websocket_client.c encodes, `consume_frames` reads back.
use pico_deck_eddiscovery.Base.{
  ℕ, suc, ◌+◌, ◌-◌, ◌/◌, ◌%◌, ◌≤◌, ◌<◌, bit_xor, ◌≡◌, refl, ap, ap₂, ◌∙◌, Bool, true, false, not,
  ◌&&◌, ◌||◌, [], ◌∷◌, ◌++◌, append_assoc, arith, ltb, ◌==◌, length, get_or, take, drop,
  length-append, take-exact, drop-exact, drop-append_add, Bytes, Bool-cases, ltb→lt, ltb-false→le,
  inl, inr,
}
use pico_deck_eddiscovery.Base.Bits.{xor_xor}
use pico_deck_eddiscovery.WebSocket.Frame.{
  mask_from, encode_header, frame, parse_payload, parse_frame,
}

pub length-mask_from :
    (mask : Bytes) (i : ℕ) (bs : Bytes) → length (mask_from mask i bs) ≡ length bs
length-mask_from mask i [] = refl
length-mask_from mask i (b ∷ bs) = ap suc (length-mask_from mask (i + 1) bs)

-- Masking twice gives the bytes back.
pub mask_from-mask_from :
    (mask : Bytes) (i : ℕ) (bs : Bytes) → mask_from mask i (mask_from mask i bs) ≡ bs
mask_from-mask_from mask i [] = refl
mask_from-mask_from mask i (b ∷ bs) =
    ap₂ ◌∷◌ (xor_xor (b + get_or mask (i % 4) 0) b (get_or mask (i % 4) 0) (omega arith))
      (mask_from-mask_from mask (i + 1) bs)

-- Masking in two runs is masking in one.
pub mask_from-append :
    (mask : Bytes) (i : ℕ) (xs ys : Bytes)
    → mask_from mask i (xs ++ ys) ≡ mask_from mask i xs ++ mask_from mask (i + length xs) ys
mask_from-append mask i [] ys = ap (λ k. mask_from mask k ys) (omega arith)
mask_from-append mask i (x ∷ xs) ys = ap (◌∷◌ (bit_xor x (get_or mask (i % 4) 0))) (
    mask_from-append mask (i + 1) xs ys
    ∙ ap (λ k. mask_from mask (i + 1) xs ++ mask_from mask k ys) (omega arith))

-- Whether `consume_frames` takes a control frame of this size.
abbrev pub refused : Bool → ℕ → ℕ → Bool
refused fin opcode size = (opcode / 8) % 2 == 1 && (not fin || ltb 125 size)

abbrev framed : Bytes → Bytes → Bytes → Bytes → Bytes
framed pre mask payload rest = pre ++ (mask ++ (mask_from mask 0 payload ++ rest))

module _ (pre mask payload rest : Bytes) (four : length mask ≡ 4) where
  mask_of_framed : take 4 (drop (length pre + 4 - 4) (framed pre mask payload rest)) ≡ mask
  mask_of_framed =
      ap (take 4) (
        drop-exact (length pre + 4 - 4) pre (mask ++ (mask_from mask 0 payload ++ rest))
          (omega arith))
      ∙ take-exact 4 mask (mask_from mask 0 payload ++ rest) four

  payload_of_framed :
      take (length payload) (drop (length pre + 4) (framed pre mask payload rest))
      ≡ mask_from mask 0 payload
  payload_of_framed =
      ap (take (length payload)) (
        drop-append_add 4 pre (mask ++ (mask_from mask 0 payload ++ rest))
        ∙ drop-exact 4 mask (mask_from mask 0 payload ++ rest) four)
      ∙ take-exact (length payload) (mask_from mask 0 payload) rest
          (length-mask_from mask 0 payload)

  length-framed :
      length (framed pre mask payload rest) ≡ length pre + 4 + length payload + length rest
  length-framed = omega (
    arith,
    length-append pre (mask ++ (mask_from mask 0 payload ++ rest)),
    length-append mask (mask_from mask 0 payload ++ rest),
    length-append (mask_from mask 0 payload) rest,
    length-mask_from mask 0 payload,
  )

  parse_payload-framed :
      (capacity : ℕ) (fin : Bool) (opcode : ℕ)
      → length pre + 4 + length payload ≤ capacity
      → refused fin opcode (length payload) ≡ false
      → parse_payload capacity
          (framed pre mask payload rest)
          fin
          opcode
          true
          (length pre)
          (length payload)
        ≡ frame
            (record { fin = fin; opcode = opcode; payload = payload })
            (length pre + 4 + length payload)
  unfolding parse_payload
  parse_payload-framed capacity fin opcode fits ok =
      ground (
        arith,
        length-framed,
        mask_of_framed,
        payload_of_framed,
        mask_from-mask_from mask 0 payload,
      )

-- The header, the mask and the masked payload, as `send_frame` writes them.
abbrev pub sent_frame : ℕ → Bytes → Bytes → Bytes
sent_frame opcode mask payload =
    (encode_header opcode (length payload) ++ mask) ++ mask_from mask 0 payload

short_frame :
    (capacity opcode : ℕ) (mask payload rest : Bytes)
    → opcode < 16
    → length mask ≡ 4
    → length payload < 126
    → length payload + 8 ≤ capacity
    → refused true opcode (length payload) ≡ false
    → parse_frame capacity
        (framed ((128 + opcode % 16) ∷ (128 + length payload) ∷ []) mask payload rest)
      ≡ frame (record { fin = true; opcode = opcode; payload = payload }) (length payload + 6)
unfolding parse_frame
short_frame capacity opcode mask payload rest op four size fits ok = ground (
  arith,
  parse_payload-framed pre mask payload rest four capacity true opcode (omega arith) ok,
  length-framed pre mask payload rest four,
)
  where
    pre : Bytes
    pre = (128 + opcode % 16) ∷ (128 + length payload) ∷ []

long_frame :
    (capacity opcode : ℕ) (mask payload rest : Bytes)
    → opcode < 16
    → length mask ≡ 4
    → 126 ≤ length payload
    → length payload < 65536
    → length payload + 8 ≤ capacity
    → refused true opcode (length payload) ≡ false
    → parse_frame capacity (
        framed
          ((128 + opcode % 16) ∷ 0xfe ∷ (length payload / 256) % 256 ∷ length payload % 256 ∷ [])
          mask
          payload
          rest)
      ≡ frame (record { fin = true; opcode = opcode; payload = payload }) (length payload + 8)
unfolding parse_frame
long_frame capacity opcode mask payload rest op four big size fits ok = ground (
  arith,
  parse_payload-framed pre mask payload rest four capacity true opcode (omega arith) ok,
  length-framed pre mask payload rest four,
)
  where
    pre : Bytes
    pre = (128 + opcode % 16) ∷ 0xfe ∷ (length payload / 256) % 256 ∷ length payload % 256 ∷ []

regroup :
    (pre mask payload rest : Bytes)
    → ((pre ++ mask) ++ mask_from mask 0 payload) ++ rest ≡ framed pre mask payload rest
regroup pre mask payload rest =
    append_assoc (pre ++ mask) (mask_from mask 0 payload) rest ∙ append_assoc pre mask _

length-sent :
    (pre mask payload : Bytes)
    → length mask ≡ 4
    → length ((pre ++ mask) ++ mask_from mask 0 payload) ≡ length pre + 4 + length payload
length-sent pre mask payload four = omega (
  arith,
  length-append (pre ++ mask) (mask_from mask 0 payload),
  length-append pre mask,
  length-mask_from mask 0 payload,
)

-- A frame as the client writes it, with whatever follows it in the buffer, is read back as one final
-- frame with the same opcode and payload, and the bytes taken are exactly those written. It holds for
-- a mask of four bytes and a payload that fits a 16-bit length and the receiver's buffer, a control
-- frame having at most 125 bytes.
pub parse_frame-sent_frame :
    (capacity opcode : ℕ) (mask payload rest : Bytes)
    → opcode < 16
    → length mask ≡ 4
    → length payload < 65536
    → length payload + 8 ≤ capacity
    → refused true opcode (length payload) ≡ false
    → parse_frame capacity (sent_frame opcode mask payload ++ rest)
      ≡ frame
          (record { fin = true; opcode = opcode; payload = payload })
          (length (sent_frame opcode mask payload))
unfolding encode_header
parse_frame-sent_frame capacity opcode mask payload rest op four size fits ok =
    elim (Bool-cases (ltb (length payload) 126)) [
      | inl small ↦ ground (
        arith,
        regroup short mask payload rest,
        length-sent short mask payload four,
        short_frame capacity opcode mask payload rest op four (ltb→lt _ _ small) fits ok,
      )
      | inr large ↦ ground (
        arith,
        regroup long mask payload rest,
        length-sent long mask payload four,
        long_frame capacity opcode mask payload rest op four (ltb-false→le _ _ large) size fits ok,
      )
    ]
  where
    short : Bytes
    short = (128 + opcode % 16) ∷ (128 + length payload) ∷ []

    long : Bytes
    long = (128 + opcode % 16) ∷ 0xfe ∷ (length payload / 256) % 256 ∷ length payload % 256 ∷ []
