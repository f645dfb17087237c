-- ===== src/WebSocket/Frame.antt =====
-- The wire format in common/websocket_client.c: the header that `send_frame` writes, the mask, and
-- the header that one round of `consume_frames` reads.
use pico_deck_eddiscovery.Base.{
  ℕ, ◌≡◌, refl, ◌⊎◌, inl, inr, ◌+◌, ◌-◌, ◌*◌, ◌/◌, ◌%◌, bit_xor, Bool, not, ◌&&◌, ◌||◌, [], ◌∷◌,
  ltb, ◌==◌, if◌then◌else◌, length, get_or, take, drop, Bytes,
}

-- `bytes[i] ^ mask[i & 3]`, from index `i` on.
abbrev pub mask_from : Bytes → ℕ → Bytes → Bytes
mask_from mask i [] = []
mask_from mask i (b ∷ bs) = bit_xor b (get_or mask (i % 4) 0) ∷ mask_from mask (i + 1) bs

-- `header[0 .. header_length)` before the mask is copied behind it.
unfoldable pub encode_header : ℕ → ℕ → Bytes
encode_header opcode length =
    if ltb length 126
    then (128 + opcode % 16) ∷ (128 + length) ∷ []
    else (128 + opcode % 16) ∷ 0xfe ∷ (length / 256) % 256 ∷ length % 256 ∷ []

-- What one frame says.
pub record Frame : Type 0 where
  pub fin : Bool
  pub opcode : ℕ
  pub payload : Bytes

-- What a round of the loop makes of the unread bytes: `break` or the end of the loop, `return
-- false`, or a frame and the number of bytes that it takes.
pub data Parse : Type 0 where
  more : Parse
  bad : Parse
  frame : Frame → ℕ → Parse

pub Parse-cases :
    (e : Parse) → (e ≡ more) ⊎ (e ≡ bad) ⊎ ((f : Frame) × (size : ℕ) × (e ≡ frame f size))
Parse-cases more = inl refl
Parse-cases bad = inr (inl refl)
Parse-cases (frame f size) = inr (inr (f, size, refl))

-- Big-endian.
abbrev pub big_endian : ℕ → Bytes → ℕ
big_endian acc [] = acc
big_endian acc (b ∷ bs) = big_endian (acc * 256 + b) bs

-- From the extended length on, with the header's size so far.
unfoldable pub parse_payload : ℕ → Bytes → Bool → ℕ → Bool → ℕ → ℕ → Parse
parse_payload capacity rest fin opcode masked header0 length0 =
    let header = if masked then header0 + 4 else header0 in
    if ltb capacity length0 || ltb capacity (header + length0)
    then bad
    else if ltb (length rest) (header + length0)
    then more
    else if (opcode / 8) % 2 == 1 && (not fin || ltb 125 length0)
    then bad
    else frame
        (record {
          fin = fin;
          opcode = opcode;
          payload =
              if masked
              then mask_from (take 4 (drop (header - 4) rest)) 0 (take length0 (drop header rest))
              else take length0 (drop header rest);
        })
        (header + length0)

unfoldable pub parse_frame : ℕ → Bytes → Parse
parse_frame capacity rest =
    let first = get_or rest 0 0 in
    let second = get_or rest 1 0 in
    let fin = (first / 128) % 2 == 1 in
    let opcode = first % 16 in
    let masked = (second / 128) % 2 == 1 in
    let length7 = second % 128 in
    if ltb (length rest) 2
    then more
    else if length7 == 126
    then (if ltb (length rest) 4
        then more
        else parse_payload capacity rest fin opcode masked 4 (big_endian 0 (take 2 (drop 2 rest))))
    else if length7 == 127
    then (if ltb (length rest) 10
        then more
        else parse_payload capacity rest fin opcode masked 10 (big_endian 0 (take 8 (drop 2 rest))))
    else parse_payload capacity rest fin opcode masked 2 length7
