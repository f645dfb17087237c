-- ===== src/WebSocket/Segments.antt =====
-- `consume_frames` of common/websocket_client.c does not depend on how TCP cuts the stream.
use pico_deck_eddiscovery.Base.{
  ℕ, zero, suc, ◌+◌, ◌-◌, ◌/◌, ◌%◌, ◌≤◌, ◌<◌, ◌≡◌, ◌≢◌, refl, ap, ◌∙◌, Bool, true, false, [], ◌∷◌,
  ◌++◌, arith, ◌==◌, length, get_or, take, drop, length-append, length-drop, take-append,
  drop-append, Bytes,
}
use pico_deck_eddiscovery.WebSocket.Frame.{more, big_endian, parse_payload, parse_frame}

get_or-append : (xs ys : Bytes) (i d : ℕ) → i < length xs → get_or (xs ++ ys) i d ≡ get_or xs i d
get_or-append [] ys i d h = absurd (omega arith)
get_or-append (x ∷ xs) ys zero d h = refl
get_or-append (x ∷ xs) ys (suc i) d h = get_or-append xs ys i d (omega arith)

-- A run of bytes that is all there does not change when more bytes arrive.
take-drop-append :
    (n m : ℕ) (xs ys : Bytes) → m + n ≤ length xs → take n (drop m (xs ++ ys)) ≡ take n (drop m xs)
take-drop-append n m xs ys h =
    ap (take n) (drop-append m xs ys (omega arith))
    ∙ take-append n (drop m xs) ys (omega (arith, length-drop m xs))

parse_payload-append :
    (capacity : ℕ) (rest later : Bytes) (fin : Bool) (opcode : ℕ) (masked : Bool) (header size : ℕ)
    → 4 ≤ header + 2
    → parse_payload capacity rest fin opcode masked header size ≢ more
    → parse_payload capacity (rest ++ later) fin opcode masked header size
      ≡ parse_payload capacity rest fin opcode masked header size
unfolding parse_payload
parse_payload-append capacity rest later fin opcode true header size two known = ground (
  arith,
  length-append rest later,
  take-drop-append 4 (header + 4 - 4) rest later,
  take-drop-append size (header + 4) rest later,
)
parse_payload-append capacity rest later fin opcode false header size two known =
    ground (arith, length-append rest later, take-drop-append size header rest later)

-- Once a frame is understood or refused, bytes behind it make no difference.
pub parse_frame-append :
    (capacity : ℕ) (rest later : Bytes)
    → parse_frame capacity rest ≢ more
    → parse_frame capacity (rest ++ later) ≡ parse_frame capacity rest
unfolding parse_frame
parse_frame-append capacity rest later known = ground (
  arith,
  length-append rest later,
  get_or-append rest later 0 0,
  get_or-append rest later 1 0,
  take-drop-append 2 2 rest later,
  take-drop-append 8 2 rest later,
  parse_payload-append capacity rest later fin opcode masked 2 (second % 128) (omega arith),
  parse_payload-append capacity rest later fin opcode masked 4 (big_endian 0 (take 2 (drop 2 rest)))
      (omega arith),
  parse_payload-append capacity rest later fin opcode masked 10
      (big_endian 0 (take 8 (drop 2 rest))) (omega arith),
)
  where
    second : ℕ
    second = get_or rest 1 0

    fin : Bool
    fin = (get_or rest 0 0 / 128) % 2 == 1

    opcode : ℕ
    opcode = get_or rest 0 0 % 16

    masked : Bool
    masked = (second / 128) % 2 == 1
