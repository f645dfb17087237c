-- ===== src/WebSocket/Fits.antt =====
-- The size of a frame that common/websocket_client.c reads, and of its payload.
use pico_deck_eddiscovery.Base.{
  ℕ, ◌+◌, ◌-◌, ◌/◌, ◌%◌, ◌≤◌, ◌≡◌, Bool, true, false, arith, ◌==◌, length, get_or, take, drop,
  length-take, Bytes,
}
use pico_deck_eddiscovery.WebSocket.Frame.{Frame, frame, parse_payload, parse_frame, big_endian}
use pico_deck_eddiscovery.WebSocket.RoundTrip.{length-mask_from}

-- A frame takes at least two of the bytes there are, and its payload fits the buffers.
pub record Fits (capacity : ℕ) (rest : Bytes) (f : Frame) (size : ℕ) : Type 0 where
  pub at_least : 2 ≤ size
  pub at_most : size ≤ length rest
  pub payload_fits : length f.payload ≤ capacity

parse_payload-Fits :
    (capacity : ℕ) (rest : Bytes) (fin : Bool) (opcode : ℕ) (masked : Bool) (header size0 : ℕ)
    {f : Frame} {size : ℕ}
    → 2 ≤ header
    → parse_payload capacity rest fin opcode masked header size0 ≡ frame f size
    → Fits capacity rest f size
unfolding parse_payload
parse_payload-Fits capacity rest fin opcode true header size0 two e = ground (
  arith,
  length-mask_from (take 4 (drop (header + 4 - 4) rest)) 0 (take size0 (drop (header + 4) rest)),
  length-take size0 (drop (header + 4) rest),
)
parse_payload-Fits capacity rest fin opcode false header size0 two e =
    ground (arith, length-take size0 (drop header rest))

pub parse_frame-Fits :
    (capacity : ℕ) (rest : Bytes) {f : Frame} {size : ℕ}
    → parse_frame capacity rest ≡ frame f size
    → Fits capacity rest f size
unfolding parse_frame
parse_frame-Fits capacity rest {f} {size} e = ground (
  arith,
  parse_payload-Fits capacity rest fin opcode masked 2 (second % 128) {f = f} {size = size},
  parse_payload-Fits capacity rest fin opcode masked 4 (big_endian 0 (take 2 (drop 2 rest))) {f = f}
      {size = size},
  parse_payload-Fits capacity rest fin opcode masked 10 (big_endian 0 (take 8 (drop 2 rest)))
      {f = f} {size = size},
)
  where
    second : ℕ
    second = get_or rest 1 0

    fin : Bool
    fin = (get_or rest 0 0 / 128) % 2 == 1

    opcode : ℕ
    opcode = get_or rest 0 0 % 16

    masked : Bool
    masked = (second / 128) % 2 == 1
