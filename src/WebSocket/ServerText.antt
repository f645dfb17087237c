-- ===== src/WebSocket/ServerText.antt =====
-- The text frames that common/websocket_client.c gets from the server, and what `parse_frame` makes of
-- one and of a part of one.
use pico_deck_eddiscovery.Base.{
  ℕ, suc, ◌+◌, ◌-◌, ◌/◌, ◌%◌, ◌≤◌, ◌<◌, ◌≡◌, refl, true, false, [], ◌∷◌, ◌++◌, arith, ltb,
  if◌then◌else◌, length, drop, length-append, take-length, drop-append_self, Bytes, Bool-cases,
  ltb→lt, inl, inr,
}
use pico_deck_eddiscovery.WebSocket.Frame.{
  Frame, Parse-cases, more, frame, parse_payload, parse_frame,
}
use pico_deck_eddiscovery.WebSocket.Fits.{parse_frame-Fits}
use pico_deck_eddiscovery.WebSocket.Segments.{parse_frame-append}

-- A final text frame as RFC 6455 has a server send it: not masked, with the short length or with the
-- one of 16 bits.
unfoldable pub server_text : Bytes → Bytes
server_text text =
    if ltb (length text) 126
    then 129 ∷ length text ∷ text
    else 129 ∷ 126 ∷ (length text / 256) % 256 ∷ length text % 256 ∷ text

abbrev pub text_frame : Bytes → Frame
text_frame text = record { fin = true; opcode = 1; payload = text }

-- A payload that is not masked, behind its header.
parse_payload-plain :
    (capacity : ℕ) (pre text : Bytes)
    → length pre + length text ≤ capacity
    → parse_payload capacity (pre ++ text) true 1 false (length pre) (length text)
      ≡ frame (text_frame text) (length (pre ++ text))
unfolding parse_payload
parse_payload-plain capacity pre text fits =
    ground (arith, length-append pre text, drop-append_self pre text, take-length text)

short_text :
    (capacity : ℕ) (text : Bytes)
    → length text < 126
    → length text + 4 ≤ capacity
    → parse_frame capacity (129 ∷ length text ∷ text) ≡ frame (text_frame text) (length text + 2)
unfolding parse_frame
short_text capacity text size fits =
    ground (arith, parse_payload-plain capacity (129 ∷ length text ∷ []) text (omega arith))

long_text :
    (capacity : ℕ) (text : Bytes)
    → length text < 65536
    → length text + 4 ≤ capacity
    → parse_frame capacity (129 ∷ 126 ∷ (length text / 256) % 256 ∷ length text % 256 ∷ text)
      ≡ frame (text_frame text) (length text + 4)
unfolding parse_frame
long_text capacity text size fits = ground (
  arith,
  parse_payload-plain capacity (129 ∷ 126 ∷ (length text / 256) % 256 ∷ length text % 256 ∷ []) text
      (omega arith),
)

pub parse_frame-server_text :
    (capacity : ℕ) (text : Bytes)
    → length text < 65536
    → length text + 4 ≤ capacity
    → parse_frame capacity (server_text text) ≡ frame (text_frame text) (length (server_text text))
unfolding server_text
parse_frame-server_text capacity text size fits = elim (Bool-cases (ltb (length text) 126)) [
  | inl small ↦ ground (arith, short_text capacity text (ltb→lt _ _ small) fits)
  | inr large ↦ ground (arith, long_text capacity text size fits)
]

-- A part of a frame is not one yet.
pub parse_frame-part :
    (capacity : ℕ) (part later : Bytes) {f : Frame}
    → 0 < length later
    → parse_frame capacity (part ++ later) ≡ frame f (length (part ++ later))
    → parse_frame capacity part ≡ more
parse_frame-part capacity part later {f} some_left whole =
    elim (Parse-cases (parse_frame capacity part)) [
      | inl e ↦ e
      | inr (inl e) ↦
          let same = parse_frame-append capacity part later (λ m. cc) in
          absurd (ground (arith, same, e, whole))
      | inr (inr (g, size, e)) ↦
          let same = parse_frame-append capacity part later (λ m. cc) in
          absurd (
            ground
              (arith, same, e, whole, length-append part later, parse_frame-Fits capacity part e))
    ]

pub drop-all : (xs : Bytes) → drop (length xs) xs ≡ []
drop-all [] = refl
drop-all (x ∷ xs) = drop-all xs

pub parse_frame-nil : (capacity : ℕ) → parse_frame capacity [] ≡ more
unfolding parse_frame
parse_frame-nil capacity = refl

pub length-server_text : (text : Bytes) → length (server_text text) ≤ length text + 4
unfolding server_text
length-server_text text = ground arith

pub long_enough : (text : Bytes) → suc (length (server_text text) - 1) ≡ length (server_text text)
unfolding server_text
long_enough text = ground arith
