-- ===== src/WebSocket/Fragments.antt =====
-- Fragmented messages in common/websocket_client.c: `handle_frame` over a run of frames.
use pico_deck_eddiscovery.Base.{
  ◌+◌, ◌≤◌, ◌≡◌, refl, Bool, true, false, some, List, [], ◌∷◌, ◌++◌, append_assoc, append-nil,
  arith, if◌then◌else◌, length, length-append, Bytes,
}
use pico_deck_eddiscovery.Base.Bits.{u32}
use pico_deck_eddiscovery.WebSocket.Types.{Platform, Client, Callbacks}
use pico_deck_eddiscovery.WebSocket.Frame.{Frame}
use pico_deck_eddiscovery.WebSocket.Receive.{deliver, handle_frame}

-- The frames that carry a text in parts: the first, those between, and the last.
abbrev pub first_part : Bytes → Frame
first_part part = record { fin = false; opcode = 1; payload = part }

abbrev pub middle_part : Bytes → Frame
middle_part part = record { fin = false; opcode = 0; payload = part }

abbrev pub last_part : Bytes → Frame
last_part part = record { fin = true; opcode = 0; payload = part }

abbrev pub joined : List Bytes → Bytes
joined [] = []
joined (part ∷ parts) = part ++ joined parts

module _ {W A : Type 0} (p : Platform W) (callbacks : Callbacks W A) where
  -- The frames between, in order, then the last; a refusal stops the run.
  abbrev pub handle_rest : List Bytes → Bytes → Client W A → Bool × Client W A
  handle_rest [] end c = handle_frame p callbacks (last_part end) c
  handle_rest (part ∷ parts) end c =
      let r = handle_frame p callbacks (middle_part part) c in
      let rest = handle_rest parts end r.1 in if r.0 then rest else (false, r.1)

  abbrev pub handle_parts : Bytes → List Bytes → Bytes → Client W A → Bool × Client W A
  handle_parts start parts end c =
      let r = handle_frame p callbacks (first_part start) c in
      let rest = handle_rest parts end r.1 in if r.0 then rest else (false, r.1)

  -- One text message has been handed over.
  abbrev pub delivered : Bytes → (Bytes → A → A) → Client W A → Client W A
  delivered text f c = record c {
    app = f text c.app;
    messages = u32 (c.messages + 1);
    message = [];
    fragment_opcode = 0;
  }

  handle_rest-delivered :
      (parts : List Bytes) (end : Bytes) (f : Bytes → A → A) (c : Client W A)
      → callbacks.message_cb ≡ some f
      → c.fragment_opcode ≡ 1
      → length (c.message ++ joined parts ++ end) ≤ p.rx_capacity
      → handle_rest parts end c ≡ (true, delivered (c.message ++ joined parts ++ end) f c)
  unfolding handle_frame deliver
  handle_rest-delivered [] end f c cb text fits =
      ground (arith, append-nil c.message, length-append (c.message ++ []) end)
  handle_rest-delivered (part ∷ parts) end f c cb text fits = ground (
    arith,
    append_assoc c.message part (joined parts),
    length-append (c.message ++ (part ++ joined parts)) end,
    length-append c.message (part ++ joined parts),
    length-append part (joined parts),
    handle_rest-delivered parts end f (record c { message = c.message ++ part }) cb text,
  )

  -- A text that arrives in parts is handed over once, whole and in order, and counted once: the message
  -- is the first payload, those between and the last one, joined. It holds when no other message is
  -- being gathered and the whole fits the buffer.
  pub handle_parts-delivered :
      (start : Bytes) (parts : List Bytes) (end : Bytes) (f : Bytes → A → A) (c : Client W A)
      → callbacks.message_cb ≡ some f
      → c.fragment_opcode ≡ 0
      → length (start ++ joined parts ++ end) ≤ p.rx_capacity
      → handle_parts start parts end c ≡ (true, delivered (start ++ joined parts ++ end) f c)
  unfolding handle_frame
  handle_parts-delivered start parts end f c cb idle fits = ground (
    arith,
    handle_rest-delivered parts end f (record c { message = start; fragment_opcode = 1 }) cb refl,
  )
