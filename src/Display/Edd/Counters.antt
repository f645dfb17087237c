-- ===== src/Display/Edd/Counters.antt =====
-- The counters of `edd_state_handle_json` (PicoDeck-ED-Display/src/edd_state.c): `messages_received`
-- and `generation`, by which the dashboard sees that there is something to draw.
use pico_deck_eddiscovery.Base.{
  ℕ, ◌+◌, ◌≡◌, refl, Bool, true, false, some, List, arith, Bytes, codes, Bool-cases, Option-cases,
  ◌⊎◌, inl, inr,
}
use pico_deck_eddiscovery.Base.Bits.{u32}
use pico_deck_eddiscovery.Display.Edd.Tokens.{Token, is_object, token_at, find_key}
use pico_deck_eddiscovery.Display.Edd.State.{EddState}
use pico_deck_eddiscovery.Display.Edd.Route.{apply_journal_clear, apply_journal_route}
use pico_deck_eddiscovery.Display.Edd.Messages.{
  parse_status, parse_indicator, live_target, live_clear, parse_generic_ui, Response, status,
  indicator, generic_ui, journal, unknown, response_kind, dispatch, count_recognized, handle_tokens,
  edd_state_handle_json,
}
use pico_deck_eddiscovery.Display.Edd.Rows.{
  Outcome, ignored, cleared, routed, parse_journal_route-Outcome,
}

-- A handler from `s`, whose generation becomes `g` where the message is recognized: else it leaves
-- `s`.
abbrev pub Counted : ℕ → EddState → Bool × EddState → Type 0
Counted g s r =
    (r ≡ (false, s))
    ⊎ ((r.0 ≡ true) × (r.1.generation ≡ g) × (r.1.messages_received ≡ s.messages_received))

journal-Counted : {s : EddState} {r : Bool × EddState} → Outcome s r → Counted s.generation s r
unfolding apply_journal_clear apply_journal_route
journal-Counted ignored = inl refl
journal-Counted (cleared time h) = ground arith
journal-Counted (routed jumps target stop time a b c) = ground arith

generic_ui-Counted :
    (json : Bytes) (tokens : List Token) (s : EddState)
    → Counted s.generation s (true, parse_generic_ui json tokens s)
unfolding parse_generic_ui live_clear live_target
generic_ui-Counted json tokens s = ground arith

dispatch-Counted :
    (k : Response) (json : Bytes) (tokens : List Token) (s : EddState)
    → Counted s.generation s (dispatch k json tokens s)
unfolding dispatch parse_status parse_indicator
dispatch-Counted status json tokens s = inr (refl, refl, refl)
dispatch-Counted indicator json tokens s = inr (refl, refl, refl)
dispatch-Counted generic_ui json tokens s = generic_ui-Counted json tokens s
dispatch-Counted journal json tokens s = journal-Counted (parse_journal_route-Outcome json tokens s)
dispatch-Counted unknown json tokens s = inl refl

count_recognized-Counted :
    {s : EddState} (r : Bool × EddState)
    → Counted s.generation s r
    → Counted (u32 (s.generation + 1)) s (count_recognized r)
unfolding count_recognized
count_recognized-Counted (true, t) h = ground arith
count_recognized-Counted (false, t) h = ground arith

handle_tokens-Counted :
    (json : Bytes) (tokens : List Token) (s : EddState)
    → Counted (u32 (s.generation + 1)) s (handle_tokens json tokens s)
unfolding handle_tokens
handle_tokens-Counted json tokens s = elim (Bool-cases (is_object (token_at tokens 0).type)) [
  | inr e ↦ rw e (inl refl)
  | inl e ↦ elim (Option-cases (find_key json tokens (some 0) (codes "responsetype"))) [
    | inl f ↦ rw (e, f, handle_tokens) (inl refl)
    | inr (response, f) ↦
        rw (e, f, handle_tokens)
          (count_recognized-Counted _
            (dispatch-Counted (response_kind json (token_at tokens response)) json tokens s))
  ]
]

-- A message is recognized, and the generation goes up by one, modulo 2 ^ 32; or it is not, and the
-- count of messages is all that it changes. That count goes up by one in both cases.
pub handle_json-generation :
    (jsmn_parse : Bytes → List Token) (json : Bytes) (s : EddState)
    → (edd_state_handle_json jsmn_parse json s
        ≡ (false, record s { messages_received = u32 (s.messages_received + 1) }))
      ⊎ (((edd_state_handle_json jsmn_parse json s).0 ≡ true)
          × ((edd_state_handle_json jsmn_parse json s).1.generation ≡ u32 (s.generation + 1))
          × ((edd_state_handle_json jsmn_parse json s).1.messages_received
              ≡ u32 (s.messages_received + 1)))
unfolding edd_state_handle_json
handle_json-generation jsmn_parse json s = handle_tokens-Counted json (jsmn_parse json) _
