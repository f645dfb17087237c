-- ===== src/Display/Edd/Handled.antt =====
-- What one call of `edd_state_handle_json` (PicoDeck-ED-Display/src/edd_state.c) keeps: the bounds of
-- the texts, the order of the route's time stamps, and the counters.
use pico_deck_eddiscovery.Base.{
  ℕ, ◌+◌, ◌<◌, Bool, true, false, Option, some, List, [], arith, length, Bytes, codes, Bool-cases,
  Option-cases, inl, inr,
}
use pico_deck_eddiscovery.Base.Bits.{u32}
use pico_deck_eddiscovery.Display.Edd.Tokens.{Token, is_object, token_at, find_key, copy_key}
use pico_deck_eddiscovery.Display.Edd.State.{EddState, event_time_size}
use pico_deck_eddiscovery.Display.Edd.Route.{apply_journal_clear, apply_journal_route}
use pico_deck_eddiscovery.Display.Edd.Messages.{
  parse_status, parse_indicator, token_is, live_target, live_clear, parse_generic_ui, Response,
  status, indicator, generic_ui, journal, unknown, response_kind, dispatch, count_recognized,
  handle_tokens, edd_state_handle_json,
}
use pico_deck_eddiscovery.Display.Edd.Bounds.{
  TextsFit, copy_key-fits, parse_status-fits, parse_indicator-fits, live_target-fits,
  live_clear-fits,
}
use pico_deck_eddiscovery.Display.Edd.Rows.{
  Outcome, ignored, cleared, routed, parse_journal_route-Outcome,
}

-- A property that each branch keeps is kept by the whole handler. The two live branches run with an
-- event time that fits its array.
pub record Kept {ℓ} (P : EddState → Type ℓ) : Type ℓ where
  pub by_counters :
      (s : EddState) (m g : ℕ) → P s → P (record s { messages_received = m; generation = g })
  pub by_status :
      (json : Bytes) (tokens : List Token) (s : EddState) → P s → P (parse_status json tokens s)
  pub by_indicator :
      (json : Bytes) (tokens : List Token) (s : EddState) → P s → P (parse_indicator json tokens s)
  pub by_target :
      (json : Bytes) (tokens : List Token) (target : ℕ) (time : Bytes) (s : EddState)
      → length time < event_time_size
      → P s
      → P (live_target json tokens target time s)
  pub by_clear :
      (time : Bytes) (s : EddState) → length time < event_time_size → P s → P (live_clear time s)
  pub by_journal : {s : EddState} {r : Bool × EddState} → Outcome s r → P s → P r.1

module _ {ℓ} (P : EddState → Type ℓ) (kept : Kept P) where
  generic_ui-keeps :
      (json : Bytes) (tokens : List Token) (s : EddState) → P s → P (parse_generic_ui json tokens s)
  unfolding parse_generic_ui
  generic_ui-keeps json tokens s h =
      elim (Bool-cases (
        token_is json tokens (find_key json tokens body (codes "EventTypeID"))
          (codes "NavRouteClear"))) [
            | inl e ↦ rw e (kept.by_clear time s fits h)
            | inr e ↦ elim (Option-cases (find_key json tokens body (codes "FSDTarget"))) [
              | inl f ↦ rw (e, f, parse_generic_ui) h
              | inr (target, f) ↦
                  rw (e, f, parse_generic_ui) (kept.by_target json tokens target time s fits h)
            ]
          ]
    where
      body : Option ℕ
      body = find_key json tokens (some 0) (codes "data")

      time : Bytes
      time = copy_key json tokens body (codes "EventTimeUTC") event_time_size []

      fits : length time < event_time_size
      fits = copy_key-fits json tokens body (codes "EventTimeUTC") [] (omega arith)

  dispatch-keeps :
      (k : Response) (json : Bytes) (tokens : List Token) (s : EddState)
      → P s
      → P (dispatch k json tokens s).1
  unfolding dispatch
  dispatch-keeps status json tokens s h = kept.by_status json tokens s h
  dispatch-keeps indicator json tokens s h = kept.by_indicator json tokens s h
  dispatch-keeps generic_ui json tokens s h = generic_ui-keeps json tokens s h
  dispatch-keeps journal json tokens s h =
      kept.by_journal (parse_journal_route-Outcome json tokens s) h
  dispatch-keeps unknown json tokens s h = h

  counted-keeps : (r : Bool × EddState) → P r.1 → P (count_recognized r).1
  unfolding count_recognized
  counted-keeps (true, s) h = kept.by_counters s s.messages_received (u32 (s.generation + 1)) h
  counted-keeps (false, s) h = h

  pub handle_json-keeps :
      (jsmn_parse : Bytes → List Token) (json : Bytes) (s : EddState)
      → P s
      → P (edd_state_handle_json jsmn_parse json s).1
  unfolding edd_state_handle_json handle_tokens
  handle_json-keeps jsmn_parse json s h = elim (Bool-cases (is_object (token_at tokens 0).type)) [
    | inr e ↦ rw e counted
    | inl e ↦ elim (Option-cases (find_key json tokens (some 0) (codes "responsetype"))) [
      | inl f ↦ rw (e, f, handle_tokens) counted
      | inr (response, f) ↦
          rw (e, f, handle_tokens)
            (counted-keeps _ (
              dispatch-keeps (response_kind json (token_at tokens response)) json tokens _ counted))
    ]
  ]
    where
      tokens : List Token
      tokens = jsmn_parse json

      counted : P (record s { messages_received = u32 (s.messages_received + 1) })
      counted = kept.by_counters s (u32 (s.messages_received + 1)) s.generation h

journal-fits : {s : EddState} {r : Bool × EddState} → Outcome s r → TextsFit s → TextsFit r.1
unfolding apply_journal_clear apply_journal_route
journal-fits ignored v = v
journal-fits (cleared time h) v = ground arith
journal-fits (routed jumps target stop time a b c) v = ground arith

-- Whatever a message holds, no text of the state outgrows its array, so no copy of the handler writes
-- past an array's end.
pub handle_json-TextsFit :
    (jsmn_parse : Bytes → List Token) (json : Bytes) (s : EddState)
    → TextsFit s
    → TextsFit (edd_state_handle_json jsmn_parse json s).1
handle_json-TextsFit = handle_json-keeps TextsFit (record {
  by_counters = λ s m g v. ground arith;
  by_status = parse_status-fits;
  by_indicator = parse_indicator-fits;
  by_target = live_target-fits;
  by_clear = live_clear-fits;
  by_journal = journal-fits;
})
