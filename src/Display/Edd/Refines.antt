-- ===== src/Display/Edd/Refines.antt =====
-- `edd_state_handle_json` of PicoDeck-ED-Display/src/edd_state.c, on the tokens of a tree: it does what
-- the message means.
use pico_deck_eddiscovery.Base.{
  ℕ, ◌≡◌, refl, sym, append-nil, ap, true, false, Option, none, some, List, [], Bytes, codes,
}
use pico_deck_eddiscovery.Display.Edd.Tokens.{Token, token_at}
use pico_deck_eddiscovery.Display.Edd.State.{EddState}
use pico_deck_eddiscovery.Display.Edd.Journal.{parse_journal_route}
use pico_deck_eddiscovery.Display.Edd.Messages.{
  Response, status, indicator, generic_ui, journal, unknown, response_kind, dispatch,
  count_recognized, handle_tokens, edd_state_handle_json,
}
use pico_deck_eddiscovery.Display.Edd.Tree.{
  Json, scalar, array, object, root, tokens_of, IsLaid, member_at,
}
use pico_deck_eddiscovery.Display.Edd.Walk.{At, Finds, missing, found, at_head}
use pico_deck_eddiscovery.Display.Edd.Branches.{
  parse_indicator-indicator, parse_generic_ui-generic_ui,
}
use pico_deck_eddiscovery.Display.Edd.Found.{find_key-Finds}
use pico_deck_eddiscovery.Display.Edd.Document.{message_of, answer_of, handle_document}
use pico_deck_eddiscovery.Display.Edd.Reads.{parse_status-status}
use pico_deck_eddiscovery.Display.Edd.RowsTree.{found_rows}

module _ (json : Bytes) {tokens : List Token} {v : Json} (a : At tokens 0 v) where
  dispatch-message :
      (k : Response) (s : EddState) → dispatch k json tokens s ≡ message_of json k v s
  unfolding dispatch message_of parse_journal_route
  dispatch-message status s = ap (λ t. (true, t)) (parse_status-status json a s)
  dispatch-message indicator s = ap (λ t. (true, t)) (parse_indicator-indicator json a s)
  dispatch-message generic_ui s = ap (λ t. (true, t)) (parse_generic_ui-generic_ui json a s)
  dispatch-message journal s = found_rows json a s (find_key-Finds json (codes "rows") (found a))
  dispatch-message unknown s = refl

  found_response :
      {place : Option ℕ} {value : Option Json} (s : EddState)
      → Finds tokens place value
      → (elim place [
        | none ↦ (false, s)
        | some response ↦
            count_recognized
              (dispatch (response_kind json (token_at tokens response)) json tokens s)
      ])
        ≡ answer_of json v value s
  unfolding answer_of
  found_response s missing = refl
  found_response s (found {i = i} {v = w} b) =
      rw (at_head tokens i b.placed)
        (ap count_recognized (dispatch-message (response_kind json (root w)) s))

handle_tokens-answer :
    (json : Bytes) {tokens : List Token} (v : Json) (s : EddState)
    → At tokens 0 v
    → handle_tokens json tokens s
      ≡ answer_of json v (member_at json (codes "responsetype") (some v)) s
unfolding handle_tokens answer_of member_at IsLaid
handle_tokens-answer json {tokens} (scalar t) s a = rw (at_head tokens 0 a.placed, a.laid.0) refl
handle_tokens-answer json {tokens} (array t items) s a =
    rw (at_head tokens 0 a.placed, a.laid.0) refl
handle_tokens-answer json {tokens} (object t members) s a =
    rw (at_head tokens 0 a.placed, a.laid.0)
      (found_response json a s (find_key-Finds json (codes "responsetype") (found a)))

-- Where jsmn gives the tokens of a tree, a message does to the state what it means by that tree: which
-- branch is taken, what each field reads, which journal row decides, and whether the message counts.
pub handle_json-handle_document :
    (jsmn_parse : Bytes → List Token) (json : Bytes) (v : Json) (s : EddState)
    → jsmn_parse json ≡ tokens_of v
    → IsLaid v
    → edd_state_handle_json jsmn_parse json s ≡ handle_document json v s
unfolding edd_state_handle_json handle_document
handle_json-handle_document jsmn_parse json v s parsed laid =
    rw parsed (handle_tokens-answer json v _ whole)
  where
    whole : At (tokens_of v) 0 v
    whole = record {
      after = [];
      placed = sym (append-nil (tokens_of v));
      follows = tt;
      laid = laid;
    }
