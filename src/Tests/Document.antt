-- ===== src/Tests/Document.antt =====
-- A message as a tree, and a route text, on which the theorems about EDDiscovery's messages apply.
use pico_deck_eddiscovery.Base.{ℕ, ◌≡◌, refl, List, [], ◌∷◌, Bytes, codes, arith}
use pico_deck_eddiscovery.Base.Text.{memchr}
use pico_deck_eddiscovery.Display.Edd.Tokens.{jsmn_object, jsmn_string, Token}
use pico_deck_eddiscovery.Display.Edd.State.{edd_text, edd_state_init}
use pico_deck_eddiscovery.Display.Edd.Journal.{copy_route_segment, destination_of, next_stop}
use pico_deck_eddiscovery.Display.Edd.Messages.{edd_state_handle_json}
use pico_deck_eddiscovery.Display.Edd.Tree.{
  Json, scalar, object, member, empty, tokens_of, IsLaid, AreMembers,
}
use pico_deck_eddiscovery.Display.Edd.Document.{handle_document}
use pico_deck_eddiscovery.Display.Edd.Refines.{handle_json-handle_document}
use pico_deck_eddiscovery.Display.Edd.Stops.{joined, last_name, stop_of, AreNames, next_stop-joined}

abbrev pub message : Bytes
message = codes "{\"responsetype\":\"status\",\"SystemData\":{\"System\":\"Sol\"}}"

abbrev text : ℕ → ℕ → Token
text first last = record { type = jsmn_string; start = first; end = last }

abbrev pub tree : Json
tree =
    object (record { type = jsmn_object; start = 0; end = 55 })
      (member (text 2 14) (scalar (text 17 23)) (
        member (text 26 36)
          (object (record { type = jsmn_object; start = 38; end = 54 })
            (member (text 40 46) (scalar (text 49 52)) empty))
          empty))

pub tree-IsLaid : IsLaid tree
unfolding IsLaid AreMembers
tree-IsLaid = ground arith

handle_json-handle_document_example :
    edd_state_handle_json (λ json. tokens_of tree) message edd_state_init
    ≡ handle_document message tree edd_state_init
handle_json-handle_document_example =
    handle_json-handle_document (λ json. tokens_of tree) message tree edd_state_init refl
      tree-IsLaid

abbrev stops : List Bytes
stops = codes " Lave" ∷ codes " Leesti " ∷ []

stops-AreNames : AreNames (codes " Sol" ∷ stops)
unfolding memchr
stops-AreNames = ground arith

next_stop-joined_example :
    (destination_of (joined (codes " Sol" ∷ stops))
      ≡ copy_route_segment (last_name (codes " Sol") stops) edd_text)
    × (next_stop 1 2 (joined (codes " Sol" ∷ stops)) ≡ stop_of 2 stops)
next_stop-joined_example = next_stop-joined 1 2 (codes " Sol") stops stops-AreNames
