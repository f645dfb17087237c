-- ===== src/Display/Edd/Branches.antt =====
-- `parse_indicator` and `parse_generic_ui` of PicoDeck-ED-Display/src/edd_state.c, on the tokens of a
-- tree: they read what the tree has.
use pico_deck_eddiscovery.Base.{
  ℕ, ◌≡◌, refl, ap, ap₂, ◌∙◌, Bool, true, Option, none, some, List, [], ◌∷◌, if◌then◌else◌, Bytes,
  codes, Bool-cases, inl, inr,
}
use pico_deck_eddiscovery.Base.Int.{ℤ, pos}
use pico_deck_eddiscovery.Display.Edd.Tokens.{Token, find_key, bool_key}
use pico_deck_eddiscovery.Display.Edd.State.{EddState, edd_text, event_time_size}
use pico_deck_eddiscovery.Display.Edd.Messages.{
  parse_indicator, new_pips, token_is, live_target, live_clear, parse_generic_ui,
}
use pico_deck_eddiscovery.Display.Edd.Tree.{Json, member_at}
use pico_deck_eddiscovery.Display.Edd.Walk.{At, Finds, missing, found}
use pico_deck_eddiscovery.Display.Edd.Found.{find_key-Finds}
use pico_deck_eddiscovery.Display.Edd.Document.{
  text_of, bool_of, pips_of, indicator_of, target_of, generic_ui_of,
}
use pico_deck_eddiscovery.Display.Edd.Reads.{
  copy_key-text, copy_string_key-string, integer_key-integer, bool_key-bool, token_is-value,
  found_pips,
}

module _ (json : Bytes) {tokens : List Token} {v : Json} (a : At tokens 0 v) where
  new_pips-pips :
      (old : List ℤ)
      → new_pips json tokens old ≡ (
          if bool_of json true (member_at json (codes "ValidPips") (some v))
          then pips_of json old (member_at json (codes "Pips") (some v))
          else pos 0 ∷ pos 0 ∷ pos 0 ∷ [])
  unfolding new_pips
  new_pips-pips old =
      rw (bool_key-bool json (codes "ValidPips") true (found a))
        (elim (Bool-cases (bool_of json true (member_at json (codes "ValidPips") (some v)))) [
          | inl e ↦ rw e (found_pips json a old (find_key-Finds json (codes "Pips") (found a)))
          | inr e ↦ rw e refl
        ])

  pub parse_indicator-indicator :
      (s : EddState) → parse_indicator json tokens s ≡ indicator_of json v s
  unfolding parse_indicator indicator_of
  parse_indicator-indicator s i = record s {
    mass_locked = test (codes "FsdMassLocked") s.mass_locked i;
    shields_up = test (codes "ShieldsUp") s.shields_up i;
    low_fuel = test (codes "LowFuel") s.low_fuel i;
    overheat = test (codes "OverHeating") s.overheat i;
    danger = test (codes "IsInDanger") s.danger i;
    interdicted = test (codes "BeingInterdicted") s.interdicted i;
    legal_state = copy_key-text json (codes "LegalState") edd_text s.legal_state (found a) i;
    pips = new_pips-pips s.pips i;
  }
    where
      test :
          (key : Bytes) (old : Bool)
          → bool_key json tokens (some 0) key old ≡ bool_of json old (member_at json key (some v))
      test key old = bool_key-bool json key old (found a)

  live_target-target :
      {i : ℕ} (w : Json) (event_time : Bytes) (s : EddState)
      → At tokens i w
      → live_target json tokens i event_time s ≡ target_of json event_time (some w) s
  unfolding live_target target_of
  live_target-target w event_time s b =
      rw
        (
          integer_key-integer json (codes "RemainingJumpsInRoute") s.remaining_jumps (found b),
          copy_string_key-string json (codes "StarSystem") edd_text s.next_system (found b),
        )
        refl

  found_target :
      {place : Option ℕ} {value : Option Json} (event_time : Bytes) (s : EddState)
      → Finds tokens place value
      → (elim place [ none ↦ s | some target ↦ live_target json tokens target event_time s ])
        ≡ target_of json event_time value s
  unfolding target_of
  found_target event_time s missing = refl
  found_target event_time s (found {v = w} b) = live_target-target w event_time s b

  pub parse_generic_ui-generic_ui :
      (s : EddState) → parse_generic_ui json tokens s ≡ generic_ui_of json v s
  unfolding parse_generic_ui generic_ui_of
  parse_generic_ui-generic_ui s =
      ap
        (λ (t : Bytes).
          if token_is json tokens (find_key json tokens place (codes "EventTypeID"))
            (codes "NavRouteClear")
          then live_clear t s
          else elim (find_key json tokens place (codes "FSDTarget")) [
            | none ↦ s
            | some target ↦ live_target json tokens target t s
          ])
        (copy_key-text json (codes "EventTimeUTC") event_time_size [] body)
      ∙ ap₂ (λ (b : Bool) (t : EddState). if b then live_clear event_time s else t)
          (token_is-value json (codes "NavRouteClear")
            (find_key-Finds json (codes "EventTypeID") body))
          (found_target event_time s (find_key-Finds json (codes "FSDTarget") body))
    where
      place : Option ℕ
      place = find_key json tokens (some 0) (codes "data")

      body : Finds tokens place (member_at json (codes "data") (some v))
      body = find_key-Finds json (codes "data") (found a)

      event_time : Bytes
      event_time =
          text_of json event_time_size []
            (member_at json (codes "EventTimeUTC") (member_at json (codes "data") (some v)))
