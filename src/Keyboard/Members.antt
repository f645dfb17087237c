-- ===== src/Keyboard/Members.antt =====
-- What an indicator message says of each button, by its members, and that
-- PicoDeck-ED-Keyboard/src/edd_buttons.c lights exactly those buttons.
use pico_deck_eddiscovery.Base.{
  ℕ, ◌<◌, ◌≡◌, refl, ap₂, ◌∙◌, Bool, true, false, not, ◌||◌, List, [], ◌∷◌, if◌then◌else◌, Bytes,
  codes,
}
use pico_deck_eddiscovery.Keyboard.EddButtons.{
  json_bool, json_string_is, button_states, is_indicator, handle_json, edd_button_active,
}
use pico_deck_eddiscovery.Keyboard.Scan.{no_quote, is_mark}
use pico_deck_eddiscovery.Keyboard.Lit.{lit_by, same_bool, handle_json-active}
use pico_deck_eddiscovery.Keyboard.Indicator.{
  Value, is_plain, message_text, first_value, flag_of, says, json_bool-flag, json_string_is-says,
}

module _ (members : List (Bytes × Value)) where
  abbrev flag : Bytes → Bool
  flag key = flag_of (first_value key members)

  abbrev focus : Bytes → Bool
  focus panel = says panel (first_value (codes "GUIFocus") members)

  -- Whether the message is about the indicators.
  unfoldable pub is_about_indicators : Bool
  is_about_indicators =
      says (codes "indicator") (first_value (codes "responsetype") members)
      || says (codes "indicatorpush") (first_value (codes "responsetype") members)

  -- The buttons and whether the message has them lit.
  unfoldable pub lit_table : List (ℕ × Bool)
  lit_table =
      (0, flag (codes "LandingGear"))
      ∷ (2, flag (codes "Supercruise") || flag (codes "FsdCharging") || flag (codes "FsdJump"))
      ∷ (3, flag (codes "Lights"))
      ∷ (4, flag (codes "SilentRunning"))
      ∷ (5, flag (codes "NightVision"))
      ∷ (6, flag (codes "HardpointsDeployed"))
      ∷ (10, flag (codes "HUDInAnalysisMode"))
      ∷ (11, focus (codes "FSSMode"))
      ∷ (16, flag (codes "CargoScoopDeployed"))
      ∷ (18, focus (codes "TargetPanel"))
      ∷ (19, focus (codes "CommsPanel"))
      ∷ (20, focus (codes "RolePanel"))
      ∷ (21, focus (codes "SystemPanel"))
      ∷ (22, focus (codes "GalaxyMap"))
      ∷ (23, focus (codes "SystemMap"))
      ∷ []

module _ (members : List (Bytes × Value)) (plain : is_plain members ≡ true) where
  is_indicator-members : is_indicator (message_text members) ≡ is_about_indicators members
  unfolding is_indicator is_about_indicators
  is_indicator-members =
      ap₂ (λ a b. a || b)
        (json_string_is-says members plain b'r' (codes "esponsetype") (codes "indicator") refl refl
          refl)
        (json_string_is-says members plain b'r' (codes "esponsetype") (codes "indicatorpush") refl
          refl refl)

  button_states-members : button_states (message_text members) ≡ lit_table members
  unfolding button_states lit_table
  button_states-members i =
      (0, on b'L' (codes "andingGear") refl refl i)
      ∷ (
        2,
        (on b'S' (codes "upercruise") refl refl i
            || on b'F' (codes "sdCharging") refl refl i
            || on b'F' (codes "sdJump") refl refl i),
      )
      ∷ (3, on b'L' (codes "ights") refl refl i)
      ∷ (4, on b'S' (codes "ilentRunning") refl refl i)
      ∷ (5, on b'N' (codes "ightVision") refl refl i)
      ∷ (6, on b'H' (codes "ardpointsDeployed") refl refl i)
      ∷ (10, on b'H' (codes "UDInAnalysisMode") refl refl i)
      ∷ (11, at_panel (codes "FSSMode") refl i)
      ∷ (16, on b'C' (codes "argoScoopDeployed") refl refl i)
      ∷ (18, at_panel (codes "TargetPanel") refl i)
      ∷ (19, at_panel (codes "CommsPanel") refl i)
      ∷ (20, at_panel (codes "RolePanel") refl i)
      ∷ (21, at_panel (codes "SystemPanel") refl i)
      ∷ (22, at_panel (codes "GalaxyMap") refl i)
      ∷ (23, at_panel (codes "SystemMap") refl i)
      ∷ []
    where
      on :
          (k : ℕ) (key : Bytes)
          → no_quote (k ∷ key) ≡ true
          → is_mark k ≡ false
          → json_bool (message_text members) (k ∷ key) ≡ flag members (k ∷ key)
      on = json_bool-flag members plain

      at_panel :
          (panel : Bytes)
          → no_quote panel ≡ true
          → json_string_is (message_text members) (codes "GUIFocus") panel ≡ focus members panel
      at_panel panel h = json_string_is-says members plain b'G' (codes "UIFocus") panel refl refl h

  -- After a message that is an object of plain members: if it is about the indicators, exactly the
  -- buttons are lit that the values of its first members with their keys say, and otherwise the buttons
  -- are as they were; and exactly those that changed are reported.
  pub handle_json-members :
      (active_mask i : ℕ)
      → i < 24
      → let r = handle_json (message_text members) active_mask in
        (edd_button_active r.1 i ≡ (
          if is_about_indicators members
          then lit_by (lit_table members) i
          else edd_button_active active_mask i))
        × (edd_button_active r.0 i
            ≡ not (same_bool (edd_button_active r.1 i) (edd_button_active active_mask i)))
  handle_json-members active_mask i h =
      let (lit, changed) = handle_json-active (message_text members) active_mask i h in
      (
        lit
            ∙ ap₂ (λ b states. if b then lit_by states i else edd_button_active active_mask i)
                is_indicator-members button_states-members,
        changed,
      )
