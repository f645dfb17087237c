-- ===== src/Keyboard/Buttons.antt =====
-- PicoDeck-ED-Keyboard/src/buttons.c: the 24 buttons. An icon is named by its place in the table: the
-- pictures are generated data.
use pico_deck_eddiscovery.Base.{ℕ, List, [], ◌∷◌, Bytes, codes}

-- `button_definition_t`, less the two pointers into the generated pictures.
pub record ButtonDefinition : Type 0 where
  pub label_top : Bytes
  pub label_bottom : Bytes
  pub hid_usage : ℕ

abbrev button : Bytes → Bytes → ℕ → ButtonDefinition
button top bottom usage = record { label_top = top; label_bottom = bottom; hid_usage = usage }

-- `g_buttons`
abbrev pub g_buttons : List ButtonDefinition
g_buttons =
    button (codes "LAND") (codes "GEAR") 0x0f
    ∷ button (codes "SPEED") (codes "0%") 0x1b
    ∷ button (codes "FSD") (codes "JUMP") 0x0d
    ∷ button (codes "") (codes "LIGHTS") 0x49
    ∷ button (codes "") (codes "SILENT") 0x4c
    ∷ button (codes "NIGHT") (codes "VISION") 0x30
    ∷ button (codes "HARD") (codes "PTS") 0x18
    ∷ button (codes "FIRE") (codes "GROUP") 0x11
    ∷ button (codes "") (codes "TARGET") 0x17
    ∷ button (codes "NEXT") (codes "TARGET") 0x0a
    ∷ button (codes "ANALYS") (codes "COMBAT") 0x10
    ∷ button (codes "FSS") (codes "SCAN") 0x34
    ∷ button (codes "SHIELD") (codes "POWER") 0x50
    ∷ button (codes "ENGINE") (codes "POWER") 0x52
    ∷ button (codes "WEAPON") (codes "POWER") 0x4f
    ∷ button (codes "BAL") (codes "POWER") 0x51
    ∷ button (codes "CARGO") (codes "SCOOP") 0x4a
    ∷ button (codes "CARGO") (codes "EJECT") 0x38
    ∷ button (codes "TARGET") (codes "PANEL") 0x1e
    ∷ button (codes "COMMS") (codes "PANEL") 0x1f
    ∷ button (codes "ROLE") (codes "PANEL") 0x20
    ∷ button (codes "SYSTEM") (codes "PANEL") 0x21
    ∷ button (codes "GALAXY") (codes "MAP") 0x36
    ∷ button (codes "SYSTEM") (codes "MAP") 0x37
    ∷ []

-- `g_button_count`
abbrev pub g_button_count : ℕ
g_button_count = 24

-- The table holds as many rows as `sizeof(g_buttons) / sizeof(g_buttons[0])` says.
abbrev pub button_at : ℕ → List ButtonDefinition → ButtonDefinition
button_at i [] = button [] [] 0
button_at ℕ.zero (b ∷ bs) = b
button_at (ℕ.suc i) (b ∷ bs) = button_at i bs
