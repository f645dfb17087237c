-- ===== src/Keyboard/Press.antt =====
-- The button logic in the main loop of PicoDeck-ED-Keyboard/src/main.c: a touch becomes one key press.
-- Buttons are indices, `none` is -1; times are microseconds of the platform's clock.
use pico_deck_eddiscovery.Base.{
  ℕ, ◌+◌, ◌*◌, ◌/◌, Bool, true, false, not, ◌&&◌, ◌||◌, Option, none, some, List, [], ◌∷◌, ◌++◌,
  ltb, leb, ◌==◌, if◌then◌else◌,
}
use pico_deck_eddiscovery.Keyboard.Board.{
  lcd_width, lcd_height, ui_columns, ui_tile_width, ui_tile_height,
}
use pico_deck_eddiscovery.Keyboard.Buttons.{g_button_count, g_buttons, button_at}

-- `ui_button_at` of ui.c.
unfoldable pub ui_button_at : ℕ → ℕ → Option ℕ
ui_button_at x y =
    let index = y / ui_tile_height * ui_columns + x / ui_tile_width in
    if leb lcd_width x || leb lcd_height y
    then none
    else if ltb index g_button_count
    then some index
    else none

abbrev pub touch_stable_polls : ℕ
touch_stable_polls = 3

abbrev pub release_stable_polls : ℕ
release_stable_polls = 3

abbrev pub hid_press_time_us : ℕ
hid_press_time_us = 60000

abbrev pub bootsel_hold_time_us : ℕ
bootsel_hold_time_us = 6000000

-- The local variables of the loop. A time that is `nil_time` is `none`.
pub record Press : Type 0 where
  pub candidate_button : Option ℕ
  pub candidate_count : ℕ
  pub release_count : ℕ
  pub active_button : Option ℕ
  pub armed : Bool
  pub press_pending : Bool
  pub key_is_down : Bool
  pub key_release_at : ℕ
  pub bootsel_hold_at : Option ℕ

abbrev pub initial : Press
initial = record {
  candidate_button = none;
  candidate_count = 0;
  release_count = 0;
  active_button = none;
  armed = true;
  press_pending = false;
  key_is_down = false;
  key_release_at = 0;
  bootsel_hold_at = none;
}

-- What a round of the loop meets: the point touched, the clock (which does not move within a round),
-- and whether the HID interface takes a report now (`tud_mounted() && tud_hid_ready()` and the
-- report's own result).
pub record Poll : Type 0 where
  pub touch : Option (ℕ × ℕ)
  pub now_us : ℕ
  pub hid_accepts : Bool

-- What a round does: `render i active`, a report with a key or with none, and the reboot.
pub data Effect : Type 0 where
  render_pressed : ℕ → Effect
  render_idle : ℕ → Effect
  key_down : ℕ → Effect
  key_up : Effect
  reset_usb_boot : Effect

abbrev pub is_touching : Poll → Bool
is_touching i = elim i.touch [ none ↦ false | some t ↦ true ]

unfoldable pub touched : Option (ℕ × ℕ) → Option ℕ
touched none = none
touched (some (x, y)) = ui_button_at x y

-- `a == b` on button numbers that may be -1.
abbrev pub same : Option ℕ → Option ℕ → Bool
same none none = true
same (some a) (some b) = a == b
same (some a) none = false
same none (some b) = false

-- The last button, SYSTEM MAP, is the one to hold.
abbrev pub is_last : ℕ → Bool
is_last b = b == 23

-- `if (candidate_count < 255) ++candidate_count`
abbrev pub count_up : ℕ → ℕ
count_up n = if ltb n 255 then n + 1 else n

-- The press is decided.
unfoldable pub activate : ℕ → ℕ → Press → Press × List Effect
activate b now s = (
  record s {
    active_button = some b;
    armed = false;
    press_pending = true;
    release_count = 0;
    bootsel_hold_at = if is_last b then some (now + bootsel_hold_time_us) else none;
  },
  render_pressed b ∷ [],
)

-- `if (armed && touched_button >= 0) … else if (armed) …`, entered when armed.
unfoldable pub stabilise : Option ℕ → ℕ → Press → Press × List Effect
stabilise none now s = (record s { candidate_button = none; candidate_count = 0 }, [])
stabilise (some b) now s =
    let n = if same (some b) s.candidate_button then count_up s.candidate_count else 1 in
    let s' = record s { candidate_button = some b; candidate_count = n } in
    if leb touch_stable_polls n then activate b now s' else (s', [])

-- The BOOTSEL test, and the count of polls without a touch.
abbrev pub hold_expired : Option ℕ → ℕ → Bool
hold_expired none now = false
hold_expired (some t) now = leb t now

unfoldable pub bootsel : Poll → Press → List Effect
bootsel i s =
    if same s.active_button (some 23)
      && is_touching i
      && same (touched i.touch) s.active_button
      && hold_expired s.bootsel_hold_at i.now_us
    then reset_usb_boot ∷ []
    else []

unfoldable pub count_release : Poll → Press → Press
count_release i s = record s {
  release_count = if is_touching i then 0 else count_up s.release_count;
}

unfoldable pub try_key_down : Poll → ℕ → Press → Press × List Effect
try_key_down i b s =
    if s.press_pending && i.hid_accepts
    then (
      record s {
        press_pending = false;
        key_is_down = true;
        key_release_at = i.now_us + hid_press_time_us;
      },
      key_down (button_at b g_buttons).hid_usage ∷ [],
    )
    else (s, [])

unfoldable pub try_key_up : Poll → Press → Press × List Effect
try_key_up i s =
    if s.key_is_down && leb s.key_release_at i.now_us && i.hid_accepts
    then (record s { key_is_down = false }, key_up ∷ [])
    else (s, [])

-- The two blocks at the end that arm the loop again.
unfoldable pub finish_press : ℕ → Press → Press × List Effect
finish_press b s =
    if not s.key_is_down && not s.press_pending && leb release_stable_polls s.release_count
    then (
      record s {
        active_button = none;
        candidate_button = none;
        candidate_count = 0;
        armed = true;
        bootsel_hold_at = none;
      },
      render_idle b ∷ [],
    )
    else (s, [])

unfoldable pub give_up : ℕ → Press → Press × List Effect
give_up b s =
    if s.press_pending && leb release_stable_polls s.release_count
    then (
      record s {
        press_pending = false;
        active_button = none;
        armed = true;
        bootsel_hold_at = none;
      },
      render_idle b ∷ [],
    )
    else (s, [])

-- `if (!armed) { … }`, entered with an active button.
unfoldable pub held : Poll → ℕ → Press → Press × List Effect
held i b s =
    let boot = bootsel i s in
    let down = try_key_down i b (count_release i s) in
    let up = try_key_up i down.0 in
    let finished = finish_press b up.0 in
    let given_up = give_up b finished.0 in
    (given_up.0, boot ++ down.1 ++ up.1 ++ finished.1 ++ given_up.1)

unfoldable pub hold : Poll → Option ℕ → Press → Press × List Effect
hold i none s = (s, [])
hold i (some b) s = held i b s

-- One round of the loop, from the touch to the last `if`.
unfoldable pub round : Poll → Press → Press × List Effect
round i s =
    let first = if s.armed then stabilise (touched i.touch) i.now_us s else (s, []) in
    let second = if first.0.armed then (first.0, []) else hold i first.0.active_button first.0 in
    (second.0, first.1 ++ second.1)
