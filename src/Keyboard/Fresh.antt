-- ===== src/Keyboard/Fresh.antt =====
-- The drawing in the main loop of PicoDeck-ED-Keyboard/src/main.c at one pixel: what it shows, against the
-- state of the button whose tile it is in.
use pico_deck_eddiscovery.Base.{
  ℕ, zero, suc, ◌+◌, ◌/◌, ◌^◌, ◌<◌, ◌≡◌, refl, sym, ap, ◌∙◌, subst, Bool, true, false, ◌||◌, Option,
  none, some, List, [], ◌∷◌, ◌++◌, ◌==◌, ◌!=◌, if◌then◌else◌, Bool-cases, inl, inr, Bytes, arith,
}
use native.Mathlib.Nat.{pow-suc}
use pico_deck_eddiscovery.Base.Bits.{bit_at-or}
use pico_deck_eddiscovery.Keyboard.EddButtons.{edd_button_active, handle_json, on_websocket_message}
use pico_deck_eddiscovery.Keyboard.Lit.{has_bit, edd_button_active-bit, handle_json-active}
use pico_deck_eddiscovery.Keyboard.Press.{
  Press, Poll, Effect, touched, activate, stabilise, bootsel, count_release, try_key_down,
  try_key_up, finish_press, give_up, held, hold, round,
}
use pico_deck_eddiscovery.Keyboard.Keys.{is_consistent}
use pico_deck_eddiscovery.Keyboard.Main.{render_one_dirty_button}
use pico_deck_eddiscovery.Keyboard.Redraw.{lowest_from, Drawn, render_one_dirty_button_lem}
use Effect.{render_pressed, render_idle, key_down, key_up, reset_usb_boot}

-- How a button is to be drawn: lit by EDDiscovery, or held.
abbrev pub current : ℕ → Option ℕ → ℕ → Bool
current active_mask active i =
    edd_button_active active_mask i || elim active [ none ↦ false | some b ↦ b == i ]

has_bit-clear :
    (i j m n : ℕ)
    → has_bit i m ≡ true
    → n + 2 ^ i ≡ m
    → (j == i) ≡ false
    → has_bit j n ≡ has_bit j m
has_bit-clear zero zero m n h e k = absurd (ground (arith, k))
has_bit-clear zero (suc j) m n h e k = ap (λ q. has_bit j q) (ground (arith, h, e))
has_bit-clear (suc i) zero m n h e k = ap (λ q. q != 0) (omega (arith, e, pow-suc 2 i))
has_bit-clear (suc i) (suc j) m n h e k =
    has_bit-clear i j (m / 2) (n / 2) h (omega (arith, e, pow-suc 2 i)) (ground (arith, k))

-- A button that is not dirty after a message was not before, and is lit as it was.
pub message_marks :
    (json : Bytes) (dirty active_mask t : ℕ)
    → t < 24
    → let r = on_websocket_message json (dirty, active_mask) in
      has_bit t r.0 ≡ false
      → (has_bit t dirty ≡ false) × (edd_button_active r.1 t ≡ edd_button_active active_mask t)
unfolding on_websocket_message
message_marks json dirty active_mask t h k = ground (
  arith,
  h,
  k,
  bit_at-or t dirty (handle_json json active_mask).0,
  edd_button_active-bit (handle_json json active_mask).0 t,
  (handle_json-active json active_mask t h).1,
)

pub same_number : (a b : ℕ) → (a == b) ≡ true → a ≡ b
same_number a b e = ground (arith, e)

-- `color` gives what the pixel shows of its button, drawn idle or lit; the button is `t`.
module _ (color : Bool → ℕ) (active_mask t : ℕ) where
  -- The pixel behind the drawing of a round's effects.
  abbrev pub seen_effects : List Effect → ℕ → ℕ
  seen_effects [] c = c
  seen_effects (render_pressed b ∷ es) c = seen_effects es (if t == b then color true else c)
  seen_effects (render_idle b ∷ es) c =
      seen_effects es (if t == b then color (edd_button_active active_mask b) else c)
  seen_effects (_ ∷ es) c = seen_effects es c

  seen_effects-append :
      (es fs : List Effect) (c : ℕ)
      → seen_effects (es ++ fs) c ≡ seen_effects fs (seen_effects es c)
  seen_effects-append [] fs c = refl
  seen_effects-append (render_pressed b ∷ es) fs c =
      seen_effects-append es fs (if t == b then color true else c)
  seen_effects-append (render_idle b ∷ es) fs c =
      seen_effects-append es fs (if t == b then color (edd_button_active active_mask b) else c)
  seen_effects-append (key_down u ∷ es) fs c = seen_effects-append es fs c
  seen_effects-append (key_up ∷ es) fs c = seen_effects-append es fs c
  seen_effects-append (reset_usb_boot ∷ es) fs c = seen_effects-append es fs c

  abbrev pub Shows : Option ℕ → ℕ → Type 0
  Shows active c = c ≡ color (current active_mask active t)

  pressed-Shows : (b c : ℕ) → Shows none c → Shows (some b) (if t == b then color true else c)
  pressed-Shows b c h = elim (Bool-cases (t == b)) [
    | inl e ↦ rw e (ap color (ground (arith, e)))
    | inr e ↦ rw e (h ∙ ap color (ground (arith, e)))
  ]

  released-Shows :
      (b c : ℕ)
      → Shows (some b) c
      → Shows none (if t == b then color (edd_button_active active_mask b) else c)
  released-Shows b c h = elim (Bool-cases (t == b)) [
    | inl e ↦
        rw e (ap color (ground (arith, e, ap (edd_button_active active_mask) (same_number t b e))))
    | inr e ↦ rw e (h ∙ ap color (ground (arith, e)))
  ]

  stabilise-Shows :
      (o : Option ℕ) (now c : ℕ) (s : Press)
      → s.active_button ≡ none
      → Shows none c
      → let r = stabilise o now s in Shows r.0.active_button (seen_effects r.1 c)
  unfolding stabilise activate
  stabilise-Shows none now c s a h = subst (λ o. Shows o c) (sym a) h
  stabilise-Shows (some b) now c s a h =
      ground (arith, subst (λ o. Shows o c) (sym a) h, pressed-Shows b c h)

  held-Shows :
      (i : Poll) (b c : ℕ) (s : Press)
      → s.active_button ≡ some b
      → Shows (some b) c
      → let r = held i b s in Shows r.0.active_button (seen_effects r.1 c)
  unfolding held bootsel count_release try_key_down try_key_up finish_press give_up
  held-Shows i b c s a h = ground (arith, subst (λ o. Shows o c) (sym a) h, released-Shows b c h)

  hold-Shows :
      (i : Poll) (c : ℕ) (s : Press) (o : Option ℕ)
      → s.active_button ≡ o
      → Shows o c
      → let r = hold i o s in Shows r.0.active_button (seen_effects r.1 c)
  unfolding hold
  hold-Shows i c s none a h = subst (λ o. Shows o c) (sym a) h
  hold-Shows i c s (some b) a h = held-Shows i b c s a h

  first-Shows :
      (i : Poll) (c : ℕ) (s : Press) (armed : Bool)
      → is_consistent s ≡ true
      → s.armed ≡ armed
      → Shows s.active_button c
      → let r = if armed then stabilise (touched i.touch) i.now_us s else (s, []) in
        Shows r.0.active_button (seen_effects r.1 c)
  first-Shows i c s true k e h =
      stabilise-Shows (touched i.touch) i.now_us c s (idle s.active_button refl)
        (subst (λ o. Shows o c) (idle s.active_button refl) h)
    where
      idle : (o : Option ℕ) → s.active_button ≡ o → s.active_button ≡ none
      idle none a = a
      idle (some b) a = absurd (ground (arith, k, e, a))
  first-Shows i c s false k e h = h

  second-Shows :
      (i : Poll) (c : ℕ) (s : Press) (armed : Bool)
      → Shows s.active_button c
      → let r = if armed then (s, []) else hold i s.active_button s in
        Shows r.0.active_button (seen_effects r.1 c)
  second-Shows i c s true h = h
  second-Shows i c s false h = hold-Shows i c s s.active_button refl h

  -- A round draws what its presses and releases change.
  pub round-Shows :
      (i : Poll) (c : ℕ) (s : Press)
      → is_consistent s ≡ true
      → Shows s.active_button c
      → let r = round i s in Shows r.0.active_button (seen_effects r.1 c)
  unfolding round
  round-Shows i c s k h =
      subst (Shows second.0.active_button) (sym (seen_effects-append first.1 second.1 c)) (
        second-Shows i (seen_effects first.1 c) first.0 first.0.armed
          (first-Shows i c s s.armed k refl h))
    where
      first : Press × List Effect
      first = if s.armed then stabilise (touched i.touch) i.now_us s else (s, [])

      second : Press × List Effect
      second = if first.0.armed then (first.0, []) else hold i first.0.active_button first.0

  abbrev pub seen_dirty : Option (ℕ × Bool) → ℕ → ℕ
  seen_dirty none c = c
  seen_dirty (some (i, active)) c = if t == i then color active else c

  -- The redraw of one dirty button makes that button's pixels right, and keeps the others.
  dirty-Shows :
      (dirty c : ℕ) (active o : Option ℕ) (r : Option (ℕ × Bool) × ℕ)
      → Drawn active_mask dirty active o r
      → (has_bit t dirty ≡ false → Shows active c)
      → has_bit t r.1 ≡ false
      → Shows active (seen_dirty r.0 c)
  dirty-Shows dirty c active none r d h k =
      subst (λ q. Shows active (seen_dirty q c)) (sym (ap (λ q. q.0) d)) (h (ground (arith, k, d)))
  dirty-Shows dirty c active (some i) r (b, e, f) h k =
      subst (λ q. Shows active (seen_dirty q c)) (sym f)
        (elim (Bool-cases (t == i)) [
          | inl g ↦ rw g (ap (λ j. color (current active_mask active j)) (sym (same_number t i g)))
          | inr g ↦ rw g (h (sym (has_bit-clear i t dirty r.1 b e g) ∙ k))
        ])

  pub render_one_dirty_button-Shows :
      (dirty c : ℕ) (active : Option ℕ)
      → (has_bit t dirty ≡ false → Shows active c)
      → let d = render_one_dirty_button active_mask dirty active in
        has_bit t d.1 ≡ false → Shows active (seen_dirty d.0 c)
  render_one_dirty_button-Shows dirty c active h =
      dirty-Shows dirty c active (lowest_from dirty 24 0)
        (render_one_dirty_button active_mask dirty active)
        (render_one_dirty_button_lem active_mask dirty active) h
