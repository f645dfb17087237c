-- ===== src/Keyboard/Keys.antt =====
-- The key presses of the main loop of PicoDeck-ED-Keyboard/src/main.c: what the computer at the other
-- end of the USB cable sees, over any number of rounds.
use pico_deck_eddiscovery.Base.{
  ℕ, ◌+◌, ◌≡◌, refl, Bool, true, false, not, ◌&&◌, Option, none, some, List, [], ◌∷◌, ◌++◌, arith,
  ==_refl, if◌then◌else◌, append-nil, ap, ◌∙◌,
}
use pico_deck_eddiscovery.Keyboard.Buttons.{g_buttons, button_at}
use pico_deck_eddiscovery.Keyboard.Press.{
  Press, Poll, Effect, initial, touched, same, is_last, hold_expired, bootsel_hold_time_us,
  activate, stabilise, bootsel, count_release, try_key_down, try_key_up, finish_press, give_up,
  held, hold, round, is_touching,
}
use Effect.{render_pressed, key_down, key_up}

-- Rounds of the loop, in order.
abbrev pub rounds : List Poll → Press → Press × List Effect
rounds [] s = (s, [])
rounds (i ∷ is) s =
    let first = round i s in let rest = rounds is first.0 in (rest.0, first.1 ++ rest.1)

-- What the computer sees: whether a key is down, `none` where a key went down or up twice in a row.
abbrev pub host : Effect → Option Bool → Option Bool
host (key_down u) (some false) = some true
host (key_down u) _ = none
host key_up (some true) = some false
host key_up _ = none
host _ k = k

abbrev pub host_sees : List Effect → Option Bool → Option Bool
host_sees [] k = k
host_sees (e ∷ es) k = host_sees es (host e k)

host_sees-append :
    (xs ys : List Effect) (k : Option Bool) → host_sees (xs ++ ys) k ≡ host_sees ys (host_sees xs k)
host_sees-append [] ys k = refl
host_sees-append (x ∷ xs) ys k = host_sees-append xs ys (host x k)

-- Armed exactly where no button is held; then no press is pending and no key is down. A press that is
-- pending has not gone down yet.
abbrev pub is_consistent : Press → Bool
is_consistent s =
    if s.armed
    then same s.active_button none && not s.press_pending && not s.key_is_down
    else not (same s.active_button none) && not (s.press_pending && s.key_is_down)

-- One stage of a round: it keeps the state consistent and tells the computer what the state says.
abbrev pub Keeps : Press → Press × List Effect → Type 0
Keeps s r = (is_consistent r.0 ≡ true) × (host_sees r.1 (some s.key_is_down) ≡ some r.0.key_is_down)

stabilise-Keeps :
    (t : Option ℕ) (now : ℕ) (s : Press)
    → is_consistent s ≡ true
    → s.armed ≡ true
    → Keeps s (stabilise t now s)
unfolding stabilise activate
stabilise-Keeps none now s h a = ground arith
stabilise-Keeps (some b) now s h a = ground arith

held-Keeps :
    (i : Poll) (b : ℕ) (s : Press)
    → is_consistent s ≡ true
    → s.armed ≡ false
    → s.active_button ≡ some b
    → Keeps s (held i b s)
unfolding held bootsel count_release try_key_down try_key_up finish_press give_up
held-Keeps i b s h a k = ground arith

hold-Keeps :
    (i : Poll) (s : Press) (o : Option ℕ)
    → is_consistent s ≡ true
    → s.armed ≡ false
    → s.active_button ≡ o
    → Keeps s (hold i o s)
unfolding hold
hold-Keeps i s none h a e = absurd (ground arith)
hold-Keeps i s (some b) h a e = held-Keeps i b s h a e

pub first-Keeps :
    (i : Poll) (s : Press) (a : Bool)
    → is_consistent s ≡ true
    → s.armed ≡ a
    → Keeps s (if a then stabilise (touched i.touch) i.now_us s else (s, []))
first-Keeps i s true h e = stabilise-Keeps (touched i.touch) i.now_us s h e
first-Keeps i s false h e = (h, refl)

second-Keeps :
    (i : Poll) (s : Press) (a : Bool)
    → is_consistent s ≡ true
    → s.armed ≡ a
    → Keeps s (if a then (s, []) else hold i s.active_button s)
second-Keeps i s true h e = (h, refl)
second-Keeps i s false h e = hold-Keeps i s s.active_button h e refl

Keeps-append :
    (s : Press) (f g : Press × List Effect) → Keeps s f → Keeps f.0 g → Keeps s (g.0, f.1 ++ g.1)
Keeps-append s f g (h1, k1) (h2, k2) =
    (h2, host_sees-append f.1 g.1 (some s.key_is_down) ∙ ap (host_sees g.1) k1 ∙ k2)

abbrev first_stage : Poll → Press → Press × List Effect
first_stage i s = if s.armed then stabilise (touched i.touch) i.now_us s else (s, [])

abbrev second_stage : Poll → Press → Press × List Effect
second_stage i s = if s.armed then (s, []) else hold i s.active_button s

pub round-Keeps : (i : Poll) (s : Press) → is_consistent s ≡ true → Keeps s (round i s)
unfolding round
round-Keeps i s h =
    let k = first-Keeps i s s.armed h refl in
    Keeps-append s (first_stage i s) (second_stage i (first_stage i s).0) k
      (second-Keeps i (first_stage i s).0 (first_stage i s).0.armed k.0 refl)

rounds-Keeps : (is : List Poll) (s : Press) → is_consistent s ≡ true → Keeps s (rounds is s)
rounds-Keeps [] s h = (h, refl)
rounds-Keeps (i ∷ is) s h =
    let k = round-Keeps i s h in
    Keeps-append s (round i s) (rounds is (round i s).0) k (rounds-Keeps is (round i s).0 k.0)

-- Whatever is touched and whenever the computer takes a report, the reports alternate: no key goes
-- down twice without coming up, none comes up that is not down, and the flag says what is down; a
-- button is held exactly when the loop is not armed.
pub keys_alternate :
    (is : List Poll)
    → let r = rounds is initial in
      (host_sees r.1 (some false) ≡ some r.0.key_is_down) × (is_consistent r.0 ≡ true)
keys_alternate is = ((rounds-Keeps is initial refl).1, (rounds-Keeps is initial refl).0)

-- After `n` polls that touched `b`.
abbrev touched_for : ℕ → ℕ → Press → Press
touched_for b n s = record s { candidate_button = some b; candidate_count = n }

abbrev pressed : ℕ → ℕ → Press → Press
pressed b now s = record s {
  candidate_button = some b;
  candidate_count = 3;
  active_button = some b;
  armed = false;
  press_pending = true;
  release_count = 0;
  bootsel_hold_at = if is_last b then some (now + bootsel_hold_time_us) else none;
}

first_poll :
    (i : Poll) (b : ℕ) (s : Press)
    → s.armed ≡ true
    → same (some b) s.candidate_button ≡ false
    → touched i.touch ≡ some b
    → round i s ≡ (touched_for b 1 s, [])
unfolding round stabilise
first_poll i b s a n p = rw (a, p, stabilise, n) refl

second_poll :
    (i : Poll) (b : ℕ) (s : Press)
    → s.armed ≡ true
    → touched i.touch ≡ some b
    → round i (touched_for b 1 s) ≡ (touched_for b 2 s, [])
unfolding round stabilise
second_poll i b s a p = rw (a, p, stabilise, ==_refl b) refl

abbrev has_point : Option (ℕ × ℕ) → Bool
has_point none = false
has_point (some t) = true

is_touching-touched : (o : Option (ℕ × ℕ)) (b : ℕ) → touched o ≡ some b → has_point o ≡ true
unfolding touched
is_touching-touched none b h = cc
is_touching-touched (some t) b h = refl

-- A pending press goes out where the computer takes it, and nothing else happens in that round.
held_down :
    (i : Poll) (b : ℕ) (s : Press)
    → is_touching i ≡ true
    → i.hid_accepts ≡ true
    → s.press_pending ≡ true
    → bootsel i s ≡ []
    → (held i b s).1 ≡ key_down (button_at b g_buttons).hid_usage ∷ []
unfolding held count_release try_key_down try_key_up finish_press give_up
held_down i b s h k l m = rw (m, h, k, l) (ground arith)

no_bootsel :
    (i : Poll) (s : Press) → hold_expired s.bootsel_hold_at i.now_us ≡ false → bootsel i s ≡ []
unfolding bootsel
no_bootsel i s h = ground arith

third_poll :
    (i : Poll) (b : ℕ) (s : Press)
    → s.armed ≡ true
    → touched i.touch ≡ some b
    → i.hid_accepts ≡ true
    → (round i (touched_for b 2 s)).1
      ≡ render_pressed b ∷ key_down (button_at b g_buttons).hid_usage ∷ []
unfolding round stabilise activate hold
third_poll i b s a p t =
    rw (a, p, stabilise, ==_refl b)
      (ap (◌∷◌ (render_pressed b)) (
        held_down i b (pressed b i.now_us s) (is_touching-touched i.touch b p) t refl
          (no_bootsel i (pressed b i.now_us s) (ground arith))))

-- From any state in which the loop is armed and its candidate is not the button `b` (as it is at the
-- start, and after any armed poll that touched no button or another): three polls in a row that touch `b`
-- press its key where the computer takes the report at the third. The tile is drawn pressed and the key
-- goes down once, at the third poll and not before.
pub three_polls_press :
    (i j k : Poll) (b : ℕ) (s : Press)
    → s.armed ≡ true
    → same (some b) s.candidate_button ≡ false
    → touched i.touch ≡ some b
    → touched j.touch ≡ some b
    → touched k.touch ≡ some b
    → k.hid_accepts ≡ true
    → ((rounds (i ∷ j ∷ []) s).1 ≡ [])
      × ((rounds (i ∷ j ∷ k ∷ []) s).1
          ≡ render_pressed b ∷ key_down (button_at b g_buttons).hid_usage ∷ [])
three_polls_press i j k b s a n p q r t =
    rw (first_poll i b s a n p, second_poll j b s a q) (refl, append-nil _ ∙ third_poll k b s a r t)
