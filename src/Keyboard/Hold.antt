-- ===== src/Keyboard/Hold.antt =====
-- The way into the boot loader in the main loop of PicoDeck-ED-Keyboard/src/main.c: SYSTEM MAP, the last
-- button, held for six seconds.
use pico_deck_eddiscovery.Base.{
  ℕ, ◌+◌, leb, ◌≤◌, ◌≡◌, refl, ap, ◌∙◌, Bool, true, false, ◌||◌, Option, none, some, List, [], ◌∷◌,
  ◌++◌, arith, ==_iff, if◌then◌else◌, ◌⊎◌, inl, inr, Bool-cases,
}
use pico_deck_eddiscovery.Keyboard.Press.{
  Press, Poll, Effect, initial, touch_stable_polls, count_up, touched, same, is_last, hold_expired,
  bootsel_hold_time_us, activate, stabilise, bootsel, count_release, try_key_down, try_key_up,
  finish_press, give_up, held, hold, round,
}
use pico_deck_eddiscovery.Keyboard.Keys.{rounds}
use Effect.{render_pressed, render_idle, key_down, key_up, reset_usb_boot}

-- A poll that touched SYSTEM MAP, six seconds before `d`.
abbrev pub Sets : Poll → ℕ → Type 0
Sets i d = (touched i.touch ≡ some 23) × (i.now_us + bootsel_hold_time_us ≡ d)

-- One of the polls did.
abbrev pub Held : List Poll → ℕ → Type 0
Held [] d = ⊥
Held (i ∷ is) d = Sets i d ⊎ Held is d

abbrev pub resets : List Effect → Bool
resets [] = false
resets (reset_usb_boot ∷ es) = true
resets (_ ∷ es) = resets es

-- The time to wait for, if there is one, has a reason.
abbrev Backed : (ℕ → Type 0) → Option ℕ → Type 0
Backed P none = Unit {0}
Backed P (some d) = P d

weaken : (P Q : ℕ → Type 0) (o : Option ℕ) → ((d : ℕ) → P d → Q d) → Backed P o → Backed Q o
weaken P Q none f h = h
weaken P Q (some d) f h = f d h

activate-Backed :
    (Q : ℕ → Type 0) (b now : ℕ) (s : Press)
    → (b ≡ 23 → Q (now + bootsel_hold_time_us))
    → Backed Q (activate b now s).0.bootsel_hold_at
unfolding activate
activate-Backed Q b now s f = elim (Bool-cases (is_last b)) [
  | inl e ↦ rw e (f ((==_iff b 23).0 e))
  | inr e ↦ rw e tt
]

stabilise-Backed :
    (P : ℕ → Type 0) (i : Poll) (t : Option ℕ) (s : Press)
    → touched i.touch ≡ t
    → Backed P s.bootsel_hold_at
    → Backed (λ d. P d ⊎ Sets i d) (stabilise t i.now_us s).0.bootsel_hold_at
unfolding stabilise
stabilise-Backed P i none s e h = weaken P (λ d. P d ⊎ Sets i d) s.bootsel_hold_at (λ d p. inl p) h
stabilise-Backed P i (some b) s e h = elim (Bool-cases (leb touch_stable_polls n)) [
  | inl k ↦
      rw (k, stabilise)
        (activate-Backed (λ d. P d ⊎ Sets i d) b i.now_us _
          (λ is_map. inr (e ∙ ap (λ c. some c) is_map, refl)))
  | inr k ↦ rw (k, stabilise) (weaken P (λ d. P d ⊎ Sets i d) s.bootsel_hold_at (λ d p. inl p) h)
]
  where
    n : ℕ
    n = if same (some b) s.candidate_button then count_up s.candidate_count else 1

-- While a button is held the time stays, and it goes with the button.
held-time :
    (i : Poll) (b : ℕ) (s : Press)
    → ((held i b s).0.bootsel_hold_at ≡ none) ⊎ ((held i b s).0.bootsel_hold_at ≡ s.bootsel_hold_at)
unfolding held count_release try_key_down try_key_up finish_press give_up
held-time i b s = ground arith

hold-Backed :
    (Q : ℕ → Type 0) (i : Poll) (o : Option ℕ) (s : Press)
    → Backed Q s.bootsel_hold_at
    → Backed Q (hold i o s).0.bootsel_hold_at
unfolding hold
hold-Backed Q i none s h = h
hold-Backed Q i (some b) s h = elim (held-time i b s) [ inl e ↦ rw e tt | inr e ↦ rw e h ]

-- What a round does first, and the state that it then holds the button in.
touch_stage : Bool → Poll → Press → Press × List Effect
touch_stage armed i s = if armed then stabilise (touched i.touch) i.now_us s else (s, [])

touch_stage-Backed :
    (P : ℕ → Type 0) (armed : Bool) (i : Poll) (s : Press)
    → Backed P s.bootsel_hold_at
    → Backed (λ d. P d ⊎ Sets i d) (touch_stage armed i s).0.bootsel_hold_at
unfolding touch_stage
touch_stage-Backed P true i s h = stabilise-Backed P i (touched i.touch) s refl h
touch_stage-Backed P false i s h = weaken P (λ d. P d ⊎ Sets i d) s.bootsel_hold_at (λ d p. inl p) h

hold_stage : Bool → Poll → Press → Press × List Effect
hold_stage armed i s = if armed then (s, []) else hold i s.active_button s

hold_stage-Backed :
    (Q : ℕ → Type 0) (armed : Bool) (i : Poll) (s : Press)
    → Backed Q s.bootsel_hold_at
    → Backed Q (hold_stage armed i s).0.bootsel_hold_at
unfolding hold_stage
hold_stage-Backed Q true i s h = h
hold_stage-Backed Q false i s h = hold-Backed Q i s.active_button s h

round-Backed :
    (P : ℕ → Type 0) (i : Poll) (s : Press)
    → Backed P s.bootsel_hold_at
    → Backed (λ d. P d ⊎ Sets i d) (round i s).0.bootsel_hold_at
unfolding round touch_stage hold_stage
round-Backed P i s h =
    let after = (touch_stage s.armed i s).0 in
    hold_stage-Backed (λ d. P d ⊎ Sets i d) after.armed i after (touch_stage-Backed P s.armed i s h)

rounds-Backed :
    (P : ℕ → Type 0) (is : List Poll) (s : Press)
    → Backed P s.bootsel_hold_at
    → Backed (λ d. P d ⊎ Held is d) (rounds is s).0.bootsel_hold_at
rounds-Backed P [] s h = weaken P (λ d. P d ⊎ ⊥) s.bootsel_hold_at (λ d p. inl p) h
rounds-Backed P (i ∷ is) s h =
    weaken (λ d. (P d ⊎ Sets i d) ⊎ Held is d) (λ d. P d ⊎ Held (i ∷ is) d) _ (λ d. regroup d)
      (rounds-Backed (λ d. P d ⊎ Sets i d) is (round i s).0 (round-Backed P i s h))
  where
    regroup : (d : ℕ) → (P d ⊎ Sets i d) ⊎ Held is d → P d ⊎ Held (i ∷ is) d
    regroup d (inl (inl p)) = inl p
    regroup d (inl (inr q)) = inr (inl q)
    regroup d (inr r) = inr (inr r)

resets-append : (xs ys : List Effect) → resets (xs ++ ys) ≡ (resets xs || resets ys)
resets-append [] ys = refl
resets-append (reset_usb_boot ∷ xs) ys = refl
resets-append (render_pressed b ∷ xs) ys = resets-append xs ys
resets-append (render_idle b ∷ xs) ys = resets-append xs ys
resets-append (key_down u ∷ xs) ys = resets-append xs ys
resets-append (key_up ∷ xs) ys = resets-append xs ys

touch_stage-resets :
    (armed : Bool) (i : Poll) (s : Press) → resets (touch_stage armed i s).1 ≡ false
unfolding touch_stage stabilise activate
touch_stage-resets false i s = refl
touch_stage-resets true i s = by (touched i.touch)
  where
    by : (t : Option ℕ) → resets (stabilise t i.now_us s).1 ≡ false
    by none = refl
    by (some b) = ground arith

same→eq : (a b : Option ℕ) → same a b ≡ true → a ≡ b
same→eq none none h = refl
same→eq none (some b) h = cc
same→eq (some a) none h = cc
same→eq (some a) (some b) h = ap (λ n. some n) ((==_iff a b).0 h)

bootsel-resets :
    (i : Poll) (s : Press)
    → resets (bootsel i s) ≡ true
    → (touched i.touch ≡ some 23) × (hold_expired s.bootsel_hold_at i.now_us ≡ true)
unfolding bootsel
bootsel-resets i s h =
    ground (arith, same→eq s.active_button (some 23), same→eq (touched i.touch) s.active_button)

-- The stages of a held button reset nothing.
try_key_down-resets : (i : Poll) (b : ℕ) (s : Press) → resets (try_key_down i b s).1 ≡ false
unfolding try_key_down
try_key_down-resets i b s = ground arith

try_key_up-resets : (i : Poll) (s : Press) → resets (try_key_up i s).1 ≡ false
unfolding try_key_up
try_key_up-resets i s = ground arith

finish_press-resets : (b : ℕ) (s : Press) → resets (finish_press b s).1 ≡ false
unfolding finish_press
finish_press-resets b s = ground arith

give_up-resets : (b : ℕ) (s : Press) → resets (give_up b s).1 ≡ false
unfolding give_up
give_up-resets b s = ground arith

or_false : (b : Bool) → (b || false) ≡ b
or_false true = refl
or_false false = refl

held-resets : (i : Poll) (b : ℕ) (s : Press) → resets (held i b s).1 ≡ resets (bootsel i s)
unfolding held
held-resets i b s = simp (
  or_false, resets-append, try_key_down-resets, try_key_up-resets, finish_press-resets,
  give_up-resets,
)

hold_stage-resets :
    (armed : Bool) (i : Poll) (s : Press)
    → resets (hold_stage armed i s).1 ≡ true
    → resets (bootsel i s) ≡ true
unfolding hold_stage hold
hold_stage-resets true i s h = cc
hold_stage-resets false i s h = by s.active_button h
  where
    by : (o : Option ℕ) → resets (hold i o s).1 ≡ true → resets (bootsel i s) ≡ true
    by none h = cc
    by (some b) h = ground (arith, held-resets i b s, h)

-- The time of a poll that reaches the boot loader was set by an earlier poll: one that sets it now is
-- six seconds early.
expired-Held :
    (is : List Poll) (i : Poll) (o : Option ℕ)
    → Backed (λ d. (⊥ ⊎ Held is d) ⊎ Sets i d) o
    → hold_expired o i.now_us ≡ true
    → (d : ℕ) × (d ≤ i.now_us) × Held is d
expired-Held is i none h e = cc
expired-Held is i (some d) (inl (inl p)) e = absurd p
expired-Held is i (some d) (inl (inr p)) e = (d, ground arith, p)
expired-Held is i (some d) (inr p) e = absurd (ground (arith, p))

-- The device enters the boot loader only in a round in which SYSTEM MAP is touched, and only if a poll
-- of an earlier round touched it six seconds before or more.
pub reset-Held :
    (is : List Poll) (i : Poll)
    → resets (round i (rounds is initial).0).1 ≡ true
    → (touched i.touch ≡ some 23) × ((d : ℕ) × (d ≤ i.now_us) × Held is d)
unfolding round touch_stage hold_stage
reset-Held is i h =
    let s = (rounds is initial).0 in
    let after = (touch_stage s.armed i s).0 in
    let boot = bootsel-resets i after (
      hold_stage-resets after.armed i after (
        ground (
          arith,
          resets-append (touch_stage s.armed i s).1 (hold_stage after.armed i after).1,
          touch_stage-resets s.armed i s,
          h,
        ))) in
    let backed =
      touch_stage-Backed (λ d. ⊥ ⊎ Held is d) s.armed i s (rounds-Backed (λ d. ⊥) is initial tt) in
    (boot.0, expired-Held is i after.bootsel_hold_at backed boot.1)
