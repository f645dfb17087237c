-- ===== src/Display/Debounce.antt =====
-- The debounced button of PicoDeck-ED-Display/src/main.c over any sequence of samples.
use pico_deck_eddiscovery.Base.{
  ℕ, ◌≤◌, ◌≡◌, ◌∙◌, refl, sym, subst, Bool, true, false, not, ◌&&◌, ◌||◌, List, [], ◌∷◌,
  if◌then◌else◌, arith,
}
use pico_deck_eddiscovery.Base.Bits.{sub64}
use pico_deck_eddiscovery.Display.Input.{
  DebouncedInput, differs, debounced_input_init, debounced_input_pressed,
}

-- The levels read and the times at which they are read.
abbrev pub Samples : Type 0
Samples = List (Bool × ℕ)

abbrev pub sampled : Samples → DebouncedInput → DebouncedInput
sampled [] d = d
sampled ((level, now) ∷ rest) d = sampled rest (debounced_input_pressed level now d).1

-- Whether some sample reports a press.
abbrev pub presses : Samples → DebouncedInput → Bool
presses [] d = false
presses ((level, now) ∷ rest) d =
    (debounced_input_pressed level now d).0 || presses rest (debounced_input_pressed level now d).1

-- The last level, and the time of the first of the samples that have had it since.
abbrev pub last_run : Samples → Bool → ℕ → Bool × ℕ
last_run [] level since = (level, since)
last_run ((next, now) ∷ rest) level since =
    if differs next level then last_run rest next now else last_run rest level since

abbrev pub all_low : Samples → Bool
all_low [] = true
all_low ((level, now) ∷ rest) = not level && all_low rest

sampled-run :
    (samples : Samples) (d : DebouncedInput)
    → ((sampled samples d).raw_level ≡ (last_run samples d.raw_level d.changed_ms).0)
      × ((sampled samples d).changed_ms ≡ (last_run samples d.raw_level d.changed_ms).1)
unfolding debounced_input_pressed
sampled-run [] d = (refl, refl)
sampled-run ((level, now) ∷ rest) d =
    ground (arith, sampled-run rest (debounced_input_pressed level now d).1)

pressed_after :
    (level : Bool) (now : ℕ) (d : DebouncedInput)
    → (debounced_input_pressed level now d).0 ≡ true
    → (level ≡ false) × (d.raw_level ≡ false) × (35 ≤ sub64 now d.changed_ms)
unfolding debounced_input_pressed
pressed_after level now d h = ground arith

-- A press is reported only while the button is down, and only where every sample of the last 35 ms and
-- more, back to the first of the run, was down too: a bounce starts the time again.
pub press_is_stable :
    (samples : Samples) (level : Bool) (start now : ℕ) (first : Bool)
    → (debounced_input_pressed level now (sampled samples (debounced_input_init first start))).0
      ≡ true
    → let run = last_run samples first start in
      (level ≡ false) × (run.0 ≡ false) × (35 ≤ sub64 now run.1)
unfolding debounced_input_init
press_is_stable samples level start now first h =
    let (raw, changed) = sampled-run samples (debounced_input_init first start) in
    let (down, low, long) =
      pressed_after level now (sampled samples (debounced_input_init first start)) h in
    (down, sym raw ∙ low, subst (λ t. 35 ≤ sub64 now t) changed long)

no_press :
    (samples : Samples) (d : DebouncedInput)
    → d.raw_level ≡ false
    → d.stable_level ≡ false
    → all_low samples ≡ true
    → presses samples d ≡ false
unfolding debounced_input_pressed
no_press [] d h k l = refl
no_press ((level, now) ∷ rest) d h k l =
    ground (arith, no_press rest (debounced_input_pressed level now d).1)

pressed_low :
    (level : Bool) (now : ℕ) (d : DebouncedInput)
    → (debounced_input_pressed level now d).0 ≡ true
    → ((debounced_input_pressed level now d).1.raw_level ≡ false)
      × ((debounced_input_pressed level now d).1.stable_level ≡ false)
unfolding debounced_input_pressed
pressed_low level now d h = ground arith

-- Once a press has been reported, none is reported again as long as the button stays down.
pub press_once :
    (level : Bool) (now : ℕ) (d : DebouncedInput) (samples : Samples)
    → (debounced_input_pressed level now d).0 ≡ true
    → all_low samples ≡ true
    → presses samples (debounced_input_pressed level now d).1 ≡ false
press_once level now d samples h k =
    no_press samples (debounced_input_pressed level now d).1 (pressed_low level now d h).0
      (pressed_low level now d h).1 k
