-- ===== src/Display/Edd/Stops.antt =====
-- The destination and the next stop of a route in `parse_journal_route` of
-- PicoDeck-ED-Display/src/edd_state.c, against the list of the names that the route joins by commas.
use pico_deck_eddiscovery.Base.{
  ℕ, zero, suc, ◌≡◌, refl, ap, ◌∙◌, false, ◌&&◌, none, some, List, [], ◌∷◌, ◌++◌, arith, ltb, ◌==◌,
  if◌then◌else◌, length, take-append_self, drop, Bytes, codes, equal, Bool-cases, Option-cases, inl,
  inr,
}
use pico_deck_eddiscovery.Base.Text.{memchr}
use pico_deck_eddiscovery.Display.Edd.State.{edd_text}
use pico_deck_eddiscovery.Display.Edd.Tokens.{copy_chars}
use pico_deck_eddiscovery.Display.Edd.Journal.{
  copy_route_segment, trim_left, last_segment, skip_segments, first_segment, destination_of,
  next_stop,
}

-- Names that hold no comma themselves.
abbrev pub AreNames : List Bytes → Type 0
AreNames [] = Unit {0}
AreNames (x ∷ xs) = (memchr x b',' ≡ none) × AreNames xs

unfoldable pub joined : List Bytes → Bytes
joined [] = []
joined (x ∷ []) = x
joined (x ∷ y ∷ xs) = x ++ b',' ∷ joined (y ∷ xs)

unfoldable pub last_name : Bytes → List Bytes → Bytes
last_name x [] = x
last_name x (y ∷ xs) = last_name y xs

-- What the display shows of a name: `..`, which stands for names left out, is not one.
unfoldable pub stop_name : Bytes → Bytes
stop_name x =
    let name = copy_route_segment x edd_text in if equal name (codes "..") then [] else name

unfoldable pub stop_of : ℕ → List Bytes → Bytes
unfolding stop_name
stop_of remaining [] = []
stop_of remaining (x ∷ xs) = if ltb 0 remaining then stop_name x else []

no_comma-tail :
    (c : ℕ) (x : Bytes)
    → memchr (c ∷ x) b',' ≡ none
    → ((c == b',') ≡ false) × (memchr x b',' ≡ none)
unfolding memchr
no_comma-tail c x h = elim (Bool-cases (c == b',')) [
  | inl e ↦ absurd (ground (arith, h, e))
  | inr e ↦ elim (Option-cases (memchr x b',')) [
    | inl f ↦ (e, f)
    | inr (i, f) ↦ absurd (ground (arith, h, e, f))
  ]
]

memchr-comma :
    (x ys : Bytes) → memchr x b',' ≡ none → memchr (x ++ b',' ∷ ys) b',' ≡ some (length x)
unfolding memchr
memchr-comma [] ys h = refl
memchr-comma (c ∷ x) ys h =
    let (e, f) = no_comma-tail c x h in rw (e, memchr-comma x ys f, memchr) refl

past_comma : (x ys : Bytes) → drop (suc (length x)) (x ++ b',' ∷ ys) ≡ ys
past_comma [] ys = refl
past_comma (c ∷ x) ys = past_comma x ys

skip_segments-nil : (n : ℕ) → skip_segments n [] ≡ []
unfolding skip_segments memchr
skip_segments-nil zero = refl
skip_segments-nil (suc n) = skip_segments-nil n

nil-drop : (n : ℕ) → [] ≡ drop {A = Bytes} n []
nil-drop zero = refl
nil-drop (suc n) = refl

-- Skipping segments of the text is dropping names of the list.
skip_segments-joined :
    (n : ℕ) (names : List Bytes)
    → AreNames names
    → skip_segments n (joined names) ≡ joined (drop n names)
unfolding skip_segments joined
skip_segments-joined zero names h = refl
skip_segments-joined (suc n) [] h = skip_segments-nil (suc n)
skip_segments-joined (suc n) (x ∷ []) h =
    rw (h.0, skip_segments) (skip_segments-nil n ∙ ap joined (nil-drop n))
skip_segments-joined (suc n) (x ∷ y ∷ names) h =
    rw (memchr-comma x (joined (y ∷ names)) h.0, past_comma x (joined (y ∷ names)), skip_segments)
      (skip_segments-joined n (y ∷ names) h.1)

first_segment-joined :
    (x : Bytes) (names : List Bytes) → AreNames (x ∷ names) → first_segment (joined (x ∷ names)) ≡ x
unfolding first_segment joined
first_segment-joined x [] h = rw (h.0, first_segment) refl
first_segment-joined x (y ∷ names) h =
    rw (memchr-comma x (joined (y ∷ names)) h.0, first_segment)
      (take-append_self x (b',' ∷ joined (y ∷ names)))

AreNames-drop : (n : ℕ) (names : List Bytes) → AreNames names → AreNames (drop n names)
AreNames-drop zero names h = h
AreNames-drop (suc n) [] h = tt
AreNames-drop (suc n) (x ∷ names) h = AreNames-drop n names h.1

stop_name-nil : stop_name [] ≡ []
unfolding stop_name copy_route_segment trim_left copy_chars equal
stop_name-nil = refl

-- What `next_stop` does with what is left of the route.
stop_of-joined :
    (remaining : ℕ) (names : List Bytes)
    → AreNames names
    → (if ltb 0 remaining && ltb 0 (length (joined names))
        then stop_name (first_segment (joined names))
        else [])
      ≡ stop_of remaining names
unfolding stop_of joined
stop_of-joined remaining [] h = ground arith
stop_of-joined remaining ([] ∷ []) h = ground (arith, stop_name-nil)
stop_of-joined remaining ((c ∷ x) ∷ []) h = rw (first_segment-joined (c ∷ x) [] h) (ground arith)
stop_of-joined remaining ([] ∷ y ∷ names) h =
    rw (first_segment-joined [] (y ∷ names) h) (ground arith)
stop_of-joined remaining ((c ∷ x) ∷ y ∷ names) h =
    rw (first_segment-joined (c ∷ x) (y ∷ names) h) (ground arith)

last_segment-comma :
    (x best ys : Bytes)
    → memchr x b',' ≡ none
    → last_segment best (x ++ b',' ∷ ys) ≡ last_segment ys ys
unfolding last_segment memchr
last_segment-comma [] best ys h = refl
last_segment-comma (c ∷ x) best ys h =
    let (e, f) = no_comma-tail c x h in rw (e, last_segment) (last_segment-comma x best ys f)

last_segment-none : (x best : Bytes) → memchr x b',' ≡ none → last_segment best x ≡ best
unfolding last_segment memchr
last_segment-none [] best h = refl
last_segment-none (c ∷ x) best h =
    let (e, f) = no_comma-tail c x h in rw (e, last_segment) (last_segment-none x best f)

last_segment-joined :
    (x : Bytes) (names : List Bytes)
    → AreNames (x ∷ names)
    → last_segment (joined (x ∷ names)) (joined (x ∷ names)) ≡ last_name x names
unfolding joined last_name
last_segment-joined x [] h = last_segment-none x x h.0
last_segment-joined x (y ∷ names) h =
    last_segment-comma x _ (joined (y ∷ names)) h.0 ∙ last_segment-joined y names h.1

-- Of a route that joins names by commas, the destination is the last name, without the blanks around
-- it, and the next stop after some completed jumps is the name at that place: none where there is no
-- such name or no jump remains, or where the text there only says that names are left out.
pub next_stop-joined :
    (completed remaining : ℕ) (x : Bytes) (names : List Bytes)
    → AreNames (x ∷ names)
    → (destination_of (joined (x ∷ names)) ≡ copy_route_segment (last_name x names) edd_text)
      × (next_stop completed remaining (joined (x ∷ names))
          ≡ stop_of remaining (drop completed (x ∷ names)))
unfolding destination_of next_stop equal stop_name
next_stop-joined completed remaining x names h = (
  rw (last_segment-joined x names h) refl,
  rw (skip_segments-joined completed (x ∷ names) h) (
      stop_of-joined remaining (drop completed (x ∷ names))
        (AreNames-drop completed (x ∷ names) h)),
)
