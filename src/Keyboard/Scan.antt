-- ===== src/Keyboard/Scan.antt =====
-- The search of PicoDeck-ED-Keyboard/src/edd_buttons.c, `find_value`, over the text of an indicator
-- message: an object of members as EDDiscovery writes it, with no white space between them.
use pico_deck_eddiscovery.Base.{
  ℕ, suc, ◌+◌, ◌≤◌, ◌≡◌, refl, ap, ◌∙◌, Bool, true, false, not, ◌&&◌, ◌||◌, Option, none, some, [],
  ◌∷◌, ◌++◌, arith, ltb, ◌==◌, length, length-append, get_or, take, drop, Bytes, equal, equal_refl,
  equal_sound, Bool-cases, inl, inr,
}
use pico_deck_eddiscovery.Keyboard.EddButtons.{
  is_white, skip_white, after_colon, quoted_key, find_value,
}

abbrev pub no_quote : Bytes → Bool
no_quote [] = true
no_quote (c ∷ cs) = not (c == b'"') && no_quote cs

-- What stands behind a string in such a text.
abbrev pub is_mark : ℕ → Bool
is_mark c = c == b':' || c == b',' || c == b'}'

-- What follows `o`, which is what `quoted_key` gives.
abbrev colon_after : Option Bytes → Option Bytes
colon_after o = elim o [ none ↦ none | some behind ↦ after_colon behind ]

-- What the loop finds at one place.
abbrev hit : Bytes → Bytes → Option Bytes
hit key text = colon_after (quoted_key key text)

pub find_value-short :
    (key text : Bytes) → length text ≤ length key + 2 → find_value key text ≡ none
unfolding find_value
find_value-short key [] h = refl
find_value-short key (c ∷ cs) h = ground arith

find_value-miss :
    (key : Bytes) (c : ℕ) (cs : Bytes)
    → hit key (c ∷ cs) ≡ none
    → find_value key (c ∷ cs) ≡ find_value key cs
unfolding find_value
find_value-miss key c cs h = elim (Bool-cases (ltb (length key + 2) (suc (length cs)))) [
  | inl e ↦ ground (arith, e, h)
  | inr e ↦ ground (arith, e, find_value-short key cs)
]

quoted_key-plain :
    (key : Bytes) (c : ℕ) (cs : Bytes) → (c == b'"') ≡ false → quoted_key key (c ∷ cs) ≡ none
unfolding quoted_key
quoted_key-plain key c cs h = rw (h, quoted_key) refl

-- No key starts where there is no quote.
pub find_value-plain :
    (key xs rest : Bytes) → no_quote xs ≡ true → find_value key (xs ++ rest) ≡ find_value key rest
find_value-plain key [] rest h = refl
find_value-plain key (c ∷ xs) rest h =
    find_value-miss key c (xs ++ rest)
      (ap colon_after (quoted_key-plain key c (xs ++ rest) (ground (arith, h))))
    ∙ find_value-plain key xs rest (ground (arith, h))

-- The test of the loop, at a string in quotes, compares the whole string.
pub take_match :
    (key s rest : Bytes)
    → no_quote key ≡ true
    → no_quote s ≡ true
    → (equal (take (length key) (s ++ b'"' ∷ rest)) key
        && get_or (s ++ b'"' ∷ rest) (length key) 0 == b'"')
      ≡ equal s key
unfolding equal
take_match [] [] rest h k = refl
take_match [] (x ∷ s) rest h k = ground (arith, k)
take_match (y ∷ key) [] rest h k = ground (arith, h)
take_match (y ∷ key) (x ∷ s) rest h k = ground (arith, h, k, take_match key s rest)

past_quote : (s rest : Bytes) → drop (suc (length s)) (s ++ b'"' ∷ rest) ≡ rest
past_quote [] rest = refl
past_quote (x ∷ s) rest = past_quote s rest

other_string :
    (key s rest : Bytes)
    → no_quote key ≡ true
    → no_quote s ≡ true
    → equal s key ≡ false
    → quoted_key key (b'"' ∷ (s ++ b'"' ∷ rest)) ≡ none
unfolding quoted_key
other_string key s rest h k e = rw (quoted_key, take_match key s rest h k, e) refl

same_string :
    (key rest : Bytes)
    → no_quote key ≡ true
    → quoted_key key (b'"' ∷ (key ++ b'"' ∷ rest)) ≡ some rest
unfolding quoted_key
same_string key rest h =
    rw (quoted_key, take_match key key rest h h, equal_refl key, past_quote key rest) refl

after_colon-mark :
    (c : ℕ) (cs : Bytes) → is_mark c ≡ true → (c == b':') ≡ false → after_colon (c ∷ cs) ≡ none
unfolding after_colon skip_white
after_colon-mark c cs m h = ground (arith, m, h)

closing_quote :
    (k c : ℕ) (key cs : Bytes)
    → is_mark k ≡ false
    → is_mark c ≡ true
    → hit (k ∷ key) (b'"' ∷ c ∷ cs) ≡ none
unfolding quoted_key equal
closing_quote k c key cs h m = ground (arith, h, m)

colon_value :
    (c : ℕ) (cs : Bytes) → is_white c ≡ false → after_colon (b':' ∷ c ∷ cs) ≡ some (c ∷ cs)
unfolding after_colon skip_white
colon_value c cs w = ground (arith, w)

-- A string passes, unless it is the key and a colon follows.
pub find_value-string :
    (k : ℕ) (key s : Bytes) (c : ℕ) (cs : Bytes)
    → no_quote (k ∷ key) ≡ true
    → is_mark k ≡ false
    → no_quote s ≡ true
    → is_mark c ≡ true
    → (equal s (k ∷ key) && c == b':') ≡ false
    → find_value (k ∷ key) (b'"' ∷ (s ++ b'"' ∷ c ∷ cs)) ≡ find_value (k ∷ key) (c ∷ cs)
find_value-string k key s c cs h m n mark other =
    find_value-miss (k ∷ key) b'"' (s ++ b'"' ∷ c ∷ cs) (opening (equal s (k ∷ key)) refl)
    ∙ find_value-plain (k ∷ key) s (b'"' ∷ c ∷ cs) n
    ∙ find_value-miss (k ∷ key) b'"' (c ∷ cs) (closing_quote k c key cs m mark)
  where
    opening :
        (e : Bool) → equal s (k ∷ key) ≡ e → hit (k ∷ key) (b'"' ∷ (s ++ b'"' ∷ c ∷ cs)) ≡ none
    opening false e = ap colon_after (other_string (k ∷ key) s (c ∷ cs) h n e)
    opening true e =
        let same = equal_sound s (k ∷ key) e in
        rw same (
          ap colon_after (same_string (k ∷ key) (c ∷ cs) h)
          ∙ after_colon-mark c cs mark (ground (arith, other, e)))

-- The key with its colon: the value is what follows, where that is no white space.
pub find_value-key :
    (key : Bytes) (c : ℕ) (cs : Bytes)
    → no_quote key ≡ true
    → is_white c ≡ false
    → find_value key (b'"' ∷ (key ++ b'"' ∷ b':' ∷ c ∷ cs)) ≡ some (c ∷ cs)
unfolding find_value
find_value-key key c cs h w = ground (
  arith,
  length-append key (b'"' ∷ b':' ∷ c ∷ cs),
  same_string key (b':' ∷ c ∷ cs) h,
  colon_value c cs w,
)
