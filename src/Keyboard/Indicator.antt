-- ===== src/Keyboard/Indicator.antt =====
-- An indicator message as its members, for PicoDeck-ED-Keyboard/src/edd_buttons.c: what the search over
-- the text reads is what the first member with the key says.
use pico_deck_eddiscovery.Base.{
  ℕ, suc, ◌+◌, ◌≡◌, refl, ap, Bool, true, false, not, ◌&&◌, ◌||◌, Option, none, some, List, [], ◌∷◌,
  ◌++◌, arith, leb, ◌==◌, if◌then◌else◌, length, length-append, get_or, take, drop, Bytes, codes,
  equal, equal_sound, Bool-cases, inl, inr,
}
use pico_deck_eddiscovery.Keyboard.EddButtons.{is_white, find_value, json_bool, json_string_is}
use pico_deck_eddiscovery.Keyboard.Scan.{
  no_quote, is_mark, find_value-plain, find_value-short, find_value-string, find_value-key,
  take_match,
}

-- A number, `true`, `false`, `null` or a list of numbers; or a string.
pub data Value : Type 0 where
  word : Bytes → Value
  text : Bytes → Value

-- A word is not empty, does not start with white space and holds no quote; a string holds none either,
-- so no escaped one.
abbrev pub is_plain_value : Value → Bool
is_plain_value (word []) = false
is_plain_value (word (c ∷ cs)) = not (is_white c) && no_quote (c ∷ cs)
is_plain_value (text t) = no_quote t

abbrev pub is_plain : List (Bytes × Value) → Bool
is_plain [] = true
is_plain ((k, v) ∷ members) = no_quote k && is_plain_value v && is_plain members

-- A value, and what follows it.
abbrev pub printed : Value → Bytes → Bytes
printed (word w) rest = w ++ rest
printed (text t) rest = b'"' ∷ (t ++ b'"' ∷ rest)

abbrev named : Bytes → Bytes → Bytes
named k rest = b'"' ∷ (k ++ b'"' ∷ b':' ∷ rest)

unfoldable pub members_text : List (Bytes × Value) → Bytes
members_text [] = b'}' ∷ []
members_text ((k, v) ∷ []) = named k (printed v (b'}' ∷ []))
members_text ((k, v) ∷ m ∷ members) = named k (printed v (b',' ∷ members_text (m ∷ members)))

abbrev pub message_text : List (Bytes × Value) → Bytes
message_text members = b'{' ∷ members_text members

-- The value of the first member with a key.
unfoldable pub first_value : Bytes → List (Bytes × Value) → Option Value
first_value key [] = none
first_value key ((k, v) ∷ members) = if equal k key then some v else first_value key members

-- What a value says where a flag is looked for, and where a text is.
unfoldable pub flag_of : Option Value → Bool
flag_of (some (word w)) = get_or w 0 0 == b'1' || equal (take 4 w) (codes "true")
flag_of _ = false

unfoldable pub says : Bytes → Option Value → Bool
says expected (some (text t)) = equal t expected
says expected _ = false

abbrev no_mark : Bytes → Bool
no_mark [] = true
no_mark (c ∷ cs) = not (is_mark c) && no_mark cs

-- What the search over the text gives, beside the search over the members.
data Reads : Option Bytes → Option Value → Type 0 where
  absent : Reads none none
  present :
      (v : Value) (c : ℕ) (cs : Bytes)
      → is_plain_value v ≡ true
      → (c == b',' || c == b'}') ≡ true
      → Reads (some (printed v (c ∷ cs))) (some v)

module _ (k : ℕ) (key : Bytes) (clean : no_quote (k ∷ key) ≡ true) (start : is_mark k ≡ false) where
  find_value-value :
      (v : Value) (c : ℕ) (cs : Bytes)
      → is_plain_value v ≡ true
      → (c == b',' || c == b'}') ≡ true
      → find_value (k ∷ key) (printed v (c ∷ cs)) ≡ find_value (k ∷ key) (c ∷ cs)
  find_value-value (word []) c cs p m = cc
  find_value-value (word (w ∷ ws)) c cs p m =
      find_value-plain (k ∷ key) (w ∷ ws) (c ∷ cs) (ground (arith, p))
  find_value-value (text t) c cs p m =
      find_value-string k key t c cs clean start p (ground (arith, m)) (ground (arith, m))

  find_value-here :
      (v : Value) (rest : Bytes)
      → is_plain_value v ≡ true
      → find_value (k ∷ key) (named (k ∷ key) (printed v rest)) ≡ some (printed v rest)
  find_value-here (word []) rest p = cc
  find_value-here (word (w ∷ ws)) rest p =
      find_value-key (k ∷ key) w (ws ++ rest) clean (ground (arith, p))
  find_value-here (text t) rest p = find_value-key (k ∷ key) b'"' (t ++ b'"' ∷ rest) clean refl

  -- The member with the key ends the search; any other is passed, with its value.
  find_value-member :
      (j : Bytes) (v : Value) (c : ℕ) (cs : Bytes) (o : Option Value)
      → no_quote j ≡ true
      → is_plain_value v ≡ true
      → (c == b',' || c == b'}') ≡ true
      → Reads (find_value (k ∷ key) (c ∷ cs)) o
      → Reads
          (find_value (k ∷ key) (named j (printed v (c ∷ cs))))
          (if equal j (k ∷ key) then some v else o)
  find_value-member j v c cs o q p m rest = elim (Bool-cases (equal j (k ∷ key))) [
    | inl e ↦
        let same = equal_sound j (k ∷ key) e in
        rw (e, same, find_value-here v (c ∷ cs) p) (present v c cs p m)
    | inr e ↦
        rw
          (
            e,
            find_value-string k key j b':' (printed v (c ∷ cs)) clean start q refl
                (ground (arith, e)),
            find_value-plain (k ∷ key) (b':' ∷ []) (printed v (c ∷ cs)) refl,
            find_value-value v c cs p m,
          )
          rest
  ]

  find_value-end : Reads (find_value (k ∷ key) (b'}' ∷ [])) none
  find_value-end = rw (find_value-short (k ∷ key) (b'}' ∷ []) (omega arith)) absent

  find_value-Reads :
      (members : List (Bytes × Value))
      → is_plain members ≡ true
      → Reads (find_value (k ∷ key) (members_text members)) (first_value (k ∷ key) members)
  unfolding members_text first_value
  find_value-Reads [] h = find_value-end
  find_value-Reads ((j, v) ∷ []) h =
      find_value-member j v b'}' [] none (ground (arith, h)) (ground (arith, h)) refl find_value-end
  find_value-Reads ((j, v) ∷ m ∷ members) h =
      find_value-member j v b',' (members_text (m ∷ members)) (first_value (k ∷ key) (m ∷ members))
        (ground (arith, h)) (ground (arith, h)) refl
        (rw (find_value-plain (k ∷ key) (b',' ∷ []) (members_text (m ∷ members)) refl)
          (find_value-Reads (m ∷ members) (ground (arith, h))))

-- What the readers make of the text from the value on.
take_word :
    (w rest expected : Bytes) (c : ℕ)
    → no_mark expected ≡ true
    → is_mark c ≡ true
    → equal (take (length expected) (w ++ c ∷ rest)) expected
      ≡ equal (take (length expected) w) expected
unfolding equal
take_word w rest [] c h m = refl
take_word [] rest (e ∷ es) c h m = ground (arith, h, m)
take_word (x ∷ w) rest (e ∷ es) c h m = ground (arith, take_word w rest es c, h, m)

found_flag :
    {o : Option Bytes} {w : Option Value}
    → Reads o w
    → (elim o [
      | none ↦ false
      | some value ↦ get_or value 0 0 == b'1' || equal (take 4 value) (codes "true")
    ])
      ≡ flag_of w
unfolding flag_of equal
found_flag absent = refl
found_flag (present (word []) c cs p m) = cc
found_flag (present (word (x ∷ xs)) c cs p m) =
    ap (λ b. x == b'1' || b) (take_word (x ∷ xs) cs (codes "true") c refl (ground (arith, m)))
found_flag (present (text t) c cs p m) = refl

found_text :
    (expected : Bytes) {o : Option Bytes} {w : Option Value}
    → no_quote expected ≡ true
    → Reads o w
    → (elim o [
      | none ↦ false
      | some value ↦
          get_or value 0 0 == b'"'
          && leb (length expected + 2) (length value)
          && equal (take (length expected) (drop 1 value)) expected
          && get_or value (suc (length expected)) 0 == b'"'
    ])
      ≡ says expected w
unfolding says
found_text expected h absent = refl
found_text expected h (present (word []) c cs p m) = cc
found_text expected h (present (word (x ∷ xs)) c cs p m) = ground (arith, p)
found_text expected h (present (text t) c cs p m) = ground (
  arith,
  take_match expected t (c ∷ cs) h p,
  length-append t (b'"' ∷ c ∷ cs),
  equal_sound t expected,
)

module _ (members : List (Bytes × Value)) (plain : is_plain members ≡ true) where
  message-Reads :
      (k : ℕ) (key : Bytes)
      → no_quote (k ∷ key) ≡ true
      → is_mark k ≡ false
      → Reads (find_value (k ∷ key) (message_text members)) (first_value (k ∷ key) members)
  message-Reads k key clean start =
      rw (find_value-plain (k ∷ key) (b'{' ∷ []) (members_text members) refl)
        (find_value-Reads k key clean start members plain)

  pub json_bool-flag :
      (k : ℕ) (key : Bytes)
      → no_quote (k ∷ key) ≡ true
      → is_mark k ≡ false
      → json_bool (message_text members) (k ∷ key) ≡ flag_of (first_value (k ∷ key) members)
  unfolding json_bool
  json_bool-flag k key clean start = found_flag (message-Reads k key clean start)

  pub json_string_is-says :
      (k : ℕ) (key expected : Bytes)
      → no_quote (k ∷ key) ≡ true
      → is_mark k ≡ false
      → no_quote expected ≡ true
      → json_string_is (message_text members) (k ∷ key) expected
        ≡ says expected (first_value (k ∷ key) members)
  unfolding json_string_is
  json_string_is-says k key expected clean start h =
      found_text expected h (message-Reads k key clean start)
