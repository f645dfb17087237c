-- ===== src/Display/Edd/Tokens.antt =====
-- The walk over jsmn's tokens in PicoDeck-ED-Display/src/edd_state.c. A list of tokens is
-- `tokens[0 .. count)`; an index that is -1 in the source is `none`. A token of a successful parse
-- has no negative position, so positions are natural numbers.
use pico_deck_eddiscovery.Base.{
  ℕ, zero, suc, ◌-◌, Bool, true, false, not, ◌&&◌, ◌||◌, Option, none, some, List, [], ◌∷◌, ltb,
  leb, ◌==◌, if◌then◌else◌, length, get_or, take, drop, Bytes, codes, equal,
}
use pico_deck_eddiscovery.Base.Int.{ℤ}
use pico_deck_eddiscovery.Base.Text.{atoi}

-- `jsmntype_t`
pub data TokenType : Type 0 where
  jsmn_undefined jsmn_object jsmn_array jsmn_string jsmn_primitive : TokenType

-- `jsmntok_t`, less its `size`, which the source never reads.
pub record Token : Type 0 where
  pub type : TokenType
  pub start : ℕ
  pub end : ℕ

abbrev pub is_object : TokenType → Bool
is_object jsmn_object = true
is_object _ = false

abbrev pub is_array : TokenType → Bool
is_array jsmn_array = true
is_array _ = false

abbrev pub is_string : TokenType → Bool
is_string jsmn_string = true
is_string _ = false

abbrev no_token : Token
no_token = record { type = jsmn_undefined; start = 0; end = 0 }

-- `tokens[i]`, read only where `i < count`.
abbrev pub token_at : List Token → ℕ → Token
token_at tokens i = get_or tokens i no_token

-- The bytes of a token.
abbrev pub slice : Bytes → Token → Bytes
slice json t = take (t.end - t.start) (drop t.start json)

unfoldable pub token_equals : Bytes → Token → Bytes → Bool
token_equals json t text = is_string t.type && equal (slice json t) text

-- The loop of `skip_token`; the list is `tokens[i ..]`.
unfoldable pub skip_while : ℕ → List Token → ℕ → ℕ
skip_while end [] i = i
skip_while end (t ∷ ts) i = if ltb t.start end then skip_while end ts (suc i) else i

unfoldable pub skip_token : List Token → ℕ → ℕ
skip_token tokens i = skip_while (token_at tokens i).end (drop (suc i) tokens) (suc i)

-- `index < count && tokens[index].start < end`
abbrev pub is_inside : List Token → ℕ → ℕ → Bool
is_inside tokens end i = ltb i (length tokens) && ltb (token_at tokens i).start end

unfoldable pub nth_item : List Token → ℕ → ℕ → ℕ → Option ℕ
nth_item tokens end zero item = if is_inside tokens end item then some item else none
nth_item tokens end (suc n) item =
    let rest = nth_item tokens end n (skip_token tokens item) in
    if is_inside tokens end item then rest else none

unfoldable pub array_item : List Token → ℕ → ℕ → Option ℕ
array_item tokens array ordinal =
    if leb (length tokens) array || not (is_array (token_at tokens array).type)
    then none
    else nth_item tokens (token_at tokens array).end ordinal (suc array)

-- The loop of `find_key`, on fuel.
unfoldable pub find_from : Bytes → List Token → ℕ → Bytes → ℕ → ℕ → Option ℕ
find_from json tokens end key zero i = none
find_from json tokens end key (suc fuel) i =
    let rest = find_from json tokens end key fuel (skip_token tokens (suc i)) in
    if ltb (suc i) (length tokens) && ltb (token_at tokens i).start end
    then (if token_equals json (token_at tokens i) key then some (suc i) else rest)
    else none

-- A round passes at least two tokens, so their number is fuel enough.
unfoldable pub find_key : Bytes → List Token → Option ℕ → Bytes → Option ℕ
find_key json tokens none key = none
find_key json tokens (some object) key =
    if leb (length tokens) object || not (is_object (token_at tokens object).type)
    then none
    else find_from json tokens (token_at tokens object).end key (length tokens) (suc object)

-- The byte that a round of `copy_token` writes, and the rest of the token: `c` is `json[i]`, the list
-- is what follows it.
unfoldable pub next_char : ℕ → Bytes → ℕ × Bytes
next_char c [] = (c, [])
next_char c (escaped ∷ rest) =
    if c == b'\\'
    then (if escaped == b'n' || escaped == b'r' || escaped == b't'
        then (b' ', rest)
        else if escaped == b'u' && leb 4 (length rest)
        then (b'?', drop 4 rest)
        else (escaped, rest))
    else (c, escaped ∷ rest)

-- The loop of `copy_token`: `room` is `capacity - 1 - out`.
unfoldable pub copy_chars : ℕ → Bytes → Bytes
copy_chars zero bytes = []
copy_chars (suc room) [] = []
copy_chars (suc room) (c ∷ cs) = (next_char c cs).0 ∷ copy_chars room (next_char c cs).1

-- What `dest` holds, up to its NUL.
unfoldable pub copy_token : Bytes → Token → ℕ → Bytes
copy_token json t capacity = copy_chars (capacity - 1) (slice json t)

-- `copy_key`: the text that was there stays if the key is missing.
unfoldable pub copy_key : Bytes → List Token → Option ℕ → Bytes → ℕ → Bytes → Bytes
copy_key json tokens object key capacity old = elim (find_key json tokens object key) [
  | none ↦ old
  | some value ↦ copy_token json (token_at tokens value) capacity
]

unfoldable pub copy_string_key : Bytes → List Token → Option ℕ → Bytes → ℕ → Bytes → Bytes
copy_string_key json tokens object key capacity old = elim (find_key json tokens object key) [
  | none ↦ old
  | some value ↦
      if is_string (token_at tokens value).type
      then copy_token json (token_at tokens value) capacity
      else old
]

unfoldable pub integer_key : Bytes → List Token → Option ℕ → Bytes → ℤ → ℤ
integer_key json tokens object key fallback = elim (find_key json tokens object key) [
  | none ↦ fallback
  | some value ↦ atoi (copy_token json (token_at tokens value) 20)
]

unfoldable pub bool_key : Bytes → List Token → Option ℕ → Bytes → Bool → Bool
bool_key json tokens object key fallback = elim (find_key json tokens object key) [
  | none ↦ fallback
  | some value ↦
      equal (slice json (token_at tokens value)) (codes "true")
      || equal (slice json (token_at tokens value)) (codes "1")
]

unfoldable pub copy_array_text : Bytes → List Token → ℕ → ℕ → ℕ → Bytes → Bytes
copy_array_text json tokens row column capacity old = elim (array_item tokens row column) [
  | none ↦ old
  | some value ↦ copy_token json (token_at tokens value) capacity
]
