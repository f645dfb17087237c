-- ===== src/Display/Edd/Reads.antt =====
-- The readers of PicoDeck-ED-Display/src/edd_state.c, from `copy_key` to `parse_generic_ui`, on the tokens
-- of a tree: they read what the tree has.
use pico_deck_eddiscovery.Base.{
  ℕ, zero, suc, ◌+◌, ◌≡◌, refl, ap, Bool, Option, none, some, List, ◌++◌, length, drop,
  if◌then◌else◌, Bytes, codes, equal, ◌||◌,
}
use pico_deck_eddiscovery.Base.Int.{ℤ}
use pico_deck_eddiscovery.Base.Text.{atoi}
use pico_deck_eddiscovery.Display.Edd.Tokens.{
  Token, is_string, is_array, token_at, token_equals, slice, find_key, copy_token, copy_key,
  copy_string_key, integer_key, bool_key, copy_array_text,
}
use pico_deck_eddiscovery.Display.Edd.State.{EddState, edd_text}
use pico_deck_eddiscovery.Display.Edd.Messages.{parse_status, read_pips, token_is}
use pico_deck_eddiscovery.Display.Edd.Tree.{
  Json, scalar, array, object, Items, nil, cons, root, below, item_tokens, tokens_of, IsLaid,
  AreItems, member_at, item_at,
}
use pico_deck_eddiscovery.Display.Edd.Walk.{
  Starts, At, Finds, missing, found, skip_token-At, children, at_head, inside, outside,
}
use pico_deck_eddiscovery.Display.Edd.Found.{find_key-Finds, array_item-Finds, item-At, item-next}
use pico_deck_eddiscovery.Display.Edd.Document.{
  text_of, string_of, integer_of, bool_of, status_of, pips_from, pips_of, value_is,
}

-- What is read of the place that is found is what is read of the value.
pub found_read {ℓ} :
    {A : Type ℓ} {tokens : List Token} {place : Option ℕ} {value : Option Json} (read : Token → A)
    (old : A)
    → Finds tokens place value
    → (elim place [ none ↦ old | some i ↦ read (token_at tokens i) ])
      ≡ (elim value [ none ↦ old | some v ↦ read (root v) ])
found_read read old missing = refl
found_read {tokens = tokens} read old (found {i = i} a) = ap read (at_head tokens i a.placed)

module _ (json : Bytes) {tokens : List Token} {place : Option ℕ} {value : Option Json} where
  pub copy_key-text :
      (key : Bytes) (capacity : ℕ) (old : Bytes)
      → Finds tokens place value
      → copy_key json tokens place key capacity old
        ≡ text_of json capacity old (member_at json key value)
  unfolding copy_key text_of
  copy_key-text key capacity old f =
      found_read (λ t. copy_token json t capacity) old (find_key-Finds json key f)

  pub copy_string_key-string :
      (key : Bytes) (capacity : ℕ) (old : Bytes)
      → Finds tokens place value
      → copy_string_key json tokens place key capacity old
        ≡ string_of json capacity old (member_at json key value)
  unfolding copy_string_key string_of
  copy_string_key-string key capacity old f =
      found_read (λ t. if is_string t.type then copy_token json t capacity else old) old
        (find_key-Finds json key f)

  pub integer_key-integer :
      (key : Bytes) (old : ℤ)
      → Finds tokens place value
      → integer_key json tokens place key old ≡ integer_of json old (member_at json key value)
  unfolding integer_key integer_of
  integer_key-integer key old f =
      found_read (λ t. atoi (copy_token json t 20)) old (find_key-Finds json key f)

  pub bool_key-bool :
      (key : Bytes) (old : Bool)
      → Finds tokens place value
      → bool_key json tokens place key old ≡ bool_of json old (member_at json key value)
  unfolding bool_key bool_of
  bool_key-bool key old f =
      found_read (λ t. equal (slice json t) (codes "true") || equal (slice json t) (codes "1")) old
        (find_key-Finds json key f)

pub token_is-value :
    (json : Bytes) {tokens : List Token} {place : Option ℕ} {value : Option Json} (text : Bytes)
    → Finds tokens place value
    → token_is json tokens place text ≡ value_is json text value
unfolding value_is
token_is-value json text missing = refl
token_is-value json {tokens = tokens} text (found {i = i} a) =
    ap (λ t. token_equals json t text) (at_head tokens i a.placed)

pub copy_array_text-text :
    (json : Bytes) {tokens : List Token} {i : ℕ} {v : Json} (column capacity : ℕ) (old : Bytes)
    → At tokens i v
    → copy_array_text json tokens i column capacity old
      ≡ text_of json capacity old (item_at column (some v))
unfolding copy_array_text text_of
copy_array_text-text json {v = v} column capacity old a =
    found_read (λ t. copy_token json t capacity) old (array_item-Finds v column a)

module _ (json : Bytes) {tokens : List Token} {v : Json} (a : At tokens 0 v) where
  pub parse_status-status : (s : EddState) → parse_status json tokens s ≡ status_of json v s
  unfolding parse_status status_of
  parse_status-status s i = record s {
    system = text (the (codes "SystemData")) (codes "System") s.system i;
    allegiance = text (the (codes "EDDB")) (codes "Allegiance") s.allegiance i;
    economy = text (the (codes "EDDB")) (codes "Economy") s.economy i;
    security = text (the (codes "EDDB")) (codes "Security") s.security i;
    ship = text (the (codes "Ship")) (codes "Ship") s.ship i;
    fuel = text (the (codes "Ship")) (codes "Fuel") s.fuel i;
    tank_size = text (the (codes "Ship")) (codes "TankSize") s.tank_size i;
    jump_range = text (the (codes "Ship")) (codes "Range") s.jump_range i;
    cargo = text (the (codes "Ship")) (codes "Cargo") s.cargo i;
    travel_dist = text (the (codes "Travel")) (codes "Dist") s.travel_dist i;
    travel_jumps = text (the (codes "Travel")) (codes "Jumps") s.travel_jumps i;
    travel_time = text (the (codes "Travel")) (codes "Time") s.travel_time i;
    body = text (found a) (codes "Bodyname") s.body i;
    station = text (found a) (codes "StationName") s.station i;
    commander = text (found a) (codes "Commander") s.commander i;
    mode = text (found a) (codes "Mode") s.mode i;
    game_mode = text (found a) (codes "GameMode") s.game_mode i;
    home_dist = text (found a) (codes "HomeDist") s.home_dist i;
    sol_dist = text (found a) (codes "SolDist") s.sol_dist i;
    credits = text (found a) (codes "Credits") s.credits i;
    next_system =
        copy_string_key-string json (codes "FSDJumpNextSystemName") edd_text s.next_system (found a)
          i;
    remaining_jumps =
        integer_key-integer json (codes "RemainingJumps") s.remaining_jumps (found a) i;
  }
    where
      text :
          {place : Option ℕ} {value : Option Json}
          → Finds tokens place value
          → (key old : Bytes)
          → copy_key json tokens place key edd_text old
            ≡ text_of json edd_text old (member_at json key value)
      text f key old = copy_key-text json key edd_text old f

      the :
          (key : Bytes)
          → Finds tokens (find_key json tokens (some 0) key) (member_at json key (some v))
      the key = find_key-Finds json key (found a)

  read_pips-pips :
      (n slot i lo hi : ℕ) (items : Items) (ts : List Token) (pips : List ℤ)
      → drop i tokens ≡ item_tokens items ++ ts
      → Starts hi ts
      → AreItems lo hi items
      → read_pips json tokens hi n slot i pips ≡ pips_from json n slot items pips
  unfolding read_pips pips_from item_tokens AreItems
  read_pips-pips zero slot i lo hi items ts pips e s r = refl
  read_pips-pips (suc n) slot i lo hi nil ts pips e s r =
      rw (outside tokens hi i ts e s, read_pips) refl
  read_pips-pips (suc n) slot i lo hi (cons v items) ts pips e s r =
      rw (inside tokens hi i e r.1, skip_token-At here, at_head tokens i e, read_pips)
        (read_pips-pips n (suc slot) (i + length (tokens_of v)) (root v).end hi items ts _
          (item-next tokens hi ts s i v items e) s r.4)
    where
      here : At tokens i v
      here = item-At tokens hi ts s i lo v items e r

  pub found_pips :
      {place : Option ℕ} {value : Option Json} (old : List ℤ)
      → Finds tokens place value
      → (elim place [
        | none ↦ old
        | some pips ↦
            if is_array (token_at tokens pips).type
            then read_pips json tokens (token_at tokens pips).end 3 0 (suc pips) old
            else old
      ])
        ≡ pips_of json old value
  unfolding pips_of IsLaid below
  found_pips old missing = refl
  found_pips old (found {i = i} {v = scalar t} b) = rw (at_head tokens i b.placed, b.laid.1) refl
  found_pips old (found {i = i} {v = object t members} b) =
      rw (at_head tokens i b.placed, b.laid.1) refl
  found_pips old (found {i = i} {v = array t items} b) =
      rw (at_head tokens i b.placed, b.laid.1)
        (read_pips-pips 3 0 (suc i) t.start t.end items b.after old (children b) b.follows b.laid.3)
