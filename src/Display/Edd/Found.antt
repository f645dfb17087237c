-- ===== src/Display/Edd/Found.antt =====
-- `find_key` and `array_item` of PicoDeck-ED-Display/src/edd_state.c find in the tokens what the tree
-- that jsmn parsed has, down any path of keys and columns.
use pico_deck_eddiscovery.Base.{
  ℕ, zero, suc, ◌+◌, ◌≤◌, ◌<◌, ◌≡◌, ap, ◌∙◌, false, Option, none, some, List, [], ◌∷◌, ◌++◌, arith,
  lt→leb-false, length, length-drop, length-append, append_assoc, drop, Bytes, Bool-cases, inl, inr,
}
use pico_deck_eddiscovery.Display.Edd.Tokens.{
  Token, is_object, is_array, nth_item, array_item, find_from, find_key, token_equals,
}
use pico_deck_eddiscovery.Display.Edd.Tree.{
  Json, scalar, array, object, Items, nil, cons, Members, empty, member, root, below, item_tokens,
  member_tokens, tokens_of, IsLaid, AreItems, AreMembers, first_member, member_at, nth, item_at,
}
use pico_deck_eddiscovery.Display.Edd.Walk.{
  Starts, At, Finds, missing, found, skip_token-At, children, at_head, within, drop_more, inside,
  outside, pair_inside, pair_outside, item_tokens-Starts, member_tokens-Starts,
}

module _ (tokens : List Token) (hi : ℕ) (ts : List Token) (s : Starts hi ts) where
  -- The first of some items is in its place, and the others follow it.
  pub item-At :
      (i lo : ℕ) (v : Json) (items : Items)
      → drop i tokens ≡ item_tokens (cons v items) ++ ts
      → AreItems lo hi (cons v items)
      → At tokens i v
  unfolding item_tokens AreItems
  item-At i lo v items e (a, b, c, d, r) = record {
    after = item_tokens items ++ ts;
    placed = e ∙ ap (λ us. root v ∷ us) (append_assoc (below v) (item_tokens items) ts);
    follows = item_tokens-Starts (root v).end hi items ts r s;
    laid = d;
  }

  pub item-next :
      (i : ℕ) (v : Json) (items : Items)
      → drop i tokens ≡ item_tokens (cons v items) ++ ts
      → drop (i + length (tokens_of v)) tokens ≡ item_tokens items ++ ts
  unfolding item_tokens
  item-next i v items e =
      drop_more tokens i (tokens_of v) _
        (e ∙ ap (λ us. root v ∷ us) (append_assoc (below v) (item_tokens items) ts))

  nth_item-Finds :
      (n i lo : ℕ) (items : Items)
      → drop i tokens ≡ item_tokens items ++ ts
      → AreItems lo hi items
      → Finds tokens (nth_item tokens hi n i) (nth items n)
  unfolding nth_item nth item_tokens AreItems
  nth_item-Finds zero i lo nil e r = rw (outside tokens hi i ts e s) missing
  nth_item-Finds (suc n) i lo nil e r = rw (outside tokens hi i ts e s, nth_item) missing
  nth_item-Finds zero i lo (cons v items) e r =
      rw (inside tokens hi i e r.1) (found (item-At i lo v items e r))
  nth_item-Finds (suc n) i lo (cons v items) e r =
      rw (inside tokens hi i e r.1, skip_token-At here, nth_item)
        (nth_item-Finds n (i + length (tokens_of v)) (root v).end items (item-next i v items e) r.4)
    where
      here : At tokens i v
      here = item-At i lo v items e r

  -- The value of the first of some members is in its place, and the others follow it.
  member-At :
      (i lo : ℕ) (k : Token) (v : Json) (members : Members)
      → drop i tokens ≡ member_tokens (member k v members) ++ ts
      → AreMembers lo hi (member k v members)
      → At tokens (suc i) v
  unfolding member_tokens AreMembers
  member-At i lo k v members e (a, a', a'', b, c, d, r) = record {
    after = member_tokens members ++ ts;
    placed =
        let n : suc i ≡ i + 1 = omega arith in
        rw n (
          drop_more tokens i (k ∷ []) _ e
          ∙ ap (λ us. root v ∷ us) (append_assoc (below v) (member_tokens members) ts));
    follows = member_tokens-Starts (root v).end hi members ts r s;
    laid = d;
  }

  member-next :
      (i : ℕ) (k : Token) (v : Json) (members : Members)
      → drop i tokens ≡ member_tokens (member k v members) ++ ts
      → drop (suc i + length (tokens_of v)) tokens ≡ member_tokens members ++ ts
  unfolding member_tokens
  member-next i k v members e =
      let n : suc i + length (tokens_of v) ≡ i + length (k ∷ tokens_of v) = omega arith in
      rw n (
        drop_more tokens i (k ∷ tokens_of v) _
          (e ∙ ap (λ us. k ∷ root v ∷ us) (append_assoc (below v) (member_tokens members) ts)))

  find_from-Finds :
      (json key : Bytes) (fuel i lo : ℕ) (members : Members)
      → drop i tokens ≡ member_tokens members ++ ts
      → AreMembers lo hi members
      → length (member_tokens members) ≤ fuel
      → Finds tokens (find_from json tokens hi key fuel i) (first_member json key members)
  unfolding find_from first_member member_tokens AreMembers
  find_from-Finds json key zero i lo empty e r f = missing
  find_from-Finds json key (suc fuel) i lo empty e r f =
      rw (pair_outside tokens hi i ts e s, find_from) missing
  find_from-Finds json key zero i lo (member k v members) e r f = absurd (omega arith)
  find_from-Finds json key (suc fuel) i lo (member k v members) e r f =
      elim (Bool-cases (token_equals json k key)) [
        | inl same ↦
            rw (pair_inside tokens hi i e start, at_head tokens i e, same, find_from) (found here)
        | inr other ↦
            rw
              (
                pair_inside tokens hi i e start,
                at_head tokens i e,
                other,
                skip_token-At here,
                find_from,
              )
              (find_from-Finds json key fuel (suc i + length (tokens_of v)) (root v).end members
                (member-next i k v members e) r.6 shorter)
      ]
    where
      here : At tokens (suc i) v
      here = member-At i lo k v members e r

      start : k.start < hi
      start = omega (arith, r)

      shorter : length (member_tokens members) ≤ fuel
      shorter = omega (arith, f, length-append {0} (below v) (member_tokens members))

-- Only an object has members.
find_key-other :
    {tokens : List Token} {i : ℕ} {v : Json} (json key : Bytes)
    → At tokens i v
    → is_object (root v).type ≡ false
    → find_key json tokens (some i) key ≡ none
unfolding find_key
find_key-other {tokens} {i} json key a no_object =
    rw (at_head tokens i a.placed, no_object) (ground arith)

find_key-At :
    {tokens : List Token} {i : ℕ} (v : Json) (json key : Bytes)
    → At tokens i v
    → Finds tokens (find_key json tokens (some i) key) (member_at json key (some v))
unfolding member_at IsLaid find_key below
find_key-At (scalar t) json key a = rw (find_key-other json key a a.laid.0) missing
find_key-At (array t items) json key a = rw (find_key-other json key a a.laid.0) missing
find_key-At {tokens} {i} (object t members) json key a =
    rw (at_head tokens i a.placed, a.laid.0, lt→leb-false _ _ (within tokens i a.placed))
      (find_from-Finds tokens t.end a.after a.follows json key (length tokens) (suc i) t.start
        members (children a) a.laid.3 enough)
  where
    enough : length (member_tokens members) ≤ length tokens
    enough = omega (
      arith,
      ap length (children a),
      length-drop {0} (suc i) tokens,
      length-append {0} (member_tokens members) a.after,
    )

-- Whatever value the search starts at, `find_key` finds in the tokens what the tree has: the value of
-- the first member with the key, in its place, or nothing where there is none.
pub find_key-Finds :
    {tokens : List Token} {place : Option ℕ} {value : Option Json} (json key : Bytes)
    → Finds tokens place value
    → Finds tokens (find_key json tokens place key) (member_at json key value)
unfolding find_key member_at
find_key-Finds json key missing = missing
find_key-Finds json key (found a) = find_key-At _ json key a

-- Only an array has items.
array_item-other :
    {tokens : List Token} {i : ℕ} {v : Json} (n : ℕ)
    → At tokens i v
    → is_array (root v).type ≡ false
    → array_item tokens i n ≡ none
unfolding array_item
array_item-other {tokens} {i} n a no_array = rw (at_head tokens i a.placed, no_array) (ground arith)

-- The same for the items of an array, by their place in it.
pub array_item-Finds :
    {tokens : List Token} {i : ℕ} (v : Json) (n : ℕ)
    → At tokens i v
    → Finds tokens (array_item tokens i n) (item_at n (some v))
unfolding item_at IsLaid array_item below
array_item-Finds (scalar t) n a = rw (array_item-other n a a.laid.1) missing
array_item-Finds (object t members) n a = rw (array_item-other n a a.laid.1) missing
array_item-Finds {tokens} {i} (array t items) n a =
    rw (at_head tokens i a.placed, a.laid.1, lt→leb-false _ _ (within tokens i a.placed))
      (nth_item-Finds tokens t.end a.after a.follows n (suc i) t.start items (children a) a.laid.3)
