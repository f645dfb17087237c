-- ===== src/Display/Edd/Walk.antt =====
-- `skip_token`, `array_item` and `find_key` of PicoDeck-ED-Display/src/edd_state.c, on the tokens of a
-- tree.
use pico_deck_eddiscovery.Base.{
  ℕ, zero, suc, ◌+◌, ◌≤◌, ◌<◌, ◌≡◌, refl, sym, ap, ◌∙◌, true, false, ◌&&◌, Option, none, some, List,
  [], ◌∷◌, ◌++◌, arith, ltb, lt→ltb, le→ltb-false, length, length-append, append_assoc, drop,
  drop-drop, drop-append_self, length-drop,
}
use pico_deck_eddiscovery.Display.Edd.Tokens.{Token, token_at, is_inside, skip_while, skip_token}
use pico_deck_eddiscovery.Display.Edd.Tree.{
  Json, scalar, array, object, Items, nil, cons, Members, empty, member, root, below, item_tokens,
  member_tokens, tokens_of, IsLaid, AreItems, AreMembers,
}

-- What follows starts at `lo` or after.
abbrev pub Starts : ℕ → List Token → Type 0
Starts lo [] = Unit {0}
Starts lo (t ∷ ts) = lo ≤ t.start

Starts-le : (a b : ℕ) (ts : List Token) → a ≤ b → Starts b ts → Starts a ts
Starts-le a b [] h s = tt
Starts-le a b (t ∷ ts) h s = omega arith

skip_while-Starts : (hi : ℕ) (ts : List Token) (i : ℕ) → Starts hi ts → skip_while hi ts i ≡ i
unfolding skip_while
skip_while-Starts hi [] i s = refl
skip_while-Starts hi (t ∷ ts) i s = rw (le→ltb-false t.start hi s)

-- The walk passes all that lies below a value.
mutual
  unfolding below IsLaid skip_while

  skip_below :
      (hi : ℕ) (v : Json) (ts : List Token) (i : ℕ)
      → (root v).end ≤ hi
      → IsLaid v
      → skip_while hi (below v ++ ts) i ≡ skip_while hi ts (i + length (below v))
  skip_below hi (scalar t) ts i h v = ap (skip_while hi ts) (omega arith)
  skip_below hi (array t items) ts i h (_, _, _, v) = skip_items hi t.start t.end items ts i h v
  skip_below hi (object t members) ts i h (_, _, _, v) =
      skip_members hi t.start t.end members ts i h v

  skip_items :
      (hi lo e : ℕ) (items : Items) (ts : List Token) (i : ℕ)
      → e ≤ hi
      → AreItems lo e items
      → skip_while hi (item_tokens items ++ ts) i
        ≡ skip_while hi ts (i + length (item_tokens items))
  skip_items hi lo e nil ts i h v = ap (skip_while hi ts) (omega arith)
  skip_items hi lo e (cons v items) ts i h (a, b, c, d, r) =
      rw (append_assoc (below v) (item_tokens items) ts, lt→ltb (root v).start hi (omega arith))
        (skip_below hi v (item_tokens items ++ ts) (suc i) (omega arith) d
          ∙ skip_items hi (root v).end e items ts (suc i + length (below v)) h r
          ∙ ap (skip_while hi ts) (omega (arith, length-append {0} (below v) (item_tokens items))))

  skip_members :
      (hi lo e : ℕ) (members : Members) (ts : List Token) (i : ℕ)
      → e ≤ hi
      → AreMembers lo e members
      → skip_while hi (member_tokens members ++ ts) i
        ≡ skip_while hi ts (i + length (member_tokens members))
  skip_members hi lo e empty ts i h v = ap (skip_while hi ts) (omega arith)
  skip_members hi lo e (member k v members) ts i h (a, a', a'', b, c, d, r) =
      rw
        (
          append_assoc (below v) (member_tokens members) ts,
          lt→ltb k.start hi (omega arith),
          lt→ltb (root v).start hi (omega arith),
        )
        (skip_below hi v (member_tokens members ++ ts) (suc (suc i)) (omega arith) d
          ∙ skip_members hi (root v).end e members ts (suc (suc i) + length (below v)) h r
          ∙ ap (skip_while hi ts)
              (omega (arith, length-append {0} (below v) (member_tokens members))))

-- At index `i` of the tokens stands the value `v`, laid out, and what follows it starts after it.
pub record At (tokens : List Token) (i : ℕ) (v : Json) : Type 0 where
  pub after : List Token
  pub placed : drop i tokens ≡ tokens_of v ++ after
  pub follows : Starts (root v).end after
  pub laid : IsLaid v

module _ (tokens : List Token) (i : ℕ) where
  pub at_head : {t : Token} {ts : List Token} → drop i tokens ≡ t ∷ ts → token_at tokens i ≡ t
  at_head e = head tokens i e
    where
      head :
          (us : List Token) (n : ℕ) {t : Token} {ts : List Token}
          → drop n us ≡ t ∷ ts
          → token_at us n ≡ t
      head [] zero e = cc
      head [] (suc n) e = cc
      head (u ∷ us) zero e = cc
      head (u ∷ us) (suc n) e = head us n e

  pub within : {t : Token} {ts : List Token} → drop i tokens ≡ t ∷ ts → i < length tokens
  within {t = t} {ts = ts} e = omega (arith, ap length e, length-drop {0} i tokens)

  pub beyond : drop i tokens ≡ [] → length tokens ≤ i
  beyond e = omega (arith, ap length e, length-drop {0} i tokens)

  pub drop_more : (xs ts : List Token) → drop i tokens ≡ xs ++ ts → drop (i + length xs) tokens ≡ ts
  drop_more xs ts e = sym (drop-drop (length xs) i tokens) ∙ rw e (drop-append_self xs ts)

-- What lies below a value follows its root.
pub children :
    {tokens : List Token} {i : ℕ} {v : Json} (a : At tokens i v)
    → drop (suc i) tokens ≡ below v ++ a.after
children {tokens} {i} {v} a =
    let e : suc i ≡ i + 1 = omega arith in
    rw e (drop_more tokens i (root v ∷ []) (below v ++ a.after) a.placed)

pub skip_token-At :
    {tokens : List Token} {i : ℕ} {v : Json} (a : At tokens i v)
    → skip_token tokens i ≡ i + length (tokens_of v)
unfolding skip_token
skip_token-At {tokens} {i} {v} a =
    rw (at_head tokens i a.placed, children a)
      (skip_below (root v).end v a.after (suc i) (omega arith) a.laid
        ∙ skip_while-Starts (root v).end a.after (suc i + length (below v)) a.follows
        ∙ omega arith)

-- What a search over the tokens gives, beside the search over the tree.
pub data Finds (tokens : List Token) : Option ℕ → Option Json → Type 0 where
  missing : Finds tokens none none
  found : {i : ℕ} {v : Json} → At tokens i v → Finds tokens (some i) (some v)

pub item_tokens-Starts :
    (lo hi : ℕ) (items : Items) (ts : List Token)
    → AreItems lo hi items
    → Starts hi ts
    → Starts lo (item_tokens items ++ ts)
unfolding item_tokens AreItems
item_tokens-Starts lo hi nil ts v s = Starts-le lo hi ts v s
item_tokens-Starts lo hi (cons v items) ts r s = r.0

pub member_tokens-Starts :
    (lo hi : ℕ) (members : Members) (ts : List Token)
    → AreMembers lo hi members
    → Starts hi ts
    → Starts lo (member_tokens members ++ ts)
unfolding member_tokens AreMembers
member_tokens-Starts lo hi empty ts v s = Starts-le lo hi ts v s
member_tokens-Starts lo hi (member k v members) ts r s = r.0

-- Nothing more lies inside the value that ends at `hi`.
pub outside :
    (tokens : List Token) (hi i : ℕ) (ts : List Token)
    → drop i tokens ≡ ts
    → Starts hi ts
    → is_inside tokens hi i ≡ false
outside tokens hi i [] e s = ground (arith, beyond tokens i e)
outside tokens hi i (t ∷ ts) e s = rw (at_head tokens i e) (ground arith)

pub inside :
    (tokens : List Token) (hi i : ℕ) {t : Token} {ts : List Token}
    → drop i tokens ≡ t ∷ ts
    → t.start < hi
    → is_inside tokens hi i ≡ true
inside tokens hi i e h = rw (at_head tokens i e) (ground (arith, within tokens i e))

-- The test of `find_key`'s loop, for a key and its value.
pub pair_inside :
    (tokens : List Token) (hi i : ℕ) {k t : Token} {ts : List Token}
    → drop i tokens ≡ k ∷ t ∷ ts
    → k.start < hi
    → (ltb (suc i) (length tokens) && ltb (token_at tokens i).start hi) ≡ true
pair_inside tokens hi i e h =
    rw (at_head tokens i e) (ground (arith, ap length e, length-drop {0} i tokens))

pub pair_outside :
    (tokens : List Token) (hi i : ℕ) (ts : List Token)
    → drop i tokens ≡ ts
    → Starts hi ts
    → (ltb (suc i) (length tokens) && ltb (token_at tokens i).start hi) ≡ false
pair_outside tokens hi i [] e s = ground (arith, beyond tokens i e)
pair_outside tokens hi i (t ∷ ts) e s = rw (at_head tokens i e) (ground arith)
