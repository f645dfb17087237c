-- ===== src/Display/Edd/Tree.antt =====
-- What jsmn documents of the tokens of a parsed text, for PicoDeck-ED-Display/src/edd_state.c: they are
-- those of a tree, a parent before its children, a key before its value, and they lie in the text as
-- they are nested. Over the tree, the members and the items that the walk over the tokens looks for.
use pico_deck_eddiscovery.Base.{
  ℕ, zero, suc, ◌≤◌, ◌<◌, ◌≡◌, true, false, Option, none, some, List, [], ◌∷◌, ◌++◌, if◌then◌else◌,
  Bytes,
}
use pico_deck_eddiscovery.Display.Edd.Tokens.{Token, token_equals, is_object, is_array}

mutual
  -- A string or a primitive, an array, or an object.
  pub data Json : Type 0 where
    scalar : Token → Json
    array : Token → Items → Json
    object : Token → Members → Json

  pub data Items : Type 0 where
    nil : Items
    cons : Json → Items → Items

  pub data Members : Type 0 where
    empty : Members
    member : Token → Json → Members → Members

abbrev pub root : Json → Token
root (scalar t) = t
root (array t items) = t
root (object t members) = t

unfoldable mutual
  -- The tokens of a value after its root.
  pub below : Json → List Token
  below (scalar t) = []
  below (array t items) = item_tokens items
  below (object t members) = member_tokens members

  pub item_tokens : Items → List Token
  item_tokens nil = []
  item_tokens (cons v items) = root v ∷ (below v ++ item_tokens items)

  pub member_tokens : Members → List Token
  member_tokens empty = []
  member_tokens (member k v members) = k ∷ root v ∷ (below v ++ member_tokens members)

abbrev pub tokens_of : Json → List Token
tokens_of v = root v ∷ below v

-- `lo` is where what stands before ends, and `hi` where the parent ends. A token starts before the end
-- of every value that it lies in, since a bracket follows it there.
unfoldable mutual
  pub IsLaid : Json → Type 0
  IsLaid (scalar t) = (is_object t.type ≡ false) × (is_array t.type ≡ false) × (t.start ≤ t.end)
  IsLaid (array t items) =
      (is_object t.type ≡ false)
      × (is_array t.type ≡ true)
      × (t.start ≤ t.end)
      × AreItems t.start t.end items
  IsLaid (object t members) =
      (is_object t.type ≡ true)
      × (is_array t.type ≡ false)
      × (t.start ≤ t.end)
      × AreMembers t.start t.end members

  pub AreItems : ℕ → ℕ → Items → Type 0
  AreItems lo hi nil = lo ≤ hi
  AreItems lo hi (cons v items) =
      (lo ≤ (root v).start)
      × ((root v).start < hi)
      × ((root v).end ≤ hi)
      × IsLaid v
      × AreItems (root v).end hi items

  pub AreMembers : ℕ → ℕ → Members → Type 0
  AreMembers lo hi empty = lo ≤ hi
  AreMembers lo hi (member k v members) =
      (lo ≤ k.start)
      × (k.start ≤ k.end)
      × (k.end ≤ (root v).start)
      × ((root v).start < hi)
      × ((root v).end ≤ hi)
      × IsLaid v
      × AreMembers (root v).end hi members

-- The value of the first member with a key.
unfoldable pub first_member : Bytes → Bytes → Members → Option Json
first_member json key empty = none
first_member json key (member k v members) =
    if token_equals json k key then some v else first_member json key members

unfoldable pub member_at : Bytes → Bytes → Option Json → Option Json
unfolding first_member
member_at json key (some (object t members)) = first_member json key members
member_at json key _ = none

unfoldable pub nth : Items → ℕ → Option Json
nth nil n = none
nth (cons v items) zero = some v
nth (cons v items) (suc n) = nth items n

unfoldable pub item_at : ℕ → Option Json → Option Json
unfolding nth
item_at n (some (array t items)) = nth items n
item_at n _ = none
