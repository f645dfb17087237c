-- ===== src/Base/Order.antt =====
-- `strcmp` orders C strings: no text is before itself, and "not before" is a total preorder.
use mathlib.Core.Path.{◌≡◌, refl}
use mathlib.Core.Bool.{true, false}
use mathlib.Core.List.{[], ◌∷◌}
use native.Mathlib.Omega.{arith}
use pico_deck_eddiscovery.Base.Lists.{Bytes}
use pico_deck_eddiscovery.Base.Text.{before}

pub before_irrefl : (x : Bytes) → before x x ≡ false
unfolding before
before_irrefl [] = refl
before_irrefl (c ∷ cs) = ground (arith, before_irrefl cs)

pub before_asym : (x y : Bytes) → before x y ≡ true → before y x ≡ false
unfolding before
before_asym [] [] h = refl
before_asym [] (y ∷ ys) h = refl
before_asym (x ∷ xs) [] h = cc
before_asym (x ∷ xs) (y ∷ ys) h = ground (arith, before_asym xs ys)

pub before-nil : (x : Bytes) → before x [] ≡ false
unfolding before
before-nil [] = refl
before-nil (c ∷ cs) = refl

pub before_trans : (x y z : Bytes) → before y x ≡ false → before z y ≡ false → before z x ≡ false
unfolding before
before_trans [] y [] h k = refl
before_trans [] y (c ∷ cs) h k = refl
before_trans (x ∷ xs) [] z h k = cc
before_trans (x ∷ xs) (y ∷ ys) [] h k = cc
before_trans (x ∷ xs) (y ∷ ys) (z ∷ zs) h k = ground (arith, before_trans xs ys zs)
