-- ===== src/Keyboard/Samples.antt =====
-- The filter of PicoDeck-ED-Keyboard/src/touch.c: what five readings of the converter become.
use pico_deck_eddiscovery.Base.{
  ℕ, ◌+◌, ◌≤◌, ◌<◌, ◌≡◌, refl, Bool, true, ◌&&◌, ◌||◌, List, [], ◌∷◌, arith, ltb, leb,
  if◌then◌else◌, length,
}
use pico_deck_eddiscovery.Keyboard.Touch.{insert, insert_all, sort_samples, filtered}

-- Every element is at least `b`, and at least the one before it.
abbrev pub ascends_from : ℕ → List ℕ → Bool
ascends_from b [] = true
ascends_from b (x ∷ xs) = leb b x && ascends_from x xs

abbrev pub number_of : (ℕ → Bool) → List ℕ → ℕ
number_of p [] = 0
number_of p (x ∷ xs) = (if p x then 1 else 0) + number_of p xs

insert-ascends :
    (b v : ℕ) (xs : List ℕ) → b ≤ v → ascends_from b xs ≡ true → ascends_from b (insert v xs) ≡ true
unfolding insert
insert-ascends b v [] h k = ground arith
insert-ascends b v (x ∷ xs) h k = ground (arith, insert-ascends x v xs)

number_of-insert :
    (p : ℕ → Bool) (v : ℕ) (xs : List ℕ)
    → number_of p (insert v xs) ≡ (if p v then 1 else 0) + number_of p xs
unfolding insert
number_of-insert p v [] = refl
number_of-insert p v (x ∷ xs) = ground (arith, number_of-insert p v xs)

insert_all-ascends :
    (sorted xs : List ℕ)
    → ascends_from 0 sorted ≡ true
    → ascends_from 0 (insert_all sorted xs) ≡ true
unfolding insert_all
insert_all-ascends sorted [] h = h
insert_all-ascends sorted (x ∷ xs) h =
    insert_all-ascends (insert x sorted) xs (insert-ascends 0 x sorted (omega arith) h)

number_of-insert_all :
    (p : ℕ → Bool) (sorted xs : List ℕ)
    → number_of p (insert_all sorted xs) ≡ number_of p sorted + number_of p xs
unfolding insert_all
number_of-insert_all p sorted [] = omega arith
number_of-insert_all p sorted (x ∷ xs) =
    omega (arith, number_of-insert_all p (insert x sorted) xs, number_of-insert p x sorted)

-- Sorting leaves an ascending list in which as many values meet any test as before.
pub sort_samples_lem :
    (p : ℕ → Bool) (values : List ℕ)
    → (ascends_from 0 (sort_samples values) ≡ true)
      × (number_of p (sort_samples values) ≡ number_of p values)
unfolding sort_samples
sort_samples_lem p values =
    (insert_all-ascends [] values refl, omega (arith, number_of-insert_all p [] values))

abbrev anything : ℕ → Bool
anything v = true

number_of-anything : (xs : List ℕ) → number_of anything xs ≡ length xs
number_of-anything [] = refl
number_of-anything (x ∷ xs) = omega (arith, number_of-anything xs)

abbrev pub outside : ℕ → ℕ → ℕ → Bool
outside low high v = ltb v low || ltb high v

middle :
    (low high : ℕ) (s : List ℕ)
    → ascends_from 0 s ≡ true
    → length s ≡ 5
    → number_of (outside low high) s ≤ 1
    → (a b c d e : ℕ) × (s ≡ a ∷ b ∷ c ∷ d ∷ e ∷ []) × (low ≤ b) × (b ≤ c) × (c ≤ d) × (d ≤ high)
middle low high (a ∷ b ∷ c ∷ d ∷ e ∷ []) h l n =
    (a, b, c, d, e, refl, ground arith, ground arith, ground arith, ground arith)
middle low high [] h l n = absurd (omega arith)
middle low high (a ∷ []) h l n = absurd (omega arith)
middle low high (a ∷ b ∷ []) h l n = absurd (omega arith)
middle low high (a ∷ b ∷ c ∷ []) h l n = absurd (omega arith)
middle low high (a ∷ b ∷ c ∷ d ∷ []) h l n = absurd (omega arith)
middle low high (a ∷ b ∷ c ∷ d ∷ e ∷ f ∷ s) h l n = absurd (omega arith)

-- Where at least four of the five readings lie between `low` and `high`, so does the filtered value,
-- whatever the fifth reading is and wherever it stands.
pub filtered_rejects_outlier :
    (low high : ℕ) (values : List ℕ)
    → length values ≡ 5
    → number_of (outside low high) values ≤ 1
    → high < 65536
    → (low ≤ filtered values) × (filtered values ≤ high)
unfolding filtered
filtered_rejects_outlier low high values five few small =
    let (a, b, c, d, e, is, h1, h2, h3, h4) =
      middle low high (sort_samples values) (sort_samples_lem anything values).0
        (omega (
          arith,
          (sort_samples_lem anything values).1,
          number_of-anything values,
          number_of-anything (sort_samples values),
        ))
        (omega (arith, (sort_samples_lem (outside low high) values).1)) in
    rw (is) (omega arith, omega arith)
