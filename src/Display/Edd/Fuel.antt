-- ===== src/Display/Edd/Fuel.antt =====
-- The loop over the journal rows in PicoDeck-ED-Display/src/edd_state.c ends: each turn passes at least
-- one token.
use pico_deck_eddiscovery.Base.{
  ℕ, zero, suc, ◌-◌, ◌≤◌, ◌<◌, ◌≡◌, refl, sym, ◌∙◌, Bool, false, leb, leb→le, List, [], ◌∷◌, arith,
  length, drop, Bytes, Bool-cases, inl, inr,
}
use pico_deck_eddiscovery.Display.Edd.Tokens.{Token, token_at, is_inside, skip_while, skip_token}
use pico_deck_eddiscovery.Display.Edd.State.{EddState}
use pico_deck_eddiscovery.Display.Edd.Journal.{row_kind, journal_rows}
use pico_deck_eddiscovery.Display.Edd.Rows.{RowKind-cases}

skip_while-le : (end : ℕ) (tokens : List Token) (i : ℕ) → i ≤ skip_while end tokens i
unfolding skip_while
skip_while-le end [] i = omega arith
skip_while-le end (t ∷ ts) i = ground (arith, skip_while-le end ts (suc i))

skip_token-lt : (tokens : List Token) (i : ℕ) → i < skip_token tokens i
unfolding skip_token
skip_token-lt tokens i =
    omega (arith, skip_while-le (token_at tokens i).end (drop (suc i) tokens) (suc i))

past_the_end :
    (out : Bool × EddState) (json : Bytes) (tokens : List Token) (end fuel row completed : ℕ)
    (s : EddState)
    → length tokens ≤ row
    → journal_rows out json tokens end (suc fuel) row completed s ≡ (false, s)
unfolding journal_rows
past_the_end out json tokens end fuel row completed s h = rw (outside, journal_rows) refl
  where
    outside : is_inside tokens end row ≡ false
    outside = ground arith

-- With one turn more than there are tokens left the fuel does not run out, for any tokens: the result
-- does not depend on what running out of fuel would give, nor on how much fuel there is. So the loop
-- ends by itself, within that many turns.
pub journal_rows_fuel :
    (out out' : Bool × EddState) (json : Bytes) (tokens : List Token) (end n m row completed : ℕ)
    (s : EddState)
    → length tokens - row < n
    → length tokens - row < m
    → journal_rows out json tokens end n row completed s
      ≡ journal_rows out' json tokens end m row completed s
unfolding journal_rows
journal_rows_fuel out out' json tokens end zero m row completed s h k = absurd (omega arith)
journal_rows_fuel out out' json tokens end (suc n) zero row completed s h k = absurd (omega arith)
journal_rows_fuel out out' json tokens end (suc n) (suc m) row completed s h k =
    elim (Bool-cases (leb (length tokens) row)) [
      | inl past ↦
          let beyond = leb→le (length tokens) row past in
          past_the_end out json tokens end n row completed s beyond
          ∙ sym (past_the_end out' json tokens end m row completed s beyond)
      | inr left ↦
          let rest = λ (c : ℕ).
            journal_rows_fuel out out' json tokens end n m (skip_token tokens row) c s
              (ground (arith, skip_token-lt tokens row))
              (ground (arith, skip_token-lt tokens row)) in
          elim (Bool-cases (is_inside tokens end row)) [
            | inr e ↦ rw (e, journal_rows) refl
            | inl e ↦ elim (RowKind-cases (row_kind json tokens row)) [
              | inl r ↦ rw (e, r, journal_rows) (rest (suc completed))
              | inr (inl r) ↦ rw (e, r, journal_rows) refl
              | inr (inr (inl r)) ↦ rw (e, r, journal_rows) refl
              | inr (inr (inr r)) ↦ rw (e, r, journal_rows) (rest completed)
            ]
          ]
    ]
