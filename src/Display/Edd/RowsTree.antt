-- ===== src/Display/Edd/RowsTree.antt =====
-- The loop over the journal rows in PicoDeck-ED-Display/src/edd_state.c, on the tokens of a tree: it takes
-- the rows of the message one by one.
use pico_deck_eddiscovery.Base.{
  Bool, ℕ, zero, suc, ◌+◌, ◌<◌, ◌≡◌, refl, ap, false, Option, none, some, List, [], ◌++◌, arith,
  length, length-append, length-drop, drop, if◌then◌else◌, Bytes, Bool-cases, Option-cases, inl,
  inr,
}
use pico_deck_eddiscovery.Base.Int.{ℤ, pos, negsuc}
use pico_deck_eddiscovery.Base.Text.{strtol}
use pico_deck_eddiscovery.Display.Edd.Tokens.{Token, is_array, is_string, token_at, slice}
use pico_deck_eddiscovery.Display.Edd.State.{EddState, event_time_size}
use pico_deck_eddiscovery.Display.Edd.Journal.{
  row_time, apply_summary, route_count, nav_summary, nav_route, other_row, kind_of_event, row_kind,
  journal_rows,
}
use pico_deck_eddiscovery.Display.Edd.Rows.{RowKind-cases}
use pico_deck_eddiscovery.Display.Edd.Tree.{
  Json, scalar, array, object, Items, nil, cons, root, below, item_tokens, tokens_of, IsLaid,
  AreItems, item_at,
}
use pico_deck_eddiscovery.Display.Edd.Walk.{
  Starts, At, Finds, missing, found, skip_token-At, children, at_head, inside, outside,
}
use pico_deck_eddiscovery.Display.Edd.Found.{array_item-Finds, item-At, item-next}
use pico_deck_eddiscovery.Display.Edd.Document.{
  row_time_of, count_of, route_of, kind_of_row, rows_of, journal_of,
}
use pico_deck_eddiscovery.Display.Edd.Reads.{copy_array_text-text, found_read}

module _ (json : Bytes) (tokens : List Token) (i : ℕ) where
  row_kind-kind :
      (row : Json)
      → At tokens i row
      → row_kind json tokens i ≡ kind_of_row json (item_at 0 (some row))
  unfolding row_kind kind_of_row item_at IsLaid
  row_kind-kind (scalar t) a = rw (at_head tokens i a.placed, a.laid.1) refl
  row_kind-kind (object t members) a = rw (at_head tokens i a.placed, a.laid.1) refl
  row_kind-kind (array t items) a =
      rw (at_head tokens i a.placed, a.laid.1)
        (found_read (kind_of_event json) other_row (array_item-Finds (array t items) 0 a))

  route_count-count :
      (completed : ℕ) (summary : Bytes) (jumps : ℤ) (s : EddState)
      → route_count json tokens i completed summary jumps s
        ≡ count_of json (row_time json tokens i) completed summary jumps s
  unfolding route_count count_of apply_summary
  route_count-count completed summary (negsuc n) s = refl
  route_count-count completed summary (pos n) s = refl

  nav_summary-route :
      (completed : ℕ) (w : Json) (s : EddState)
      → nav_summary json tokens i completed (root w) s
        ≡ route_of json (row_time json tokens i) completed (some w) s
  unfolding nav_summary route_of
  nav_summary-route completed w s = elim (Bool-cases (is_string (root w).type)) [
    | inr e ↦ rw e refl
    | inl e ↦ elim (Option-cases (strtol (drop (root w).start json))) [
      | inl f ↦ rw (e, f, nav_summary, route_of) refl
      | inr (jumps, f) ↦
          rw (e, f, nav_summary, route_of)
            (route_count-count completed (slice json (root w)) jumps s)
    ]
  ]

  nav_route-route :
      (row : Json) (completed : ℕ) (s : EddState)
      → At tokens i row
      → nav_route json tokens i completed s
        ≡ route_of json (row_time json tokens i) completed (item_at 3 (some row)) s
  unfolding nav_route route_of
  nav_route-route row completed s a = found_route (array_item-Finds row 3 a)
    where
      found_route :
          {place : Option ℕ} {value : Option Json}
          → Finds tokens place value
          → (elim place [
            | none ↦ (false, s)
            | some summary ↦ nav_summary json tokens i completed (token_at tokens summary) s
          ])
            ≡ route_of json (row_time json tokens i) completed value s
      found_route missing = refl
      found_route (found {i = j} {v = w} b) =
          rw (at_head tokens j b.placed) (nav_summary-route completed w s)

  row_time-time : (row : Json) → At tokens i row → row_time json tokens i ≡ row_time_of json row
  unfolding row_time row_time_of
  row_time-time row a = copy_array_text-text json 1 event_time_size [] a

module _ (json : Bytes) (tokens : List Token) (hi : ℕ) (ts : List Token) (s : Starts hi ts) where
  journal_rows-rows :
      (out : Bool × EddState) (fuel i lo completed : ℕ) (rows : Items) (state : EddState)
      → drop i tokens ≡ item_tokens rows ++ ts
      → AreItems lo hi rows
      → length (item_tokens rows) < fuel
      → journal_rows out json tokens hi fuel i completed state ≡ rows_of json rows completed state
  unfolding journal_rows rows_of item_tokens AreItems
  journal_rows-rows out zero i lo completed nil state e r f = absurd (omega arith)
  journal_rows-rows out (suc fuel) i lo completed nil state e r f =
      rw (outside tokens hi i ts e s, journal_rows) refl
  journal_rows-rows out zero i lo completed (cons row rows) state e r f = absurd (omega arith)
  journal_rows-rows out (suc fuel) i lo completed (cons row rows) state e r f =
      let rest = λ (n : ℕ).
        journal_rows-rows out fuel (i + length (tokens_of row)) (root row).end n rows state
          (item-next tokens hi ts s i row rows e) r.4 shorter in
      rw (inside tokens hi i e r.1, journal_rows)
        (elim (RowKind-cases (kind_of_row json (item_at 0 (some row)))) [
          | inl k ↦
              rw
                (row_kind-kind json tokens i row here, k, skip_token-At here, journal_rows, rows_of)
                (rest (suc completed))
          | inr (inl k) ↦
              rw
                (
                  row_kind-kind json tokens i row here,
                  k,
                  row_time-time json tokens i row here,
                  journal_rows,
                  rows_of,
                )
                refl
          | inr (inr (inl k)) ↦
              rw
                (
                  row_kind-kind json tokens i row here,
                  k,
                  ← row_time-time json tokens i row here,
                  journal_rows,
                  rows_of,
                )
                (nav_route-route json tokens i row completed state here)
          | inr (inr (inr k)) ↦
              rw
                (row_kind-kind json tokens i row here, k, skip_token-At here, journal_rows, rows_of)
                (rest completed)
        ])
    where
      here : At tokens i row
      here = item-At tokens hi ts s i lo row rows e r

      shorter : length (item_tokens rows) < fuel
      shorter = omega (arith, f, length-append {0} (below row) (item_tokens rows))

module _ (json : Bytes) {tokens : List Token} {v : Json} (a : At tokens 0 v) where
  pub found_rows :
      {place : Option ℕ} {value : Option Json} (s : EddState)
      → Finds tokens place value
      → (elim place [
        | none ↦ (false, s)
        | some rows ↦
            if is_array (token_at tokens rows).type
            then journal_rows
                (false, s)
                json
                tokens
                (token_at tokens rows).end
                (suc (length tokens))
                (suc rows)
                0
                s
            else (false, s)
      ])
        ≡ journal_of json value s
  unfolding journal_of IsLaid below
  found_rows s missing = refl
  found_rows s (found {i = i} {v = scalar t} b) = rw (at_head tokens i b.placed, b.laid.1) refl
  found_rows s (found {i = i} {v = object t members} b) =
      rw (at_head tokens i b.placed, b.laid.1) refl
  found_rows s (found {i = i} {v = array t rows} b) =
      rw (at_head tokens i b.placed, b.laid.1)
        (journal_rows-rows json tokens t.end b.after b.follows (false, s) (suc (length tokens))
          (suc i) t.start 0 rows s (children b) b.laid.3 enough)
    where
      enough : length (item_tokens rows) < suc (length tokens)
      enough = omega (
        arith,
        ap length (children b),
        length-drop {0} (suc i) tokens,
        length-append {0} (item_tokens rows) b.after,
      )
